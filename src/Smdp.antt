-- ===== src/Smdp.antt =====
-- The SM-DP+ server of pysim/osmo-smdpp.py with the sessions of pysim/pySim/esim/rsp.py.
pub mod Eid
pub mod Session
pub mod Store
pub mod History
pub mod Server
pub mod Authenticate
pub mod Initiate
pub mod Download
pub mod Closing
pub mod Api
pub mod Mno
pub mod Profiles
pub mod Oid
pub mod Trust
pub mod Delivery
pub mod Sent
pub mod Receiving
pub mod Safety
pub mod Keeps
pub mod Runs
pub mod Ending
pub mod Startup
pub mod Setup
pub mod Examples
mod Received
pub mod Samples
