-- ===== src/BoundProfile.antt =====
-- pysim/pySim/esim/es8p.py: how a profile package is protected, bound to one eUICC, and read there.
pub mod Tools
pub mod Channel
pub mod Encode
pub mod Decode
pub mod Splitting
pub mod Sending
pub mod Contents
pub mod Agreement
pub mod RoundTrip
pub mod Wrapping
pub mod Toy
mod Examples
