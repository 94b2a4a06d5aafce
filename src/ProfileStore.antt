-- ===== src/ProfileStore.antt =====
-- gui/services/profile_store.py: the JSON store of the installed profiles. Defs has the records
-- and the file operations, Methods the methods of the class, and Runs sequences of calls.
pub mod Defs
pub mod Methods
pub mod Runs
pub mod Switching
pub mod Removing
pub mod Abstract
pub mod Refinement
pub mod RoundTrip
mod Examples
