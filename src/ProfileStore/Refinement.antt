-- ===== src/ProfileStore/Refinement.antt =====
-- The methods of gui/services/profile_store.py beside the store of `Abstract`.
pub mod Searching
pub mod Naming
pub mod Represents
pub mod Enabling
pub mod Deleting
pub mod Adding
pub mod Calls
mod Examples
