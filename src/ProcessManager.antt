-- ===== src/ProcessManager.antt =====
-- gui/services/process_manager.py: `ProcessManager`, which starts and stops the eUICC daemon, the
-- SM-DP+ server and nginx.
pub mod System
pub mod Starting
pub mod Stopping
pub mod Changes
pub mod Starts
pub mod Stops
pub mod Refinement
pub mod Ending
pub mod StopAll
mod Examples
