-- ===== src/Esim.antt =====
-- The classes of pysim/pySim/esim/__init__.py: the operations on profiles that notifications
-- name, and activation codes.
pub mod Pmo
pub mod ActivationCode
pub mod Reading
mod Examples
