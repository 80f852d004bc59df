-- ===== src/Control/Tests.antt =====
-- control/src: concrete data, and the theorems of the control plane at it.
pub mod Data
mod Writes
mod Steps
mod Texts
