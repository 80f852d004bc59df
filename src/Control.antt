-- ===== src/Control.antt =====
-- control/src: the control plane's orchestrator, its data base and its HTTP handlers.
pub mod Json
pub mod Rows
pub mod World
pub mod Codes
pub mod Actions
pub mod Remote
pub mod Plan
pub mod Dispatch
pub mod Decide
pub mod Loops
pub mod Api
pub mod System
mod Tests
