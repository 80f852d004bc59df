-- ===== src/Agent.antt =====
-- agent/src: the mesh agent's table of peers, its synchronisation with the control plane, and its
-- shutdown.
pub mod Address
pub mod Peers
pub mod Sync
pub mod Host
pub mod Vxlan
pub mod ControlClient
pub mod Life
pub mod Routed
mod Tests
