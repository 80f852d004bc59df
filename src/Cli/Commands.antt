-- ===== src/Cli/Commands.antt =====
-- cli/src/main.rs: what every command promises, by the parts of the command line.
pub mod Simple
pub mod Changes
pub mod Containers
pub mod Others
pub mod Nodes
pub mod Manifests
pub mod Kubernetes
pub mod Exits
pub mod Sent
pub mod Whole
pub mod Safety
