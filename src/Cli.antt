-- ===== src/Cli.antt =====
-- cli/src: the command line: its HTTP client, its commands, and what is proved of them.
pub mod Http
pub mod Operations
pub mod Config
pub mod Console
pub mod Client
pub mod Encode
pub mod Args
pub mod Clusters
pub mod Accounts
pub mod Volumes
pub mod Nodes
pub mod Capabilities
pub mod Mutations
pub mod Containers
pub mod Snapshots
pub mod Kubernetes
pub mod Requests
pub mod Main
pub mod Commands
mod Tests
