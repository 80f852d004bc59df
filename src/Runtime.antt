-- ===== src/Runtime.antt =====
-- runtime/src: the container runtime's address allocation, its routes, and the service that the
-- agent calls.
pub mod Ipam
pub mod Routes
pub mod Service
pub mod Main
pub mod Tests
