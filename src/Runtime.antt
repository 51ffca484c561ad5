-- ===== src/Runtime.antt =====
-- internal/runtime: a workload runs in its own namespaces, cgroup and network.
pub mod Config
pub mod Network
pub mod Link
pub mod Cgroup
pub mod Arguments
pub mod Run
pub mod Handshake
pub mod Init
pub mod Sample
mod Tests
