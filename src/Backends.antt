-- ===== src/Backends.antt =====
-- src/backends/: what the two adapters share, and the parts of the FMC adapter.
pub mod RefreshCache
pub mod Fields
pub mod Groups
pub mod Interfaces
pub mod Timestamps
pub mod Certificates
pub mod Licenses
pub mod Fmc
pub mod Scc
