-- ===== src/Backends/Fmc.antt =====
-- src/backends/fmc/: the token lifecycle and the discovery of devices.
pub mod TokenManager
pub mod Discovery
pub mod DeviceCache
pub mod Map
pub mod Merge
pub mod Domain
pub mod Filter
pub mod Adapter
pub mod Sizing
mod Examples
