-- ===== src/Backends/Scc.antt =====
-- src/backends/scc/: the mappers of the responses, and the adapter.
pub mod Map
pub mod Inventory
pub mod Adapter
pub mod Lifetime
pub mod Wire
mod Examples
