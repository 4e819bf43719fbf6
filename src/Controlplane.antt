-- ===== src/Controlplane.antt =====
-- controlplane/: the controller of the workers, and its client of the key-value cluster.
pub mod KvClient
pub mod Turns
pub mod Scheduling
pub mod Best
mod Tests
pub mod Registry
pub mod Registration
pub mod Handlers
pub mod Documents
pub mod Served
