-- ===== src/Tests.antt =====
-- Concrete inputs for the theorems.
pub mod Codec
pub mod Toy
pub mod Policy
pub mod Store
pub mod Verbs
pub mod Restores
pub mod Snapshots
pub mod History
pub mod Runtime
pub mod Hotplug
pub mod Cli
pub mod Prober
pub mod Clients
