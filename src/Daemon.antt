-- ===== src/Daemon.antt =====
-- daemon/: the privileged service, its stores and its request pipeline.
pub mod AtomicFile
pub mod EntryJson
pub mod Disk
pub mod StateStore
pub mod Platform
pub mod World
pub mod Enforcement
pub mod Snapshots
pub mod Containment
pub mod Requests
pub mod SnapshotFile
pub mod SnapshotOrder
pub mod JsonStore
