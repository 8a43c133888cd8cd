-- ===== src/Daemon/World.antt =====
-- The daemon's objects together: what its services share, and the interface of the snapshot store
-- (`ISnapshotStore` of daemon/include/devmgr/daemon/snapshot_store.hpp).
use cross_device_manager.Base.{List, Text}
use cross_device_manager.Base.Int.{ℤ}
use cross_device_manager.Base.Op.{Op}
use cross_device_manager.Json.{Library}
use cross_device_manager.Snapshot.{
  Snapshot, SnapshotMeta, SnapshotPayload, SnapshotReason, SnapshotTrigger,
}
use cross_device_manager.Daemon.Disk.{Disk}
use cross_device_manager.Daemon.Platform.{Platform}
use cross_device_manager.Daemon.StateStore.{StateStore}

pub record SnapshotStore : Type 1 where
  pub Store : Type 0
  pub put : SnapshotPayload → SnapshotTrigger → SnapshotReason → ℤ → Op Store Text
  pub list : Op Store (List SnapshotMeta)
  pub read : Text → Op Store Snapshot
  pub remove : Text → Op Store (Unit {0})

-- What the daemon is linked with, and the root of sysfs that it is started with.
pub record Env : Type 1 where
  pub platform : Platform
  pub snapshots : SnapshotStore
  pub json : Library
  pub sysfs_root : Text

pub record World (E : Env) : Type 0 where
  pub machine : E.platform.Machine
  pub state : StateStore
  pub snapshots : E.snapshots.Store
  pub modprobe : Disk

module _ (E : Env) where
  -- A step of one object, as a step of the whole.
  abbrev pub on_machine : {A : Type 0} → Op E.platform.Machine A → Op (World E) A
  on_machine f w = let (r, m) = f w.machine in (r, record w { machine = m })

  abbrev pub on_state : {A : Type 0} → Op StateStore A → Op (World E) A
  on_state f w = let (r, s) = f w.state in (r, record w { state = s })

  abbrev pub on_snapshots : {A : Type 0} → Op E.snapshots.Store A → Op (World E) A
  on_snapshots f w = let (r, s) = f w.snapshots in (r, record w { snapshots = s })
