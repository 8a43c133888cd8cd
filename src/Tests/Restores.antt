-- ===== src/Tests/Restores.antt =====
-- Examples for the snapshots.
use cross_device_manager.Base.{
  ◌≡◌, refl, Bool, true, false, Option, none, some, List, [], ◌∷◌, Text, bytes, text_eq, nat_eq,
}
use cross_device_manager.Base.Result.{ok, err, Error, not_found}
use cross_device_manager.Base.Int.{pos}
use cross_device_manager.Snapshot.{Snapshot, RestoreOutcome, auto, manual}
use cross_device_manager.Daemon.StateStore.Entries.{keys_of}
use cross_device_manager.Daemon.World.{World}
use cross_device_manager.Daemon.Snapshots.{create, capture_payload, restore}
use cross_device_manager.Daemon.Snapshots.Restore.{restore_failed, restore_succeeded}
use cross_device_manager.Tests.Toy.{toy, stick_entry, other_entry, world_with}

abbrev no_such : Error
no_such = record { code = not_found; message = bytes "no such snapshot" }

restore_failed_example :
    ((restore toy (bytes "7") (world_with [])).1.machine ≡ [])
    × ((restore toy (bytes "7") (world_with [])).1.modprobe ≡ (world_with []).modprobe)
unfolding restore
restore_failed_example = restore_failed toy (bytes "7") (world_with []) no_such refl

-- A world with one snapshot, of the time when the other stick was disabled.
abbrev saved : World toy
saved = record (world_with (stick_entry ∷ [])) {
  snapshots =
      (create toy manual (record { verb = []; subject = bytes "before" })
        (world_with (other_entry ∷ []))).1.snapshots;
}

abbrev outcome : RestoreOutcome
outcome = elim (restore toy (bytes "0") saved).0 [
  | ok o ↦ o
  | err e ↦ record { snapshot_id = []; safety_snapshot_id = []; items = [] }
]

restore_succeeded_example :
    (snap : Snapshot) × ((toy.snapshots.read (bytes "0") saved.snapshots).0 ≡ ok snap)
    × (outcome.snapshot_id ≡ bytes "0")
    × (toy.snapshots.put
          (capture_payload toy saved)
          auto
          (record { verb = bytes "SnapshotRestore"; subject = bytes "0" })
          (pos 1000)
          (toy.snapshots.read (bytes "0") saved.snapshots).1
        ≡ (ok outcome.safety_snapshot_id, (restore toy (bytes "0") saved).1.snapshots))
    × (keys_of (restore toy (bytes "0") saved).1.state.entries ≡ keys_of snap.payload.entries)
unfolding restore text_eq cross_device_manager.Base.Int.decimal
    cross_device_manager.Daemon.StateStore.replace_all cross_device_manager.Daemon.Disk.write_file
    cross_device_manager.Daemon.AtomicFile.atomic_write_file
    cross_device_manager.Daemon.Disk.next_faults
    cross_device_manager.Daemon.AtomicFile.sync_and_publish
    cross_device_manager.Daemon.AtomicFile.publish
restore_succeeded_example = restore_succeeded toy (bytes "0") saved outcome refl
