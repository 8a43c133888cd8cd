-- ===== src/Daemon/Snapshots/Restore.antt =====
-- What a restore leaves behind, when it fails and when it succeeds.
use cross_device_manager.Base.{
  ◌≡◌, refl, ◌∙◌, inl, inr, true, List, [], ◌∷◌, Text, bytes, text_eq, arith, Option-cases, find_if,
}
use cross_device_manager.Base.Result.{ok, err, Error, Result-cases}
use cross_device_manager.Models.{Device, DisabledDeviceEntry, key_eq, status_eq}
use cross_device_manager.Snapshot.{Snapshot, SnapshotPayload, auto, RestoreOutcome}
use cross_device_manager.Daemon.Platform.{device_from_sysfs}
use cross_device_manager.Daemon.StateStore.{entry_matches, replace_all}
use cross_device_manager.Daemon.StateStore.Entries.{keys_of, keys_of-set_guard_suspended}
use cross_device_manager.Daemon.Enforcement.Discipline.{note_applied-keys}
use cross_device_manager.Daemon.World.{Env, World}
use cross_device_manager.Daemon.Snapshots.{
  suspend, disable_restored, re_apply_one, re_apply_entry, re_apply_entries, re_apply_restored,
  converge, capture_payload, create, restore,
}

module _ (E : Env) where
  re_apply_one-keys :
      (entry : DisabledDeviceEntry) (device : Device) (w : World E)
      → (keys_of (re_apply_one E entry device w).1.state.entries ≡ keys_of w.state.entries)
        × ((re_apply_one E entry device w).1.snapshots ≡ w.snapshots)
  unfolding re_apply_one suspend disable_restored
  re_apply_one-keys entry device w = (
    ground (
      arith,
      keys_of-set_guard_suspended E.json entry.key true w.state,
      note_applied-keys E entry device w.state,
    ),
    ground arith,
  )

  re_apply_entry-keys :
      (all : List Device) (e : DisabledDeviceEntry) (w : World E)
      → (keys_of (re_apply_entry E all e w).1.state.entries ≡ keys_of w.state.entries)
        × ((re_apply_entry E all e w).1.snapshots ≡ w.snapshots)
  unfolding re_apply_entry
  re_apply_entry-keys all e w = elim (Option-cases (find_if (λ d. entry_matches d e) all)) [
    | inr (device, n) ↦ rw (n, re_apply_entry) (re_apply_one-keys e device w)
    | inl n ↦
        let absent = device_from_sysfs E.platform w.machine e.last_sysfs_path in
        (ground (arith, re_apply_one-keys e absent w), ground (arith, re_apply_one-keys e absent w))
  ]

  re_apply_entries-keys :
      (all : List Device) (es : List DisabledDeviceEntry) (w : World E)
      → (keys_of (re_apply_entries E all es w).1.state.entries ≡ keys_of w.state.entries)
        × ((re_apply_entries E all es w).1.snapshots ≡ w.snapshots)
  unfolding re_apply_entries
  re_apply_entries-keys all [] w = (refl, refl)
  re_apply_entries-keys all (e ∷ es) w =
      let (keys, store) = re_apply_entry-keys all e w in
      let (keys', store') = re_apply_entries-keys all es (re_apply_entry E all e w).1 in
      (keys' ∙ keys, store' ∙ store)

  converge-keys :
      (pre target : SnapshotPayload) (w : World E)
      → (keys_of (converge E pre target w).1.state.entries ≡ keys_of w.state.entries)
        × ((converge E pre target w).1.snapshots ≡ w.snapshots)
  unfolding converge re_apply_restored
  converge-keys pre target w = re_apply_entries-keys _ w.state.entries _

  -- A restore that fails has not touched a device, a module or a file of the modprobe directory.
  pub restore_failed :
      (id : Text) (w : World E) (e : Error)
      → (restore E id w).0 ≡ err e
      → ((restore E id w).1.machine ≡ w.machine) × ((restore E id w).1.modprobe ≡ w.modprobe)
  unfolding restore create
  restore_failed id w e h = (ground arith, ground arith)

  -- A restore that succeeds has read the snapshot, has then stored a snapshot of the state before it,
  -- whose id it reports, and leaves in the store exactly the keys of the snapshot, in its order.
  pub restore_succeeded :
      (id : Text) (w : World E) (outcome : RestoreOutcome)
      → (restore E id w).0 ≡ ok outcome
      → (snap : Snapshot) × ((E.snapshots.read id w.snapshots).0 ≡ ok snap)
        × (outcome.snapshot_id ≡ id)
        × (E.snapshots.put
              (capture_payload E w)
              auto
              (record { verb = bytes "SnapshotRestore"; subject = id })
              (E.platform.now_utc w.machine)
              (E.snapshots.read id w.snapshots).1
            ≡ (ok outcome.safety_snapshot_id, (restore E id w).1.snapshots))
        × (keys_of (restore E id w).1.state.entries ≡ keys_of snap.payload.entries)
  unfolding restore create replace_all
  restore_succeeded id w outcome h =
      let found = E.snapshots.read id w.snapshots in
      let stored =
        E.snapshots.put (capture_payload E w) auto
          (record { verb = bytes "SnapshotRestore"; subject = id }) (E.platform.now_utc w.machine)
          found.1 in
      elim (Result-cases found.0) [
        | inr (x, e) ↦ absurd (ground arith)
        | inl (snap, e) ↦ elim (Result-cases stored.0) [
          | inr (x, f) ↦ absurd (ground arith)
          | inl (safety, f) ↦
              let saved = replace_all E.json snap.payload.entries w.state in
              let same =
                converge-keys (capture_payload E w) snap.payload
                  (record w { snapshots = stored.1; state = saved.1 }) in
              (snap, e, ground arith, ground (arith, same), ground (arith, same))
        ]
      ]
