-- ===== src/Daemon/Snapshots/Comparison.antt =====
-- What a comparison of the snapshot service compares, and what it leaves alone.
use cross_device_manager.Base.{◌≡◌, inl, inr, Text, [], is_empty, arith}
use cross_device_manager.Base.Result.{ok, Result-cases}
use cross_device_manager.Snapshot.{Snapshot}
use cross_device_manager.SnapshotDiff.{SnapshotDiff, diff_payloads}
use cross_device_manager.Daemon.World.{Env, World}
use cross_device_manager.Daemon.Snapshots.{capture_payload, diff_target, diff}

module _ (E : Env) where
  -- A comparison against the live state that succeeds has read the base, names it, and lists the
  -- differences of its payload from what is captured now, and leaves the machine, the state store and
  -- the modprobe directory as they were.
  pub diff_live :
      (base_id : Text) (w : World E) (d : SnapshotDiff)
      → (diff E base_id [] w).0 ≡ ok d
      → (snap : Snapshot) × ((E.snapshots.read base_id w.snapshots).0 ≡ ok snap)
        × (d.entries ≡ (diff_payloads snap.payload (capture_payload E w)).entries)
        × (d.base_id ≡ base_id)
        × (d.target_id ≡ [])
        × ((diff E base_id [] w).1.machine ≡ w.machine)
        × ((diff E base_id [] w).1.state ≡ w.state)
        × ((diff E base_id [] w).1.modprobe ≡ w.modprobe)
  unfolding diff diff_target capture_payload is_empty
  diff_live base_id w d h = elim (Result-cases (E.snapshots.read base_id w.snapshots).0) [
    | inr (e, f) ↦ absurd (ground arith)
    | inl (snap, e) ↦ (
      snap,
      e,
      ground arith,
      ground arith,
      ground arith,
      ground arith,
      ground arith,
      ground arith,
    )
  ]
