-- ===== src/Tests/History.antt =====
-- Examples for the comparison, the history and the documents that cross the bus.
use cross_device_manager.Base.{
  ◌≡◌, refl, Option, none, some, List, [], ◌∷◌, Text, bytes, nat_eq, text_eq,
}
use cross_device_manager.Base.Int.{pos}
use cross_device_manager.Base.Result.{ok, err}
use cross_device_manager.Snapshot.{SnapshotMeta, SnapshotPayload, manual, healthy, corrupt}
use cross_device_manager.SnapshotDiff.{
  SnapshotDiff, SnapshotDiffEntry, diff_kind_module, diff_state_absent,
}
use cross_device_manager.SnapshotJson.{snapshot_diff_to_json, snapshot_diff_from_json}
use cross_device_manager.SnapshotJson.Wire.{snapshot_diff_from_json-snapshot_diff_to_json}
use cross_device_manager.Daemon.World.{World}
use cross_device_manager.Daemon.Snapshots.{create, diff}
use cross_device_manager.Tests.Codec.{toy_json, toy_json-IsLawful}
use cross_device_manager.Tests.Toy.{toy, stick_entry, other_entry, world_with}

abbrev before : SnapshotPayload
before = record { entries = stick_entry ∷ []; modprobe_files = [] }

abbrev after : SnapshotPayload
after = record {
  entries = stick_entry ∷ [];
  modprobe_files = (bytes "devmgr-a.conf", bytes "blacklist nouveau\n") ∷ [];
}

abbrev blacklisted : SnapshotDiffEntry
blacklisted = record {
  kind = diff_kind_module;
  key = bytes "nouveau";
  before = diff_state_absent;
  after = bytes "blacklisted";
}

abbrev meta : Text → Option Text → SnapshotMeta
meta id parent = record {
  id = id;
  parent = parent;
  created_at_utc = pos 0;
  trigger = manual;
  reason = record { verb = []; subject = [] };
  health = healthy;
  entry_count = 0;
  modprobe_file_count = 0;
}

abbrev metas : List SnapshotMeta
metas =
    record (meta (bytes "c") (some (bytes "b"))) { health = corrupt }
    ∷ meta (bytes "b") (some (bytes "a"))
    ∷ meta (bytes "a") none
    ∷ []

abbrev sent : SnapshotDiff
sent = record { base_id = bytes "a"; target_id = []; entries = blacklisted ∷ [] }

snapshot_diff_from_json-snapshot_diff_to_json_example :
    snapshot_diff_from_json toy_json [] (snapshot_diff_to_json toy_json [] sent) ≡ some (ok sent)
unfolding cross_device_manager.Json.is_printable cross_device_manager.SnapshotJson.diff_to_json
    nat_eq text_eq cross_device_manager.Json.is_ascii
snapshot_diff_from_json-snapshot_diff_to_json_example =
    snapshot_diff_from_json-snapshot_diff_to_json toy_json toy_json-IsLawful [] sent refl

-- A world with one snapshot, of the time when the other stick was disabled.
abbrev saved : World toy
saved = record (world_with (stick_entry ∷ [])) {
  snapshots =
      (create toy manual (record { verb = []; subject = bytes "before" })
        (world_with (other_entry ∷ []))).1.snapshots;
}

abbrev compared : SnapshotDiff
compared = elim (diff toy (bytes "0") [] saved).0 [
  | ok d ↦ d
  | err e ↦ record { base_id = []; target_id = []; entries = [] }
]
