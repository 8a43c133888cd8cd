-- ===== src/Tests/Snapshots.antt =====
-- Examples for the store of the snapshots, with the program's own hash.
use cross_device_manager.Base.{
  ap, ◌-◌, ◌≡◌, ◌≢◌, ◌≤◌, refl, ◌⊎◌, inl, inr, Bool, true, false, Option, none, some, List, [], ◌∷◌,
  ◌++◌, Text, bytes, nat_eq, text_eq, ◌==◌, All, Elem, arith, length, ltb, if◌then◌else◌,
}
use cross_device_manager.Base.Dict.{lookup, contains}
use cross_device_manager.Base.Int.{pos}
use cross_device_manager.Base.Result.{ok}
use cross_device_manager.Json.{is_printable}
use cross_device_manager.Snapshot.{
  Snapshot, SnapshotMeta, SnapshotPayload, SnapshotReason, auto, manual, healthy,
}
use cross_device_manager.Sha256.{sha256_hex, hex_word}
use cross_device_manager.Sha256.Digest.{hex_word-digits}
use cross_device_manager.Validation
use cross_device_manager.Validation.Charset.{snapshot_id_iff}
use cross_device_manager.Daemon.SnapshotFile.{canonical_payload, snapshot_file_name}
use cross_device_manager.Daemon.SnapshotOrder.{chain_of, order_newest_first, victims}
use cross_device_manager.Daemon.SnapshotOrder.Chain.{Walk, chain_of-Walk}
use cross_device_manager.Daemon.JsonStore.{JsonStore, head_of, read, put, prune}
use cross_device_manager.Daemon.JsonStore.Reading.{read_verified}
use cross_device_manager.Daemon.JsonStore.Keeping.{read-prune}
use cross_device_manager.Daemon.JsonStore.Putting.{read-put}
use cross_device_manager.Tests.Codec.{toy_json, toy_json-IsLawful}
use cross_device_manager.Tests.Toy.{stick_entry, empty_disk}

abc_digest :
    sha256_hex (bytes "abc")
    ≡ bytes "ba7816bf8f01cfea414140de5dae2223b00361a396177a9cb410ff61f20015ad"
unfolding sha256_hex
abc_digest = refl

abbrev payload : SnapshotPayload
payload = record {
  entries = stick_entry ∷ [];
  modprobe_files = (bytes "devmgr-a.conf", bytes "blacklist nouveau\n") ∷ [];
}

abbrev fresh_store : JsonStore
fresh_store = record { disk = empty_disk; now = 5 }

abbrev why : SnapshotReason
why = record { verb = bytes "LoadModule"; subject = bytes "nouveau" }

-- A short hash, for the runs: the length of the text, as eight digits.
abbrev toy_hash : Text → Text
toy_hash s = hex_word 8 (length s) []

snapshot_id-toy_hash : (s : Text) → Validation.snapshot_id (toy_hash s) ≡ ok tt
unfolding cross_device_manager.Base.all_bytes
snapshot_id-toy_hash s =
    let (size, good) = hex_word-digits 8 (length s) [] refl in
    (snapshot_id_iff (toy_hash s)).1
      ((λ e. omega (arith, size, ap length e)), omega (arith, size), good)

abbrev stored : JsonStore
stored = (put toy_json toy_hash payload auto why (pos 1000) fresh_store).1

abbrev stored_id : Text
stored_id = toy_hash (canonical_payload toy_json payload)

read-put_example :
    (snap : Snapshot) × ((read toy_json toy_hash stored_id stored).0 ≡ ok snap)
    × (snap.payload ≡ payload)
    × (snap.meta.parent ≡ head_of empty_disk)
    × (snap.meta.trigger ≡ auto)
    × (snap.meta.reason ≡ why)
    × (snap.meta.created_at_utc ≡ pos 1000)
unfolding is_printable cross_device_manager.Daemon.SnapshotFile.document nat_eq text_eq
    cross_device_manager.Json.is_ascii hex_word canonical_payload head_of lookup contains put
    cross_device_manager.Base.option_eq cross_device_manager.Daemon.Disk.write_file
    cross_device_manager.Daemon.AtomicFile.atomic_write_file
    cross_device_manager.Daemon.Disk.next_faults
    cross_device_manager.Daemon.AtomicFile.sync_and_publish
    cross_device_manager.Daemon.AtomicFile.publish cross_device_manager.Daemon.Disk.later_faults
    cross_device_manager.Json.in_int64
read-put_example =
    read-put toy_json toy_json-IsLawful toy_hash snapshot_id-toy_hash payload (pos 1000) auto why
      fresh_store refl (refl, tt) refl refl refl refl (λ e. cc) refl

abbrev in_store : Snapshot
in_store = record {
  meta = record {
    id = stored_id;
    parent = none;
    created_at_utc = pos 1000;
    trigger = auto;
    reason = why;
    health = healthy;
    entry_count = 1;
    modprobe_file_count = 1;
  };
  payload = payload;
}

read_verified_example :
    (toy_hash (canonical_payload toy_json payload) ≡ stored_id)
    × (stored_id ≡ stored_id)
    × (healthy ≡ healthy)
    × ((read toy_json toy_hash stored_id stored).1 ≡ stored)
unfolding read lookup put cross_device_manager.Base.option_eq head_of contains
    cross_device_manager.Daemon.Disk.write_file
    cross_device_manager.Daemon.AtomicFile.atomic_write_file
    cross_device_manager.Daemon.Disk.next_faults
    cross_device_manager.Daemon.AtomicFile.sync_and_publish
    cross_device_manager.Daemon.AtomicFile.publish cross_device_manager.Daemon.Disk.later_faults
    cross_device_manager.Json.in_int64 victims order_newest_first
    cross_device_manager.Daemon.AtomicFile.rename cross_device_manager.Base.Dict.insert text_eq
    cross_device_manager.Daemon.AtomicFile.tmp_name snapshot_file_name hex_word nat_eq
    cross_device_manager.Base.Dict.erase cross_device_manager.Base.is_empty
    cross_device_manager.Base.take_token cross_device_manager.Base.skip_blanks
    cross_device_manager.Base.ends_with cross_device_manager.Base.before_sub
    cross_device_manager.Daemon.SnapshotFile.id_from_file_name
    cross_device_manager.Snapshot.health_eq cross_device_manager.Snapshot.trigger_eq
read_verified_example = read_verified toy_json toy_hash stored_id stored in_store refl

-- A store with a file that is no snapshot.
abbrev damaged : JsonStore
damaged = record stored {
  disk = record stored.disk { files = (bytes "ab.json", bytes "what?") ∷ stored.disk.files };
}

read-prune_example :
    (read toy_json toy_hash stored_id (prune toy_json toy_hash stored)).0 ≡ ok in_store
unfolding head_of lookup put cross_device_manager.Base.option_eq contains
    cross_device_manager.Daemon.Disk.write_file
    cross_device_manager.Daemon.AtomicFile.atomic_write_file
    cross_device_manager.Daemon.Disk.next_faults
    cross_device_manager.Daemon.AtomicFile.sync_and_publish
    cross_device_manager.Daemon.AtomicFile.publish cross_device_manager.Daemon.Disk.later_faults
    cross_device_manager.Json.in_int64 victims order_newest_first
    cross_device_manager.Daemon.AtomicFile.rename cross_device_manager.Base.Dict.insert text_eq
    cross_device_manager.Daemon.AtomicFile.tmp_name snapshot_file_name hex_word nat_eq
    cross_device_manager.Base.Dict.erase cross_device_manager.Base.is_empty
    cross_device_manager.Base.take_token cross_device_manager.Base.skip_blanks
    cross_device_manager.Base.ends_with cross_device_manager.Base.before_sub
    cross_device_manager.Daemon.SnapshotFile.id_from_file_name
    cross_device_manager.Snapshot.health_eq cross_device_manager.Snapshot.trigger_eq
read-prune_example = read-prune toy_json toy_hash stored_id stored in_store refl refl

abbrev meta : Text → Option Text → SnapshotMeta
meta id parent = record in_store.meta { id = id; parent = parent }

-- Two snapshots that name each other, and an old one that nobody names.
abbrev circle : List SnapshotMeta
circle =
    meta (bytes "a") (some (bytes "b"))
    ∷ meta (bytes "0") none
    ∷ meta (bytes "b") (some (bytes "a"))
    ∷ []

chain_of-Walk_example :
    Walk circle []
      (bytes "a")
      (chain_of circle (some (bytes "a"))).0
      (chain_of circle (some (bytes "a"))).1
chain_of-Walk_example = chain_of-Walk circle (bytes "a")
