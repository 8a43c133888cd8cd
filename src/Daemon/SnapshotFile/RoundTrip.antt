-- ===== src/Daemon/SnapshotFile/RoundTrip.antt =====
-- What is read of a document that was written.
use cross_device_manager.Base.{
  ◌≡◌, refl, Bool, true, ◌&&◌, Option, none, some, List, [], ◌∷◌, Text, bytes, arith, text_eq,
  nat_eq, text_lt,
}
use cross_device_manager.Base.Int.{ℤ, pos}
use cross_device_manager.Base.OrderedMap.{assign}
use cross_device_manager.Json.{
  string, Fields, field, no_field, fields_of, insert_field, at, to_text, in_int64, to_int64-same,
}
use cross_device_manager.Snapshot.{
  SnapshotMeta, SnapshotPayload, SnapshotReason, SnapshotTrigger, manual, auto, healthy,
  trigger_to_string, snapshot_trigger_from,
}
use cross_device_manager.Daemon.EntryJson.{entries_to_json, Timely, entries_from_items-items_of}
use cross_device_manager.Daemon.SnapshotFile.{
  file_fields, payload_to_json, elements_of, files_of_fields, files_from_json, payload_from_json,
  string_field, integer_field, best_effort_meta, document,
}

-- The keys of a `std::map` ascend.
abbrev pub below_first : Text → List (Text × Text) → Bool
below_first k [] = true
below_first k ((j, w) ∷ m) = text_lt k j

abbrev pub is_map : List (Text × Text) → Bool
is_map [] = true
is_map ((k, v) ∷ m) = below_first k m && is_map m

plain_fields : List (Text × Text) → Fields
plain_fields [] = no_field
plain_fields ((k, v) ∷ m) = field k (string v) (plain_fields m)

insert_field-first :
    (k v : Text) (m : List (Text × Text))
    → below_first k m ≡ true
    → insert_field k (string v) (plain_fields m) ≡ field k (string v) (plain_fields m)
unfolding insert_field plain_fields
insert_field-first k v [] h = refl
insert_field-first k v ((j, w) ∷ m) h = ground arith

fields_of-file_fields :
    (m : List (Text × Text)) → is_map m ≡ true → fields_of (file_fields m) ≡ plain_fields m
unfolding fields_of file_fields plain_fields
fields_of-file_fields [] h = refl
fields_of-file_fields ((k, v) ∷ m) h =
    rw (fields_of-file_fields m (ground arith)) (insert_field-first k v m (ground arith))

assign-first :
    (k v : Text) (m : List (Text × Text)) → below_first k m ≡ true → assign k v m ≡ (k, v) ∷ m
unfolding assign
assign-first k v [] h = refl
assign-first k v ((j, w) ∷ m) h = ground arith

files_of_fields-plain :
    (m : List (Text × Text)) → is_map m ≡ true → files_of_fields (plain_fields m) ≡ some m
unfolding files_of_fields plain_fields to_text
files_of_fields-plain [] h = refl
files_of_fields-plain ((k, v) ∷ m) h =
    rw (files_of_fields-plain m (ground arith), assign-first k v m (ground arith)) refl

-- A payload written as JSON is read back unchanged.
pub payload_from_json-payload_to_json :
    (payload : SnapshotPayload)
    → Timely payload.entries
    → is_map payload.modprobe_files ≡ true
    → payload_from_json (payload_to_json payload) ≡ some payload
unfolding payload_from_json payload_to_json elements_of entries_to_json files_from_json text_eq
    nat_eq
payload_from_json-payload_to_json payload timely h =
    rw
      (
        entries_from_items-items_of payload.entries timely,
        fields_of-file_fields payload.modprobe_files h,
        files_of_fields-plain payload.modprobe_files h,
      )
      refl

abbrev pub meta_written : Text → Option Text → ℤ → SnapshotTrigger → SnapshotReason → SnapshotMeta
meta_written id parent created_at_utc trigger reason = record {
  id = id;
  parent = parent;
  created_at_utc = created_at_utc;
  trigger = trigger;
  reason = reason;
  health = healthy;
  entry_count = 0;
  modprobe_file_count = 0;
}

-- The meta read of a document is the one that it was made from.
pub best_effort_meta-document :
    (id fallback : Text) (parent : Option Text) (created_at_utc : ℤ) (trigger : SnapshotTrigger)
    (reason : SnapshotReason) (payload : SnapshotPayload)
    → in_int64 created_at_utc ≡ true
    → best_effort_meta (document id parent created_at_utc trigger reason payload) fallback
      ≡ meta_written id parent created_at_utc trigger reason
unfolding document integer_field best_effort_meta string_field at text_eq nat_eq
    snapshot_trigger_from trigger_to_string
best_effort_meta-document id fallback none t manual reason payload h = rw (to_int64-same t h) refl
best_effort_meta-document id fallback none t auto reason payload h = rw (to_int64-same t h) refl
best_effort_meta-document id fallback (some p) t manual reason payload h =
    rw (to_int64-same t h) refl
best_effort_meta-document id fallback (some p) t auto reason payload h = rw (to_int64-same t h) refl

-- So are the version and the payload.
pub document-fields :
    (id : Text) (parent : Option Text) (created_at_utc : ℤ) (trigger : SnapshotTrigger)
    (reason : SnapshotReason) (payload : SnapshotPayload)
    → let doc = document id parent created_at_utc trigger reason payload in
      (integer_field doc (bytes "formatVersion") ≡ some (pos 1))
      × (at (bytes "payload") doc ≡ some (payload_to_json payload))
unfolding document integer_field at text_eq nat_eq
document-fields id parent t trigger reason payload = (refl, refl)
