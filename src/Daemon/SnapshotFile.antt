-- ===== src/Daemon/SnapshotFile.antt =====
-- daemon/src/snapshot_store.cpp: the document of a snapshot and the names of the files.
pub mod RoundTrip
use cross_device_manager.Base.{
  Bool, true, false, ◌||◌, Option, none, some, List, [], ◌∷◌, ◌++◌, Text, bytes, text_eq, ltb,
  length, map, before_sub, if◌then◌else◌,
}
use cross_device_manager.Base.Maybe.{◌>>=◌}
use cross_device_manager.Base.Int.{ℤ, pos}
use cross_device_manager.Base.OrderedMap.{assign}
use cross_device_manager.Json.{
  Json, null, string, integer, array, object, Items, item, no_item, Fields, field, no_field,
  fields_of, at, to_text, to_int64, Library,
}
use cross_device_manager.Models.{DisabledDeviceEntry}
use cross_device_manager.Snapshot.{
  Snapshot, SnapshotMeta, SnapshotPayload, SnapshotReason, SnapshotTrigger, auto, healthy,
  trigger_to_string, snapshot_trigger_from,
}
use cross_device_manager.Validation.{json_max_bytes}
use cross_device_manager.Daemon.EntryJson.{entries_to_json, entries_from_items}

abbrev pub snapshot_format_version : ℤ
snapshot_format_version = pos 1

-- A `std::map` of texts as an object.
unfoldable pub file_fields : List (Text × Text) → List (Text × Json)
file_fields [] = []
file_fields ((name, content) ∷ files) = (name, string content) ∷ file_fields files

unfoldable pub payload_to_json : SnapshotPayload → Json
unfolding file_fields fields_of entries_to_json
payload_to_json payload = object (
    fields_of (
      (bytes "entries", entries_to_json payload.entries)
      ∷ (bytes "modprobe_files", object (fields_of (file_fields payload.modprobe_files)))
      ∷ []))

unfoldable pub values_of : Fields → Items
values_of no_field = no_item
values_of (field k v fs) = item v (values_of fs)

-- What a `for` loop over a value visits: nothing for null, and a number or text itself.
unfoldable pub elements_of : Json → Items
unfolding values_of
elements_of null = no_item
elements_of (array js) = js
elements_of (object fs) = values_of fs
elements_of j = item j no_item

-- `get<std::map<std::string, std::string>>()`
unfoldable pub files_of_fields : Fields → Option (List (Text × Text))
unfolding to_text assign
files_of_fields no_field = some []
files_of_fields (field k v fs) =
    to_text v >>= λ content. files_of_fields fs >>= λ files. some (assign k content files)

unfoldable pub files_from_json : Json → Option (List (Text × Text))
unfolding files_of_fields
files_from_json (object fs) = files_of_fields fs
files_from_json _ = none

unfoldable pub payload_from_json : Json → Option SnapshotPayload
unfolding at elements_of entries_from_items files_from_json
payload_from_json j = do
  listed ← at (bytes "entries") j
  entries ← entries_from_items (elements_of listed)
  files ← at (bytes "modprobe_files") j >>= files_from_json
  some (record { entries = entries; modprobe_files = files })

unfoldable pub snapshot_file_name : Text → Text
snapshot_file_name id = id ++ bytes ".json"

unfoldable pub id_from_file_name : Text → Text
unfolding before_sub
id_from_file_name name = elim (before_sub (bytes ".json") name) [ none ↦ name | some id ↦ id ]

-- A field that is a text.
unfoldable pub string_field : Json → Text → Option Text
unfolding at to_text
string_field doc key = at key doc >>= to_text

abbrev pub or_else {ℓ} : {A : Type ℓ} → Option A → A → A
or_else none d = d
or_else (some a) d = a

-- The number of an integer field, and no other.
unfoldable pub integer_field : Json → Text → Option ℤ
unfolding at
integer_field doc key = elim (at key doc) [ some (integer n) ↦ some n | _ ↦ none ]

-- The fields that parse, and the defaults of `SnapshotMeta` for the others.
unfoldable pub best_effort_meta : Json → Text → SnapshotMeta
unfolding string_field integer_field snapshot_trigger_from at to_int64
best_effort_meta doc fallback_id =
    let reason = or_else (at (bytes "reason") doc) null in
    record {
      id = or_else (string_field doc (bytes "id")) fallback_id;
      parent = string_field doc (bytes "parent");
      created_at_utc = elim (integer_field doc (bytes "createdAtUtc")) [
        | none ↦ pos 0
        | some n ↦ to_int64 n
      ];
      trigger =
          or_else (snapshot_trigger_from (or_else (string_field doc (bytes "trigger")) [])) auto;
      reason = record {
        verb = or_else (string_field reason (bytes "verb")) [];
        subject = or_else (string_field reason (bytes "subject")) [];
      };
      health = healthy;
      entry_count = 0;
      modprobe_file_count = 0;
    }

-- The document that `put` writes.
unfoldable pub document :
    Text → Option Text → ℤ → SnapshotTrigger → SnapshotReason → SnapshotPayload → Json
unfolding fields_of payload_to_json trigger_to_string
document id parent created_at_utc trigger reason payload = object (
    fields_of (
      (bytes "formatVersion", integer snapshot_format_version)
      ∷ (bytes "id", string id)
      ∷ (bytes "parent", elim parent [ none ↦ null | some p ↦ string p ])
      ∷ (bytes "createdAtUtc", integer created_at_utc)
      ∷ (bytes "trigger", string (trigger_to_string trigger))
      ∷ (
        bytes "reason",
        object (
            fields_of
              ((bytes "verb", string reason.verb) ∷ (bytes "subject", string reason.subject) ∷ [])),
      )
      ∷ (bytes "payload", payload_to_json payload)
      ∷ []))

module _ (L : Library) where
  unfoldable pub canonical_payload : SnapshotPayload → Text
  unfolding payload_to_json
  canonical_payload payload = L.dump (payload_to_json payload)

  -- `parseFile` of a file's content; too long a text reads as invalid.
  unfoldable pub parse_file : Text → Option Json
  parse_file content = if ltb json_max_bytes (length content) then none else L.parse content
