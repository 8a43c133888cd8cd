-- ===== src/SnapshotJson.antt =====
-- core/src/snapshot_json.cpp: the documents that cross the bus.
pub mod Wire
use cross_device_manager.Base.{
  ℕ, ◌-◌, ◌%◌, ◌^◌, Bool, true, false, not, Option, none, some, List, [], ◌∷◌, ◌++◌, Text, bytes,
  text_eq, bool_eq, ◌==◌, length, if◌then◌else◌,
}
use cross_device_manager.Base.Maybe.{◌>>=◌}
use cross_device_manager.Base.Int.{ℤ, pos, negsuc}
use cross_device_manager.Base.Result.{Result, ok, err, make_error, io}
use cross_device_manager.Json.{
  Json, null, boolean, integer, string, array, object, Items, item, no_item, fields_of, at, to_text,
  to_int, to_number, to_bool, Library,
}
use cross_device_manager.Snapshot.{
  SnapshotMeta, SnapshotReason, SnapshotHealth, healthy, corrupt, unsupported, health_eq, auto,
  trigger_to_string, snapshot_trigger_from, health_to_string, RestoreItemOutcome, RestoreOutcome,
}
use cross_device_manager.SnapshotDiff.{SnapshotDiff, SnapshotDiffEntry}
use cross_device_manager.Daemon.SnapshotFile.{elements_of}

-- The conversion of an integer to `std::size_t`.
unfoldable pub to_size : ℤ → ℕ
to_size (pos n) = n % 2 ^ 64
to_size (negsuc n) = 2 ^ 64 - 1 - n % 2 ^ 64

unfoldable pub meta_to_json : SnapshotMeta → Json
unfolding fields_of trigger_to_string health_to_string health_eq
meta_to_json m = object (
    fields_of (
      (bytes "id", string m.id)
      ∷ (bytes "parent", elim m.parent [ none ↦ null | some p ↦ string p ])
      ∷ (bytes "createdAtUtc", integer m.created_at_utc)
      ∷ (bytes "trigger", string (trigger_to_string m.trigger))
      ∷ (
        bytes "reason",
        object (
            fields_of (
              (bytes "verb", string m.reason.verb)
              ∷ (bytes "subject", string m.reason.subject)
              ∷ [])),
      )
      ∷ (bytes "corrupt", boolean (not (m.health == healthy)))
      ∷ (bytes "health", string (health_to_string m.health))
      ∷ (bytes "entryCount", integer (pos m.entry_count))
      ∷ (bytes "modprobeFileCount", integer (pos m.modprobe_file_count))
      ∷ []))

abbrev pub health_from : Text → SnapshotHealth
health_from text =
    if text == bytes "corrupt"
    then corrupt
    else if text == bytes "unsupported"
    then unsupported
    else healthy

unfoldable pub meta_from_json : Json → Option SnapshotMeta
unfolding at to_text to_int to_number to_size snapshot_trigger_from
meta_from_json j = do
  id ← at (bytes "id") j >>= to_text
  parent ← at (bytes "parent") j
  created_at_utc ← at (bytes "createdAtUtc") j >>= to_int
  trigger ← at (bytes "trigger") j >>= to_text
  verb ← at (bytes "reason") j >>= at (bytes "verb") >>= to_text
  subject ← at (bytes "reason") j >>= at (bytes "subject") >>= to_text
  health ← at (bytes "health") j >>= to_text
  entry_count ← at (bytes "entryCount") j >>= to_number
  modprobe_file_count ← at (bytes "modprobeFileCount") j >>= to_number
  some (record {
    id = id;
    parent = to_text parent;
    created_at_utc = created_at_utc;
    trigger = elim (snapshot_trigger_from trigger) [ none ↦ auto | some t ↦ t ];
    reason = record { verb = verb; subject = subject };
    health = health_from health;
    entry_count = to_size entry_count;
    modprobe_file_count = to_size modprobe_file_count;
  })

unfoldable pub metas_to_items : List SnapshotMeta → Items
unfolding meta_to_json
metas_to_items [] = no_item
metas_to_items (m ∷ ms) = item (meta_to_json m) (metas_to_items ms)

unfoldable pub metas_from_items : Items → Option (List SnapshotMeta)
unfolding meta_from_json
metas_from_items no_item = some []
metas_from_items (item j js) = do m ← meta_from_json j; ms ← metas_from_items js; some (m ∷ ms)

unfoldable pub row_to_json : SnapshotDiffEntry → Json
unfolding fields_of
row_to_json e = object (
    fields_of (
      (bytes "kind", string e.kind)
      ∷ (bytes "key", string e.key)
      ∷ (bytes "before", string e.before)
      ∷ (bytes "after", string e.after)
      ∷ []))

unfoldable pub row_from_json : Json → Option SnapshotDiffEntry
unfolding at to_text
row_from_json j = do
  kind ← at (bytes "kind") j >>= to_text
  key ← at (bytes "key") j >>= to_text
  before ← at (bytes "before") j >>= to_text
  after ← at (bytes "after") j >>= to_text
  some (record { kind = kind; key = key; before = before; after = after })

unfoldable pub rows_to_items : List SnapshotDiffEntry → Items
unfolding row_to_json
rows_to_items [] = no_item
rows_to_items (e ∷ es) = item (row_to_json e) (rows_to_items es)

unfoldable pub rows_from_items : Items → Option (List SnapshotDiffEntry)
unfolding row_from_json
rows_from_items no_item = some []
rows_from_items (item j js) = do e ← row_from_json j; es ← rows_from_items js; some (e ∷ es)

-- `identical()` and its negation on rows.
abbrev pub differences : List SnapshotDiffEntry → Bool
differences [] = false
differences (e ∷ es) = true

unfoldable pub diff_to_json : SnapshotDiff → Json
unfolding fields_of rows_to_items
diff_to_json d = object (
    fields_of (
      (bytes "baseId", string d.base_id)
      ∷ (bytes "targetId", string d.target_id)
      ∷ (bytes "differences", boolean (differences d.entries))
      ∷ (bytes "entries", array (rows_to_items d.entries))
      ∷ []))

unfoldable pub diff_from_json : Json → Option SnapshotDiff
unfolding at to_text elements_of rows_from_items
diff_from_json j = do
  base_id ← at (bytes "baseId") j >>= to_text
  target_id ← at (bytes "targetId") j >>= to_text
  listed ← at (bytes "entries") j
  entries ← rows_from_items (elements_of listed)
  some (record { base_id = base_id; target_id = target_id; entries = entries })

unfoldable pub outcome_item_to_json : RestoreItemOutcome → Json
unfolding fields_of
outcome_item_to_json i = object (
    fields_of (
      (bytes "subject", string i.subject)
      ∷ (bytes "action", string i.action)
      ∷ (bytes "status", string i.status)
      ∷ (bytes "detail", string i.detail)
      ∷ []))

unfoldable pub outcome_item_from_json : Json → Option RestoreItemOutcome
unfolding at to_text
outcome_item_from_json j = do
  subject ← at (bytes "subject") j >>= to_text
  action ← at (bytes "action") j >>= to_text
  status ← at (bytes "status") j >>= to_text
  detail ← at (bytes "detail") j >>= to_text
  some (record { subject = subject; action = action; status = status; detail = detail })

unfoldable pub outcome_items_to_items : List RestoreItemOutcome → Items
unfolding outcome_item_to_json
outcome_items_to_items [] = no_item
outcome_items_to_items (i ∷ is) = item (outcome_item_to_json i) (outcome_items_to_items is)

unfoldable pub outcome_items_from_items : Items → Option (List RestoreItemOutcome)
unfolding outcome_item_from_json
outcome_items_from_items no_item = some []
outcome_items_from_items (item j js) = do
  i ← outcome_item_from_json j
  is ← outcome_items_from_items js
  some (i ∷ is)

unfoldable pub outcome_to_json : RestoreOutcome → Json
unfolding fields_of outcome_items_to_items
outcome_to_json o = object (
    fields_of (
      (bytes "snapshotId", string o.snapshot_id)
      ∷ (bytes "safetySnapshotId", string o.safety_snapshot_id)
      ∷ (bytes "items", array (outcome_items_to_items o.items))
      ∷ []))

unfoldable pub outcome_from_json : Json → Option RestoreOutcome
unfolding at to_text elements_of outcome_items_from_items
outcome_from_json j = do
  snapshot_id ← at (bytes "snapshotId") j >>= to_text
  safety_snapshot_id ← at (bytes "safetySnapshotId") j >>= to_text
  listed ← at (bytes "items") j
  items ← outcome_items_from_items (elements_of listed)
  some
      (record { snapshot_id = snapshot_id; safety_snapshot_id = safety_snapshot_id; items = items })

-- `what` is the text of the exception, which is the library's.
module _ (L : Library) (what : Text) where
  abbrev malformed {ℓ} : {A : Type ℓ} → Text → Result A
  malformed document = make_error io (bytes "malformed " ++ (document ++ bytes " JSON"))

  abbrev badly_formed {ℓ} : {A : Type ℓ} → Text → Result A
  badly_formed document =
      make_error io (bytes "malformed " ++ (document ++ (bytes " JSON: " ++ what)))

  abbrev read_or {ℓ} : {A : Type ℓ} → Text → Option A → Result A
  read_or document none = badly_formed document
  read_or document (some a) = ok a

  unfoldable pub snapshot_list_to_json : List SnapshotMeta → Text
  unfolding metas_to_items
  snapshot_list_to_json metas = L.dump (array (metas_to_items metas))

  unfoldable pub snapshot_list_from_json : Text → Result (List SnapshotMeta)
  unfolding metas_from_items
  snapshot_list_from_json text = elim (L.parse text) [
    | some (array js) ↦ read_or (bytes "snapshot list") (metas_from_items js)
    | _ ↦ malformed (bytes "snapshot list")
  ]

  unfoldable pub restore_outcome_to_json : RestoreOutcome → Text
  unfolding outcome_to_json
  restore_outcome_to_json o = L.dump (outcome_to_json o)

  unfoldable pub restore_outcome_from_json : Text → Result RestoreOutcome
  unfolding outcome_from_json
  restore_outcome_from_json text = elim (L.parse text) [
    | some (object fs) ↦ read_or (bytes "restore outcome") (outcome_from_json (object fs))
    | _ ↦ malformed (bytes "restore outcome")
  ]

  unfoldable pub snapshot_diff_to_json : SnapshotDiff → Text
  unfolding diff_to_json
  snapshot_diff_to_json d = L.dump (diff_to_json d)

  -- `doc.value("differences", ...)`: the default without the field, an exception if it is no Boolean.
  unfoldable pub differences_marker : Json → Bool → Option Bool
  unfolding at to_bool
  differences_marker doc default = elim (at (bytes "differences") doc) [
    | none ↦ some default
    | some j ↦ to_bool j
  ]

  -- After the rows. `none` is an exception that leaves the function, since the check of the marker
  -- stands outside the `try`.
  unfoldable pub check_marker : Json → SnapshotDiff → Option (Result SnapshotDiff)
  unfolding differences_marker
  check_marker doc d = elim (differences_marker doc (differences d.entries)) [
    | none ↦ none
    | some marker ↦
        if marker == differences d.entries
        then some (ok d)
        else some (make_error io (bytes "snapshot diff JSON contradicts its differences marker"))
  ]

  unfoldable pub snapshot_diff_from_json : Text → Option (Result SnapshotDiff)
  unfolding diff_from_json check_marker
  snapshot_diff_from_json text = elim (L.parse text) [
    | some (object fs) ↦ elim (diff_from_json (object fs)) [
      | none ↦ some (badly_formed (bytes "snapshot diff"))
      | some d ↦ check_marker (object fs) d
    ]
    | _ ↦ some (malformed (bytes "snapshot diff"))
  ]
