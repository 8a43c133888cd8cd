-- ===== src/SnapshotJson/Wire.antt =====
-- What crosses the bus arrives.
use cross_device_manager.Base.{
  ℕ, ◌<◌, ◌^◌, ◌≡◌, refl, true, Option, none, some, List, [], ◌∷◌, Text, text_eq, nat_eq, bool_eq,
  arith, All, eq_refl,
}
use cross_device_manager.Base.Result.{ok}
use cross_device_manager.Json.{
  null, string, array, Library, IsLawful, is_printable, in_int64, to_int64-same, to_int, to_number,
  to_text,
}
use cross_device_manager.Base.Int.{pos}
use cross_device_manager.Snapshot.{
  SnapshotMeta, SnapshotHealth, healthy, corrupt, unsupported, SnapshotTrigger, manual, auto,
  health_eq, trigger_to_string, snapshot_trigger_from, health_to_string, RestoreItemOutcome,
  RestoreOutcome,
}
use cross_device_manager.SnapshotDiff.{SnapshotDiff, SnapshotDiffEntry}
use cross_device_manager.SnapshotJson.{
  to_size, meta_to_json, meta_from_json, metas_to_items, metas_from_items, row_to_json,
  row_from_json, rows_to_items, rows_from_items, diff_to_json, diff_from_json, differences,
  differences_marker, health_from, outcome_item_to_json, outcome_item_from_json,
  outcome_items_to_items, outcome_items_from_items, outcome_to_json, outcome_from_json,
  snapshot_list_to_json, snapshot_list_from_json, restore_outcome_to_json,
  restore_outcome_from_json, snapshot_diff_to_json, snapshot_diff_from_json, check_marker,
}

rows_from_items-rows_to_items :
    (es : List SnapshotDiffEntry) → rows_from_items (rows_to_items es) ≡ some es
unfolding rows_from_items rows_to_items row_from_json row_to_json text_eq nat_eq
rows_from_items-rows_to_items [] = refl
rows_from_items-rows_to_items (e ∷ es) = rw (rows_from_items-rows_to_items es) refl

outcome_items_from_items-outcome_items_to_items :
    (is : List RestoreItemOutcome) → outcome_items_from_items (outcome_items_to_items is) ≡ some is
unfolding outcome_items_from_items outcome_items_to_items outcome_item_from_json
    outcome_item_to_json text_eq nat_eq
outcome_items_from_items-outcome_items_to_items [] = refl
outcome_items_from_items-outcome_items_to_items (i ∷ is) =
    rw (outcome_items_from_items-outcome_items_to_items is) refl

-- The time and the counts are machine words.
abbrev pub Counted : SnapshotMeta → Type 0
Counted m =
    (in_int64 m.created_at_utc ≡ true) × (m.entry_count < 2 ^ 64) × (m.modprobe_file_count < 2 ^ 64)

health_from-health_to_string : (h : SnapshotHealth) → health_from (health_to_string h) ≡ h
unfolding health_to_string text_eq nat_eq
health_from-health_to_string healthy = refl
health_from-health_to_string corrupt = refl
health_from-health_to_string unsupported = refl

trigger_of_string : (t : SnapshotTrigger) → snapshot_trigger_from (trigger_to_string t) ≡ some t
unfolding trigger_to_string snapshot_trigger_from text_eq nat_eq
trigger_of_string manual = refl
trigger_of_string auto = refl

to_size_small : (n : ℕ) → n < 2 ^ 64 → to_size (pos n) ≡ n
unfolding to_size
to_size_small n h = omega arith

parent_back : (p : Option Text) → to_text (elim p [ none ↦ null | some q ↦ string q ]) ≡ p
unfolding to_text
parent_back none = refl
parent_back (some p) = refl

meta_from_json-meta_to_json :
    (m : SnapshotMeta) → Counted m → meta_from_json (meta_to_json m) ≡ some m
unfolding meta_from_json meta_to_json text_eq nat_eq to_int to_number
meta_from_json-meta_to_json m (h₀, h₁, h₂) =
    rw
      (
        to_int64-same m.created_at_utc h₀,
        parent_back m.parent,
        trigger_of_string m.trigger,
        health_from-health_to_string m.health,
        to_size_small m.entry_count h₁,
        to_size_small m.modprobe_file_count h₂,
      )
      refl

metas_from_items-metas_to_items :
    (ms : List SnapshotMeta) → All Counted ms → metas_from_items (metas_to_items ms) ≡ some ms
unfolding metas_from_items metas_to_items
metas_from_items-metas_to_items [] h = refl
metas_from_items-metas_to_items (m ∷ ms) h =
    rw (meta_from_json-meta_to_json m h.0, metas_from_items-metas_to_items ms h.1) refl

diff_from_json-diff_to_json : (d : SnapshotDiff) → diff_from_json (diff_to_json d) ≡ some d
unfolding diff_from_json diff_to_json text_eq nat_eq
diff_from_json-diff_to_json d = rw (rows_from_items-rows_to_items d.entries) refl

outcome_from_json-outcome_to_json :
    (o : RestoreOutcome) → outcome_from_json (outcome_to_json o) ≡ some o
unfolding outcome_from_json outcome_to_json text_eq nat_eq
outcome_from_json-outcome_to_json o =
    rw (outcome_items_from_items-outcome_items_to_items o.items) refl

module _ (L : Library) (law : IsLawful L) (what : Text) where
  -- A list of snapshots that is sent is received as it was, its times and counts being machine words.
  pub snapshot_list_from_json-snapshot_list_to_json :
      (metas : List SnapshotMeta)
      → All Counted metas
      → is_printable L.utf8 (array (metas_to_items metas)) ≡ true
      → snapshot_list_from_json L what (snapshot_list_to_json L what metas) ≡ ok metas
  unfolding snapshot_list_from_json snapshot_list_to_json
  snapshot_list_from_json-snapshot_list_to_json metas counted h =
      rw (law.parse-dump (array (metas_to_items metas)) h, snapshot_list_from_json)
        (rw (metas_from_items-metas_to_items metas counted) refl)

  -- The outcome of a restore that is sent is received as it was.
  pub restore_outcome_from_json-restore_outcome_to_json :
      (o : RestoreOutcome)
      → is_printable L.utf8 (outcome_to_json o) ≡ true
      → restore_outcome_from_json L what (restore_outcome_to_json L what o) ≡ ok o
  unfolding restore_outcome_from_json restore_outcome_to_json
  restore_outcome_from_json-restore_outcome_to_json o h =
      rw (law.parse-dump (outcome_to_json o) h, restore_outcome_from_json)
        (rw (outcome_from_json-outcome_to_json o) refl)

  marker_back : (d : SnapshotDiff) → check_marker L what (diff_to_json d) d ≡ some (ok d)
  unfolding check_marker differences_marker diff_to_json text_eq nat_eq bool_eq
  marker_back d = rw (eq_refl (differences d.entries)) refl

  -- A comparison that is sent is received as it was, without an exception, if the library prints it.
  pub snapshot_diff_from_json-snapshot_diff_to_json :
      (d : SnapshotDiff)
      → is_printable L.utf8 (diff_to_json d) ≡ true
      → snapshot_diff_from_json L what (snapshot_diff_to_json L what d) ≡ some (ok d)
  unfolding snapshot_diff_from_json snapshot_diff_to_json
  snapshot_diff_from_json-snapshot_diff_to_json d h =
      rw (law.parse-dump (diff_to_json d) h, snapshot_diff_from_json)
        (rw (diff_from_json-diff_to_json d) (marker_back d))
