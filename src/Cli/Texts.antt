-- ===== src/Cli/Texts.antt =====
-- cli/src/cli.cpp: what the tool reads in its arguments, and what it prints.
use cross_device_manager.Base.{
  Bool, true, false, none, some, List, [], ◌∷◌, ◌++◌, Text, bytes, text_eq, ◌==◌, is_empty,
  starts_with, concat, map, if◌then◌else◌,
}
use cross_device_manager.Base.Int.{ℤ}
use cross_device_manager.Snapshot.{
  SnapshotMeta, RestoreItemOutcome, RestoreOutcome, snapshot_short_id, trigger_to_string,
  health_to_string, healthy, health_eq,
}
use cross_device_manager.SnapshotDiff.{SnapshotDiff}
use cross_device_manager.SnapshotHistory.{SnapshotChainRow, build_snapshot_chain}
use cross_device_manager.SnapshotJson.{snapshot_list_to_json, snapshot_diff_to_json}
use cross_device_manager.SnapshotPresentation.{em_dash, diff_lines, chain_markers}
use cross_device_manager.Cli.{Printers}

abbrev pub newline : Text
newline = b'\n' ∷ []

-- One line for each text.
unfoldable pub print_lines : List Text → Text
print_lines [] = []
print_lines (l ∷ ls) = l ++ (b'\n' ∷ print_lines ls)

-- The ids of an ambiguous prefix.
unfoldable pub indented : List Text → Text
indented [] = []
indented (id ∷ ids) = concat (bytes "  " ∷ id ∷ newline ∷ []) ++ indented ids

unfoldable pub usage_text : Text
unfolding print_lines
usage_text = print_lines (
    bytes "usage: devmgr [--bus system|session] snapshot <command>"
    ∷ bytes "  list [--json]              list snapshots (short id, date, trigger, reason)"
    ∷ bytes "  history [--json]           list snapshots as a parent chain (HEAD, last good marked)"
    ∷ bytes "  create [--label <text>]    take a manual snapshot, print its id"
    ∷ bytes
        "  diff <a> [<b>] [--json]    show what changed between <a> and <b> (<b> omitted = live state)"
    ∷ bytes
        "  restore [--preview] <id>   restore a snapshot, or --preview to show the change without restoring"
    ∷ bytes "  delete <id>                delete a snapshot (id may be any unique prefix)"
    ∷ [])

-- What the arguments say, or why they are refused.
pub data Parsed (A : Type 0) : Type 0 where
  parsed : A → Parsed A
  unexpected : Text → Parsed A
  needs_value : Parsed A

-- The loop of `doList` and `doHistory`.
unfoldable pub json_only : Bool → List Text → Parsed Bool
json_only json [] = parsed json
json_only json (a ∷ rest) =
    let more = json_only true rest in if a == bytes "--json" then more else unexpected a

-- The loop of `doCreate`.
unfoldable pub create_label : Text → List Text → Parsed Text
create_label label [] = parsed label
create_label label (a ∷ []) = if a == bytes "--label" then needs_value else unexpected a
create_label label (a ∷ b ∷ rest) =
    let more = create_label b rest in if a == bytes "--label" then more else unexpected a

-- `splitArgs`, where `takeFlag` takes one flag: was it there, and the other arguments.
unfoldable pub split_args : Text → List Text → Parsed (Bool × List Text)
unfolding starts_with
split_args flag [] = parsed (false, [])
split_args flag (a ∷ rest) =
    let more = split_args flag rest in
    if a == flag
    then elim more [
      | parsed (_, ids) ↦ parsed (true, ids)
      | unexpected b ↦ unexpected b
      | needs_value ↦ needs_value
    ]
    else if starts_with a (bytes "--")
    then unexpected a
    else elim more [
      | parsed (f, ids) ↦ parsed (f, a ∷ ids)
      | unexpected b ↦ unexpected b
      | needs_value ↦ needs_value
    ]

unfoldable pub reason_cell : SnapshotMeta → Text
unfolding is_empty
reason_cell m =
    if is_empty m.reason.verb
    then m.reason.subject
    else if is_empty m.reason.subject
    then m.reason.verb
    else concat (m.reason.verb ∷ bytes " " ∷ m.reason.subject ∷ [])

unfoldable pub matches_of : Text → List SnapshotMeta → List Text
unfolding starts_with
matches_of prefix [] = []
matches_of prefix (m ∷ ms) =
    let rest = matches_of prefix ms in if starts_with m.id prefix then m.id ∷ rest else rest

unfoldable pub outcome_lines : List RestoreItemOutcome → Text
unfolding is_empty
outcome_lines [] = []
outcome_lines (i ∷ is) =
    concat (
      bytes "  "
      ∷ i.status
      ∷ bytes "  "
      ∷ i.action
      ∷ bytes "  "
      ∷ i.subject
      ∷ (if is_empty i.detail then [] else concat (bytes " " ∷ em_dash ∷ bytes " " ∷ i.detail ∷ []))
      ∷ newline
      ∷ [])
    ++ outcome_lines is

unfoldable pub outcome_text : RestoreOutcome → Text
unfolding outcome_lines snapshot_short_id
outcome_text o =
    concat (
      bytes "restored "
      ∷ snapshot_short_id o.snapshot_id
      ∷ bytes " (safety snapshot "
      ∷ snapshot_short_id o.safety_snapshot_id
      ∷ bytes ")\n"
      ∷ [])
    ++ elim o.items [
      | [] ↦ bytes "  (state already matched; no changes needed)\n"
      | i ∷ is ↦ outcome_lines (i ∷ is)
    ]

module _ (P : Printers) where
  unfoldable pub local_date_time : ℤ → Text
  local_date_time seconds = elim (P.local_time seconds) [ none ↦ bytes "?" | some s ↦ s ]

  unfoldable pub list_row : SnapshotMeta → Text
  unfolding local_date_time reason_cell snapshot_short_id trigger_to_string health_to_string
  list_row m = concat (
      snapshot_short_id m.id
      ∷ bytes "  "
      ∷ local_date_time m.created_at_utc
      ∷ bytes "  "
      ∷ trigger_to_string m.trigger
      ∷ bytes "  "
      ∷ reason_cell m
      ∷ (if m.health == healthy
          then []
          else concat (bytes "  (" ∷ health_to_string m.health ∷ bytes ")" ∷ []))
      ∷ [])

  -- What `doList` prints, and what `doHistory` does.
  unfoldable pub list_text : Bool → List SnapshotMeta → Text
  unfolding list_row snapshot_list_to_json print_lines
  list_text true metas = snapshot_list_to_json P.json [] metas ++ newline
  list_text false [] = bytes "(no snapshots)\n"
  list_text false (m ∷ ms) = print_lines (map list_row (m ∷ ms))

  unfoldable pub history_row : SnapshotChainRow → Text
  unfolding list_row chain_markers
  history_row row = list_row row.meta ++ chain_markers row

  unfoldable pub history_text : Bool → List SnapshotMeta → Text
  unfolding history_row snapshot_list_to_json print_lines build_snapshot_chain
  history_text true metas = snapshot_list_to_json P.json [] metas ++ newline
  history_text false [] = bytes "(no snapshots)\n"
  history_text false (m ∷ ms) = print_lines (map history_row (build_snapshot_chain (m ∷ ms)))

  unfoldable pub diff_text : Bool → SnapshotDiff → Text
  unfolding diff_lines snapshot_diff_to_json print_lines
  diff_text true d = snapshot_diff_to_json P.json [] d ++ newline
  diff_text false d = print_lines (diff_lines d)
