-- ===== src/SnapshotPresentation.antt =====
-- core/src/snapshot_presentation.cpp: the wording of differences and of a restore.
pub mod Wording
use cross_device_manager.Base.{
  ℕ, zero, suc, ◌+◌, ◌-◌, Bool, true, false, Option, none, some, List, [], ◌∷◌, ◌++◌, Text, bytes,
  text_eq, nat_eq, ◌==◌, is_empty, length, map, take, if◌then◌else◌,
}
use cross_device_manager.Base.Int.{decimal}
use cross_device_manager.Snapshot.{RestoreItemOutcome, RestoreOutcome, snapshot_short_id}
use cross_device_manager.SnapshotDiff.{SnapshotDiffEntry, SnapshotDiff}
use cross_device_manager.SnapshotHistory.{SnapshotChainRow}

-- What `%s` prints of a text: up to a NUL byte.
unfoldable pub c_str : Text → Text
c_str [] = []
c_str (c ∷ s) = let rest = c_str s in if c == 0 then [] else c ∷ rest

unfoldable pub blanks : ℕ → Text
blanks zero = []
blanks (suc n) = b' ' ∷ blanks n

-- `%-*s`
unfoldable pub pad_right : ℕ → Text → Text
unfolding blanks
pad_right width s = s ++ blanks (width - length s)

abbrev pub kind_column_width : ℕ
kind_column_width = 9

abbrev pub line_buffer_size : ℕ
line_buffer_size = 256

-- `snprintf` keeps the last byte of the buffer for the NUL.
unfoldable pub diff_entry_line : SnapshotDiffEntry → Text
unfolding c_str pad_right
diff_entry_line e = take (line_buffer_size - 1) (
    pad_right kind_column_width (c_str e.kind)
    ++ (c_str e.key ++ (bytes ": " ++ (c_str e.before ++ (bytes " -> " ++ c_str e.after)))))

unfoldable pub diff_lines : SnapshotDiff → List Text
unfolding diff_entry_line
diff_lines d = elim d.entries [
  | [] ↦ bytes "No differences." ∷ []
  | e ∷ es ↦ map diff_entry_line (e ∷ es)
]

-- `marks`, in the order in which they are pushed.
unfoldable pub marks_of : SnapshotChainRow → List Text
marks_of row =
    (if row.chain_start then bytes "chain start" ∷ [] else [])
    ++ ((if row.head then bytes "HEAD" ∷ [] else [])
        ++ (if row.last_good then bytes "last good" ∷ [] else []))

-- The texts with commas between them.
unfoldable pub join_marks : List Text → Text
join_marks [] = []
join_marks (m ∷ []) = m
join_marks (m ∷ n ∷ rest) = m ++ (bytes ", " ++ join_marks (n ∷ rest))

unfoldable pub chain_markers : SnapshotChainRow → Text
unfolding marks_of join_marks
chain_markers row = elim (marks_of row) [
  | [] ↦ []
  | m ∷ ms ↦ bytes "  [" ++ (join_marks (m ∷ ms) ++ bytes "]")
]

-- The bytes of U+2014.
abbrev pub em_dash : Text
em_dash = 226 ∷ 128 ∷ 148 ∷ []

unfoldable pub restore_preview_change_lines : Option SnapshotDiff → List Text
unfolding diff_lines
restore_preview_change_lines none =
    (bytes "What will change is unavailable "
      ++ (em_dash ++ bytes " the diff could not be computed."))
    ∷ []
restore_preview_change_lines (some d) = elim d.entries [
  | [] ↦ bytes "This snapshot already matches the current state; nothing would change." ∷ []
  | e ∷ es ↦
      bytes "Differences (snapshot -> current state):"
      ∷ (map (λ line. bytes "  " ++ line) (diff_lines d)
          ++ (bytes "Restoring re-applies the snapshot side of every row above." ∷ []))
]

abbrev pub restore_preview_convergence_note : Text
restore_preview_convergence_note =
    bytes
      "Convergence may be partial: the critical-device guard can refuse individual items. The restore still completes and reports every item."

abbrev pub status_ok : Text
status_ok = bytes "ok"

abbrev pub status_guard_refused : Text
status_guard_refused = bytes "guard-refused"

abbrev pub status_failed : Text
status_failed = bytes "failed"

abbrev pub status_device_absent : Text
status_device_absent = bytes "device-absent"

-- How many items have a status. The four statuses differ, so the `else if`s count each item alike.
unfoldable pub count_status : Text → List RestoreItemOutcome → ℕ
count_status s [] = 0
count_status s (i ∷ is) = let rest = count_status s is in if i.status == s then suc rest else rest

-- `", " + std::to_string(n) + label`, unless `n` is 0.
unfoldable pub count_part : ℕ → Text → Text
count_part zero label = []
count_part (suc n) label = bytes ", " ++ (decimal (suc n) ++ label)

unfoldable pub restore_summary : RestoreOutcome → Text
unfolding snapshot_short_id count_status count_part decimal
restore_summary o =
    bytes "Restored "
    ++ (snapshot_short_id o.snapshot_id
        ++ (bytes ": "
            ++ (elim o.items [
              | [] ↦ bytes "no changes needed"
              | _ ∷ _ ↦
                  decimal (count_status status_ok o.items)
                  ++ (bytes " ok"
                      ++ (count_part (count_status status_guard_refused o.items)
                            (bytes " guard-refused")
                          ++ (count_part (count_status status_failed o.items) (bytes " failed")
                              ++ count_part (count_status status_device_absent o.items)
                                  (bytes " device-absent"))))
            ]
                ++ (bytes "; safety snapshot " ++ snapshot_short_id o.safety_snapshot_id))))

unfoldable pub restore_recovery_command : RestoreOutcome → Text
unfolding snapshot_short_id
restore_recovery_command o =
    bytes "devmgr snapshot restore " ++ snapshot_short_id o.safety_snapshot_id

unfoldable pub guidance_line : RestoreItemOutcome → Text
unfolding is_empty
guidance_line i =
    bytes "  "
    ++ (i.status
        ++ (bytes "  "
            ++ (i.subject
                ++ (bytes " ("
                    ++ (i.action
                        ++ (bytes ")"
                            ++ (if is_empty i.detail then [] else bytes ": " ++ i.detail)))))))

-- The loop that collects the items that did not converge.
unfoldable pub unconverged : List RestoreItemOutcome → List Text
unfolding guidance_line
unconverged [] = []
unconverged (i ∷ is) =
    let rest = unconverged is in if i.status == status_ok then rest else guidance_line i ∷ rest

-- The last two lines.
unfoldable pub back_lines : RestoreOutcome → List Text
unfolding restore_recovery_command snapshot_short_id
back_lines o =
    (bytes "The state from before this restore is kept as safety snapshot "
      ++ (snapshot_short_id o.safety_snapshot_id ++ bytes "."))
    ∷ (bytes "To go back, run: " ++ restore_recovery_command o)
    ∷ []

-- The heading, the lines of the items and the way back, unless there are no such items.
unfoldable pub guidance_from : RestoreOutcome → List Text → List Text
unfolding snapshot_short_id decimal back_lines
guidance_from o [] = []
guidance_from o (l ∷ ls) =
    (bytes "Restore of "
      ++ (snapshot_short_id o.snapshot_id
          ++ (bytes " left "
              ++ (decimal (length (l ∷ ls))
                  ++ (if length (l ∷ ls) == 1
                      then bytes " item unconverged:"
                      else bytes " items unconverged:")))))
    ∷ ((l ∷ ls) ++ back_lines o)

unfoldable pub restore_guidance_lines : RestoreOutcome → List Text
unfolding unconverged guidance_from
restore_guidance_lines o = guidance_from o (unconverged o.items)
