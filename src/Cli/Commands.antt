-- ===== src/Cli/Commands.antt =====
-- cli/src/cli.cpp: the verbs, and `run`.
use cross_device_manager.Base.{
  ℕ, Bool, true, false, some, List, [], ◌∷◌, ◌++◌, Text, bytes, text_eq, ◌==◌, is_empty, concat,
  if◌then◌else◌,
}
use cross_device_manager.Base.Result.{Result, ok, err, Error}
use cross_device_manager.Snapshot.{snapshot_short_id}
use cross_device_manager.SnapshotPresentation.{
  restore_preview_change_lines, restore_preview_convergence_note,
}
use cross_device_manager.Cli.{Channel, Printers, Console, Step, next, exit, Command, ◌>>=◌, pure}
use cross_device_manager.Cli.Errors.{ok_code, usage_code, not_found_code, exit_code_for}
use cross_device_manager.Cli.Texts.{
  print_lines, usage_text, Parsed, parsed, unexpected, needs_value, json_only, create_label,
  split_args, indented, matches_of, outcome_text, list_text, history_text, diff_text,
}

module _ {W : Type 0} where
  -- `out << text; return kOk;`
  abbrev pub prints : Text → Command W ℕ
  prints text c = (next ok_code, record c { out = c.out ++ text })

  -- `err << text; return code;`
  abbrev pub fails : {A : Type 0} → ℕ → Text → Command W A
  fails code text c = (exit code, record c { log = c.log ++ text })

  unfoldable pub usage : {A : Type 0} → Command W A
  unfolding usage_text
  usage = fails usage_code usage_text

  unfoldable pub report_error : {A : Type 0} → Error → Command W A
  unfolding exit_code_for
  report_error e = fails (exit_code_for e) (concat (bytes "devmgr: " ∷ e.message ∷ bytes "\n" ∷ []))

  abbrev pub answered : {A : Type 0} → Console W → Result A × W → Step A × Console W
  answered c (ok a, w) = (next a, record c { world = w })
  answered c (err e, w) = report_error e (record c { world = w })

  -- A call of the channel, whose error is reported.
  abbrev pub call : {A : Type 0} → (W → Result A × W) → Command W A
  call method c = answered c (method c.world)

  unfoldable pub accept : {A : Type 0} → Parsed A → Command W A
  unfolding usage_text
  accept (parsed a) = pure a
  accept (unexpected a) =
      fails usage_code
        (concat (bytes "devmgr: unexpected argument '" ∷ a ∷ bytes "'\n" ∷ usage_text ∷ []))
  accept needs_value = fails usage_code (bytes "devmgr: --label needs a value\n" ++ usage_text)

  -- The end of `resolveId`, with the ids that match.
  unfoldable pub the_match : Text → List Text → Command W Text
  unfolding indented
  the_match prefix [] =
      fails not_found_code
        (concat (bytes "devmgr: no snapshot matches id '" ∷ prefix ∷ bytes "'\n" ∷ []))
  the_match prefix (id ∷ []) = pure id
  the_match prefix (id ∷ other ∷ ids) = fails not_found_code (
      concat (
        bytes "devmgr: id '"
        ∷ prefix
        ∷ bytes "' is ambiguous, matches:\n"
        ∷ indented (id ∷ other ∷ ids)
        ∷ []))

module _ {W : Type 0} (ch : Channel W) (P : Printers) where
  unfoldable pub resolve_id : Text → Command W Text
  unfolding the_match matches_of
  resolve_id prefix = do metas ← call ch.snapshot_list; the_match prefix (matches_of prefix metas)

  unfoldable pub do_list : List Text → Command W ℕ
  unfolding accept json_only list_text
  do_list rest = do
    json ← accept (json_only false rest)
    metas ← call ch.snapshot_list
    prints (list_text P json metas)

  unfoldable pub do_history : List Text → Command W ℕ
  unfolding accept json_only history_text
  do_history rest = do
    json ← accept (json_only false rest)
    metas ← call ch.snapshot_list
    prints (history_text P json metas)

  unfoldable pub do_create : List Text → Command W ℕ
  unfolding accept create_label
  do_create rest = do
    label ← accept (create_label [] rest)
    id ← call (ch.snapshot_create label)
    prints (id ++ bytes "\n")

  -- What follows once both ids are known; without a target it is the live state.
  unfoldable pub diff_between : Bool → Text → Text → Command W ℕ
  unfolding diff_text
  diff_between json base target = do
    diff ← call (ch.snapshot_diff base target)
    prints (diff_text P json diff)

  unfoldable pub diff_of : Bool × List Text → Command W ℕ
  unfolding resolve_id diff_between
  diff_of (json, a ∷ []) = do base ← resolve_id a; diff_between json base []
  diff_of (json, a ∷ b ∷ []) = do
    base ← resolve_id a
    target ← resolve_id b
    diff_between json base target
  diff_of (json, _) = fails usage_code (bytes "usage: devmgr snapshot diff <a> [<b>]\n")

  unfoldable pub do_diff : List Text → Command W ℕ
  unfolding accept split_args diff_of
  do_diff rest = do args ← accept (split_args (bytes "--json") rest); diff_of args

  unfoldable pub print_restore_preview : Text → Command W ℕ
  unfolding print_lines restore_preview_change_lines snapshot_short_id
  print_restore_preview id = do
    diff ← call (ch.snapshot_diff id [])
    prints (
        concat (
          bytes "Restore preview for "
          ∷ snapshot_short_id id
          ∷ bytes " (nothing is restored):\n"
          ∷ print_lines (restore_preview_change_lines (some diff))
          ∷ bytes "\n"
          ∷ restore_preview_convergence_note
          ∷ bytes "\n"
          ∷ []))

  unfoldable pub restore_resolved : Bool → Text → Command W ℕ
  unfolding print_restore_preview outcome_text
  restore_resolved true id = print_restore_preview id
  restore_resolved false id = do
    outcome ← call (ch.snapshot_restore id)
    prints (outcome_text outcome)

  abbrev restore_usage : Command W ℕ
  restore_usage = fails usage_code (bytes "usage: devmgr snapshot restore [--preview] <id>\n")

  unfoldable pub restore_of : Bool × List Text → Command W ℕ
  unfolding resolve_id restore_resolved is_empty
  restore_of (preview, a ∷ []) =
      if is_empty a then restore_usage else (do id ← resolve_id a; restore_resolved preview id)
  restore_of (preview, _) = restore_usage

  unfoldable pub do_restore : List Text → Command W ℕ
  unfolding accept split_args restore_of
  do_restore rest = do args ← accept (split_args (bytes "--preview") rest); restore_of args

  abbrev delete_usage : Command W ℕ
  delete_usage = fails usage_code (bytes "usage: devmgr snapshot delete <id>\n")

  unfoldable pub delete_resolved : Text → Command W ℕ
  unfolding snapshot_short_id
  delete_resolved id = do
    done ← call (ch.snapshot_delete id)
    prints (concat (bytes "deleted " ∷ snapshot_short_id id ∷ bytes "\n" ∷ []))

  unfoldable pub do_delete : List Text → Command W ℕ
  unfolding resolve_id delete_resolved is_empty
  do_delete (a ∷ []) =
      if is_empty a then delete_usage else (do id ← resolve_id a; delete_resolved id)
  do_delete _ = delete_usage

  unfoldable pub verb_of : Text → List Text → Command W ℕ
  unfolding do_list do_history do_create do_diff do_restore do_delete usage_text
  verb_of verb rest =
      if verb == bytes "list"
      then do_list rest
      else if verb == bytes "history"
      then do_history rest
      else if verb == bytes "create"
      then do_create rest
      else if verb == bytes "diff"
      then do_diff rest
      else if verb == bytes "restore"
      then do_restore rest
      else if verb == bytes "delete"
      then do_delete rest
      else fails usage_code (
          concat
            (bytes "devmgr: unknown snapshot command '" ∷ verb ∷ bytes "'\n" ∷ usage_text ∷ []))

  unfoldable pub run : List Text → Command W ℕ
  unfolding verb_of usage
  run [] = usage
  run (word ∷ []) = usage
  run (word ∷ verb ∷ rest) = if word == bytes "snapshot" then verb_of verb rest else usage
