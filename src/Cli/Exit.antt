-- ===== src/Cli/Exit.antt =====
-- The exit code and the two streams.
use cross_device_manager.Base.{
  ℕ, ◌≤◌, ◌≡◌, refl, ◌∙◌, inl, inr, Bool, true, false, List, [], ◌∷◌, ◌++◌, Text, bytes, text_eq,
  ◌==◌, is_empty, arith, Bool-cases, if◌then◌else◌,
}
use cross_device_manager.Base.Result.{Result, ok, err, Error}
use cross_device_manager.Cli.{Channel, Printers, Console, Step, next, exit, Command, after}
use cross_device_manager.Cli.Errors.{usage_code, exit_code_for}
use cross_device_manager.Cli.Texts.{
  Parsed, parsed, unexpected, needs_value, json_only, create_label, split_args, matches_of,
  outcome_text, list_text, history_text, diff_text,
}
use cross_device_manager.Cli.Commands.{
  prints, usage, report_error, answered, call, accept, the_match, resolve_id, do_list, do_history,
  do_create, diff_between, diff_of, do_diff, print_restore_preview, restore_resolved, restore_of,
  do_restore, delete_resolved, do_delete, verb_of, run,
}

-- A code for a failure.
abbrev pub Fails : ℕ → Type 0
Fails code = (1 ≤ code) × (code ≤ 5)

exit_code_for-Fails : (e : Error) → Fails (exit_code_for e)
unfolding exit_code_for
exit_code_for-Fails e = ground arith

usage-Fails : Fails usage_code
usage-Fails = (omega arith, omega arith)

module _ {W : Type 0} where
  -- What a step does before the last one: it prints nothing, and says something only if it fails.
  abbrev pub Quiet : {A : Type 0} → Console W → Step A × Console W → Type 0
  Quiet c (next a, d) = (d.out ≡ c.out) × (d.log ≡ c.log)
  Quiet c (exit code, d) = Fails code × (d.out ≡ c.out)

  -- What the tool does as a whole.
  abbrev pub Ends : Console W → Step ℕ × Console W → Type 0
  Ends c (next code, d) = (code ≡ 0) × (d.log ≡ c.log)
  Ends c (exit code, d) = Fails code × (d.out ≡ c.out)

  Ends-from :
      (c d : Console W) (r : Step ℕ × Console W)
      → (d.out ≡ c.out) × (d.log ≡ c.log)
      → Ends d r
      → Ends c r
  Ends-from c d (next code, e) (o, l) (z, same) = (z, same ∙ l)
  Ends-from c d (exit code, e) (o, l) (z, same) = (z, same ∙ o)

  Quiet-from :
      {A : Type 0} (c d : Console W) (r : Step A × Console W)
      → (d.out ≡ c.out) × (d.log ≡ c.log)
      → Quiet d r
      → Quiet c r
  Quiet-from c d (next code, e) (o, l) (q, same) = (q ∙ o, same ∙ l)
  Quiet-from c d (exit code, e) (o, l) (z, same) = (z, same ∙ o)

  after-Ends :
      {A : Type 0} (c : Console W) (r : Step A × Console W) (f : A → Command W ℕ)
      → Quiet c r
      → ((a : A) (d : Console W) → Ends d (f a d))
      → Ends c (after r f)
  after-Ends c (next a, d) f q e = Ends-from c d (f a d) q (e a d)
  after-Ends c (exit code, d) f q e = q

  after-Quiet :
      {A B : Type 0} (c : Console W) (r : Step A × Console W) (f : A → Command W B)
      → Quiet c r
      → ((a : A) (d : Console W) → Quiet d (f a d))
      → Quiet c (after r f)
  after-Quiet c (next a, d) f q e = Quiet-from c d (f a d) q (e a d)
  after-Quiet c (exit code, d) f q e = q

  answered-Quiet : {A : Type 0} (c : Console W) (r : Result A × W) → Quiet c (answered c r)
  unfolding report_error
  answered-Quiet c (ok a, w) = (refl, refl)
  answered-Quiet c (err e, w) = (exit_code_for-Fails e, refl)

  call-Quiet : {A : Type 0} (method : W → Result A × W) (c : Console W) → Quiet c (call method c)
  unfolding report_error
  call-Quiet method c = answered-Quiet c (method c.world)

  accept-Quiet : {A : Type 0} (p : Parsed A) (c : Console W) → Quiet c (accept p c)
  unfolding accept
  accept-Quiet (parsed a) c = (refl, refl)
  accept-Quiet (unexpected a) c = (usage-Fails, refl)
  accept-Quiet needs_value c = (usage-Fails, refl)

  the_match-Quiet :
      (prefix : Text) (ids : List Text) (c : Console W) → Quiet c (the_match prefix ids c)
  unfolding the_match
  the_match-Quiet prefix [] c = ((omega arith, omega arith), refl)
  the_match-Quiet prefix (id ∷ []) c = (refl, refl)
  the_match-Quiet prefix (id ∷ other ∷ ids) c = ((omega arith, omega arith), refl)

  prints-Ends : (text : Text) (c : Console W) → Ends c (prints text c)
  prints-Ends text c = (refl, refl)

  usage-Ends : (c : Console W) → Ends c (usage c)
  unfolding usage
  usage-Ends c = (usage-Fails, refl)

module _ {W : Type 0} (ch : Channel W) (P : Printers) where
  resolve_id-Quiet : (prefix : Text) (c : Console W) → Quiet c (resolve_id ch P prefix c)
  unfolding resolve_id
  resolve_id-Quiet prefix c =
      after-Quiet c (call ch.snapshot_list c) _ (call-Quiet ch.snapshot_list c)
        (λ metas. the_match-Quiet prefix (matches_of prefix metas))

  -- A call whose answer is printed.
  call-Ends :
      {A : Type 0} (method : W → Result A × W) (text : A → Text) (c : Console W)
      → Ends c (after (call method c) (λ a. prints (text a)))
  call-Ends method text c =
      after-Ends c (call method c) _ (call-Quiet method c) (λ a. prints-Ends (text a))

  do_list-Ends : (rest : List Text) (c : Console W) → Ends c (do_list ch P rest c)
  unfolding do_list
  do_list-Ends rest c =
      after-Ends c (accept (json_only false rest) c) _ (accept-Quiet (json_only false rest) c)
        (λ json. call-Ends ch.snapshot_list (list_text P json))

  do_history-Ends : (rest : List Text) (c : Console W) → Ends c (do_history ch P rest c)
  unfolding do_history
  do_history-Ends rest c =
      after-Ends c (accept (json_only false rest) c) _ (accept-Quiet (json_only false rest) c)
        (λ json. call-Ends ch.snapshot_list (history_text P json))

  do_create-Ends : (rest : List Text) (c : Console W) → Ends c (do_create ch P rest c)
  unfolding do_create
  do_create-Ends rest c =
      after-Ends c (accept (create_label [] rest) c) _ (accept-Quiet (create_label [] rest) c)
        (λ label. call-Ends (ch.snapshot_create label) (λ id. id ++ bytes "\n"))

  diff_between-Ends :
      (json : Bool) (a b : Text) (c : Console W) → Ends c (diff_between ch P json a b c)
  unfolding diff_between
  diff_between-Ends json a b = call-Ends (ch.snapshot_diff a b) (diff_text P json)

  diff_of-Ends : (args : Bool × List Text) (c : Console W) → Ends c (diff_of ch P args c)
  unfolding diff_of
  diff_of-Ends (json, []) c = (usage-Fails, refl)
  diff_of-Ends (json, a ∷ []) c =
      after-Ends c (resolve_id ch P a c) _ (resolve_id-Quiet a c)
        (λ base. diff_between-Ends json base [])
  diff_of-Ends (json, a ∷ b ∷ []) c =
      after-Ends c (resolve_id ch P a c) _ (resolve_id-Quiet a c) (λ base d.
        after-Ends d (resolve_id ch P b d) _ (resolve_id-Quiet b d)
          (λ target. diff_between-Ends json base target))
  diff_of-Ends (json, a ∷ b ∷ more ∷ rest) c = (usage-Fails, refl)

  do_diff-Ends : (rest : List Text) (c : Console W) → Ends c (do_diff ch P rest c)
  unfolding do_diff
  do_diff-Ends rest c =
      let args = split_args (bytes "--json") rest in
      after-Ends c (accept args c) _ (accept-Quiet args c) diff_of-Ends

  restore_resolved-Ends :
      (preview : Bool) (id : Text) (c : Console W) → Ends c (restore_resolved ch P preview id c)
  unfolding restore_resolved print_restore_preview
  restore_resolved-Ends true id c = call-Ends (ch.snapshot_diff id []) _ c
  restore_resolved-Ends false id c = call-Ends (ch.snapshot_restore id) outcome_text c

  restore_of-Ends : (args : Bool × List Text) (c : Console W) → Ends c (restore_of ch P args c)
  unfolding restore_of
  restore_of-Ends (preview, []) c = (usage-Fails, refl)
  restore_of-Ends (preview, a ∷ []) c = elim (Bool-cases (is_empty a)) [
    | inl e ↦ rw (e, restore_of) (usage-Fails, refl)
    | inr e ↦
        rw (e, restore_of)
          (after-Ends c (resolve_id ch P a c) _ (resolve_id-Quiet a c)
            (restore_resolved-Ends preview))
  ]
  restore_of-Ends (preview, a ∷ b ∷ rest) c = (usage-Fails, refl)

  do_restore-Ends : (rest : List Text) (c : Console W) → Ends c (do_restore ch P rest c)
  unfolding do_restore
  do_restore-Ends rest c =
      let args = split_args (bytes "--preview") rest in
      after-Ends c (accept args c) _ (accept-Quiet args c) restore_of-Ends

  delete_resolved-Ends : (id : Text) (c : Console W) → Ends c (delete_resolved ch P id c)
  unfolding delete_resolved
  delete_resolved-Ends id = call-Ends (ch.snapshot_delete id) _

  do_delete-Ends : (rest : List Text) (c : Console W) → Ends c (do_delete ch P rest c)
  unfolding do_delete
  do_delete-Ends [] c = (usage-Fails, refl)
  do_delete-Ends (a ∷ []) c = elim (Bool-cases (is_empty a)) [
    | inl e ↦ rw (e, do_delete) (usage-Fails, refl)
    | inr e ↦
        rw (e, do_delete)
          (after-Ends c (resolve_id ch P a c) _ (resolve_id-Quiet a c) delete_resolved-Ends)
  ]
  do_delete-Ends (a ∷ b ∷ rest) c = (usage-Fails, refl)

  if_Ends :
      (b : Bool) (m n : Command W ℕ) (c : Console W)
      → Ends c (m c)
      → Ends c (n c)
      → Ends c ((if b then m else n) c)
  if_Ends true m n c h k = h
  if_Ends false m n c h k = k

  verb_of-Ends :
      (verb : Text) (rest : List Text) (c : Console W) → Ends c (verb_of ch P verb rest c)
  unfolding verb_of
  verb_of-Ends verb rest c = if_Ends (verb == bytes "list") _ _ c (do_list-Ends rest c) (
      if_Ends (verb == bytes "history") _ _ c (do_history-Ends rest c) (
        if_Ends (verb == bytes "create") _ _ c (do_create-Ends rest c) (
          if_Ends (verb == bytes "diff") _ _ c (do_diff-Ends rest c) (
            if_Ends (verb == bytes "restore") _ _ c (do_restore-Ends rest c) (
              if_Ends (verb == bytes "delete") _ _ c (do_delete-Ends rest c)
                (usage-Fails, refl))))))

  -- Whatever the arguments and the daemon: either the exit code is 0 and nothing went to the error
  -- stream, or it is one of the codes 1 to 5 and nothing was printed.
  pub run-Ends : (args : List Text) (c : Console W) → Ends c (run ch P args c)
  unfolding run
  run-Ends [] c = usage-Ends c
  run-Ends (word ∷ []) c = usage-Ends c
  run-Ends (word ∷ verb ∷ rest) c =
      if_Ends (word == bytes "snapshot") _ usage c (verb_of-Ends verb rest c) (usage-Ends c)
