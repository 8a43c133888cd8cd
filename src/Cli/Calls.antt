-- ===== src/Cli/Calls.antt =====
-- Which commands change anything on the daemon's side.
use cross_device_manager.Base.{
  ℕ, ◌≡◌, refl, inl, inr, Bool, true, false, not, ◌&&◌, ◌||◌, List, [], ◌∷◌, Text, bytes, text_eq,
  nat_eq, ◌==◌, is_empty, any_of, arith, Bool-cases, if◌then◌else◌,
}
use cross_device_manager.Base.Result.{Result, ok, err}
use cross_device_manager.Snapshot.{SnapshotMeta}
use cross_device_manager.Cli.{Channel, Printers, Console, Step, next, exit, Command, after, ◌>>=◌}
use cross_device_manager.Cli.Texts.{
  Parsed, parsed, unexpected, needs_value, list_text, history_text, json_only, split_args,
  matches_of,
}
use cross_device_manager.Cli.Commands.{
  prints, usage, report_error, answered, call, accept, the_match, resolve_id, do_list, do_history,
  diff_between, diff_of, do_diff, print_restore_preview, restore_resolved, restore_of, do_restore,
  verb_of, run,
}

-- The commands that may change something.
unfoldable pub mutates : List Text → Bool
unfolding any_of
mutates [] = false
mutates (word ∷ []) = false
mutates (word ∷ verb ∷ rest) =
    (verb == bytes "create")
    || ((verb == bytes "delete")
        || ((verb == bytes "restore") && not (any_of (λ a. a == bytes "--preview") rest)))

abbrev flag_of : Parsed (Bool × List Text) → Bool → Bool
flag_of (parsed (f, ids)) default = f
flag_of (unexpected a) default = default
flag_of needs_value default = default

-- The flag is found wherever it stands.
split_args-any_of :
    (flag : Text) (rest : List Text)
    → flag_of (split_args flag rest) (any_of (λ a. a == flag) rest) ≡ any_of (λ a. a == flag) rest
unfolding split_args any_of
split_args-any_of flag [] = refl
split_args-any_of flag (a ∷ rest) = ground (arith, split_args-any_of flag rest)

module _ {W : Type 0} (Inv : W → Type 0) where
  after_keeps :
      {A B : Type 0} (r : Step A × Console W) (f : A → Command W B)
      → Inv r.1.world
      → ((a : A) (d : Console W) → Inv d.world → Inv (f a d).1.world)
      → Inv (after r f).1.world
  after_keeps (next a, d) f i h = h a d i
  after_keeps (exit code, d) f i h = i

  answered_keeps :
      {A : Type 0} (c : Console W) (r : Result A × W) → Inv r.1 → Inv (answered c r).1.world
  unfolding report_error
  answered_keeps c (ok a, w) i = i
  answered_keeps c (err e, w) i = i

  accept_keeps :
      {A : Type 0} (p : Parsed A) (c : Console W) → Inv c.world → Inv (accept p c).1.world
  unfolding accept
  accept_keeps (parsed a) c i = i
  accept_keeps (unexpected a) c i = i
  accept_keeps needs_value c i = i

  the_match_keeps :
      (prefix : Text) (ids : List Text) (c : Console W)
      → Inv c.world
      → Inv (the_match prefix ids c).1.world
  unfolding the_match
  the_match_keeps prefix [] c i = i
  the_match_keeps prefix (id ∷ []) c i = i
  the_match_keeps prefix (id ∷ other ∷ ids) c i = i

  if_keeps :
      (b : Bool) (m n : Command W ℕ) (c : Console W)
      → (b ≡ true → Inv (m c).1.world)
      → (b ≡ false → Inv (n c).1.world)
      → Inv ((if b then m else n) c).1.world
  if_keeps true m n c h k = h refl
  if_keeps false m n c h k = k refl

module _ {W : Type 0} (ch : Channel W) (P : Printers) (Inv : W → Type 0)
    (lists : (w : W) → Inv w → Inv (ch.snapshot_list w).1)
    (diffs : (a b : Text) (w : W) → Inv w → Inv (ch.snapshot_diff a b w).1) where
  resolve_id_keeps :
      (prefix : Text) (c : Console W) → Inv c.world → Inv (resolve_id ch P prefix c).1.world
  unfolding resolve_id
  resolve_id_keeps prefix c i =
      after_keeps Inv (call ch.snapshot_list c) _
        (answered_keeps Inv c (ch.snapshot_list c.world) (lists c.world i))
        (λ metas. the_match_keeps Inv prefix (matches_of prefix metas))

  list_keeps :
      (json : Parsed Bool) (text : Bool → List SnapshotMeta → Text) (c : Console W)
      → Inv c.world
      → Inv
          (after
            (accept json c)
            (λ j. call ch.snapshot_list >>= λ metas. prints (text j metas))).1.world
  list_keeps json text c i = after_keeps Inv (accept json c) _ (accept_keeps Inv json c i) (λ j d k.
      after_keeps Inv (call ch.snapshot_list d) _
        (answered_keeps Inv d (ch.snapshot_list d.world) (lists d.world k)) (λ metas e l. l))

  diff_between_keeps :
      (json : Bool) (a b : Text) (c : Console W)
      → Inv c.world
      → Inv (diff_between ch P json a b c).1.world
  unfolding diff_between
  diff_between_keeps json a b c i =
      after_keeps Inv (call (ch.snapshot_diff a b) c) _
        (answered_keeps Inv c (ch.snapshot_diff a b c.world) (diffs a b c.world i)) (λ d e l. l)

  diff_of_keeps :
      (args : Bool × List Text) (c : Console W) → Inv c.world → Inv (diff_of ch P args c).1.world
  unfolding diff_of
  diff_of_keeps (json, []) c i = i
  diff_of_keeps (json, a ∷ []) c i =
      after_keeps Inv (resolve_id ch P a c) _ (resolve_id_keeps a c i)
        (λ base. diff_between_keeps json base [])
  diff_of_keeps (json, a ∷ b ∷ []) c i =
      after_keeps Inv (resolve_id ch P a c) _ (resolve_id_keeps a c i) (λ base d k.
        after_keeps Inv (resolve_id ch P b d) _ (resolve_id_keeps b d k)
          (λ target. diff_between_keeps json base target))
  diff_of_keeps (json, a ∷ b ∷ more ∷ rest) c i = i

  print_restore_preview_keeps :
      (id : Text) (c : Console W) → Inv c.world → Inv (print_restore_preview ch P id c).1.world
  unfolding print_restore_preview
  print_restore_preview_keeps id c i =
      after_keeps Inv (call (ch.snapshot_diff id []) c) _
        (answered_keeps Inv c (ch.snapshot_diff id [] c.world) (diffs id [] c.world i)) (λ d e l. l)

  preview_keeps :
      (ids : List Text) (c : Console W) → Inv c.world → Inv (restore_of ch P (true, ids) c).1.world
  unfolding restore_of restore_resolved
  preview_keeps [] c i = i
  preview_keeps (a ∷ []) c i = elim (Bool-cases (is_empty a)) [
    | inl e ↦ rw (e, restore_of) i
    | inr e ↦
        rw (e, restore_of)
          (after_keeps Inv (resolve_id ch P a c) _ (resolve_id_keeps a c i)
            print_restore_preview_keeps)
  ]
  preview_keeps (a ∷ b ∷ rest) c i = i

  parsed_preview_keeps :
      (p : Parsed (Bool × List Text)) (c : Console W)
      → flag_of p true ≡ true
      → Inv c.world
      → Inv (after (accept p c) (restore_of ch P)).1.world
  unfolding accept
  parsed_preview_keeps (parsed (true, ids)) c t i = preview_keeps ids c i
  parsed_preview_keeps (parsed (false, ids)) c t i = absurd (cc)
  parsed_preview_keeps (unexpected a) c t i = i
  parsed_preview_keeps needs_value c t i = i

  do_restore_keeps :
      (rest : List Text) (c : Console W)
      → any_of (λ a. a == bytes "--preview") rest ≡ true
      → Inv c.world
      → Inv (do_restore ch P rest c).1.world
  unfolding do_restore
  do_restore_keeps rest c t i =
      let flag : flag_of (split_args (bytes "--preview") rest) true ≡ true =
        rw t at (split_args-any_of (bytes "--preview") rest) in
      parsed_preview_keeps (split_args (bytes "--preview") rest) c flag i

  do_diff_keeps :
      (rest : List Text) (c : Console W) → Inv c.world → Inv (do_diff ch P rest c).1.world
  unfolding do_diff
  do_diff_keeps rest c i =
      let args = split_args (bytes "--json") rest in
      after_keeps Inv (accept args c) _ (accept_keeps Inv args c i) diff_of_keeps

  verb_of_keeps :
      (word verb : Text) (rest : List Text) (c : Console W)
      → mutates (word ∷ verb ∷ rest) ≡ false
      → Inv c.world
      → Inv (verb_of ch P verb rest c).1.world
  unfolding mutates verb_of do_list do_history
  verb_of_keeps word verb rest c m i =
      if_keeps Inv (verb == bytes "list") _ _ c
        (λ t. list_keeps (json_only false rest) (list_text P) c i)
        (λ f.
          if_keeps Inv (verb == bytes "history") _ _ c
            (λ t. list_keeps (json_only false rest) (history_text P) c i)
            (λ f.
              if_keeps Inv (verb == bytes "create") _ _ c (λ t. absurd (ground arith))
                (λ f.
                  if_keeps Inv (verb == bytes "diff") _ _ c (λ t. do_diff_keeps rest c i)
                    (λ f.
                      if_keeps Inv (verb == bytes "restore") _ _ c
                        (λ t. do_restore_keeps rest c (ground arith) i)
                        (λ f.
                          if_keeps Inv (verb == bytes "delete") _ _ c (λ t. absurd (ground arith))
                            (λ f. i))))))

  -- What listing and comparing keep, every command keeps but create, delete and a restore without
  -- `--preview`; so these make no other call of the channel.
  pub run_read_only :
      (args : List Text) (c : Console W)
      → mutates args ≡ false
      → Inv c.world
      → Inv (run ch P args c).1.world
  unfolding run usage
  run_read_only [] c m i = i
  run_read_only (word ∷ []) c m i = i
  run_read_only (word ∷ verb ∷ rest) c m i =
      if_keeps Inv (word == bytes "snapshot") _ _ c (λ t. verb_of_keeps word verb rest c m i)
        (λ f. i)
