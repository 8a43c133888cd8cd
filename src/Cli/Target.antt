-- ===== src/Cli/Target.antt =====
-- Which snapshot a restore or a deletion is asked for.
use cross_device_manager.Base.{
  ℕ, ◌≡◌, refl, ◌∙◌, false, Option, none, some, List, [], ◌∷◌, Text, text_eq, is_empty,
}
use cross_device_manager.Base.Result.{Result, ok, err}
use cross_device_manager.Snapshot.{SnapshotMeta}
use cross_device_manager.Cli.{Channel, Printers, Console, Step, next, exit, Command, after}
use cross_device_manager.Cli.Texts.{matches_of}
use cross_device_manager.Cli.Commands.{
  prints, report_error, answered, call, the_match, resolve_id, restore_resolved, restore_of,
  delete_resolved, do_delete,
}

-- The id that a prefix stands for: there is one and no other.
abbrev pub the_only : List Text → Option Text
the_only [] = none
the_only (id ∷ []) = some id
the_only (id ∷ other ∷ ids) = none

abbrev pub target : {W : Type 0} → Text → Result (List SnapshotMeta) × W → Option Text
target prefix (ok metas, w) = the_only (matches_of prefix metas)
target prefix (err e, w) = none

module _ {W : Type 0} (ch : Channel W) (P : Printers) where
  abbrev pub called : {A : Type 0} → (Text → W → Result A × W) → Option Text → W → W
  called method none w = w
  called method (some id) w = (method id w).1

  world-answered : {A : Type 0} (c : Console W) (r : Result A × W) → (answered c r).1.world ≡ r.1
  unfolding report_error
  world-answered c (ok a, w) = refl
  world-answered c (err e, w) = refl

  world-prints :
      {A : Type 0} (r : Step A × Console W) (text : A → Text)
      → (after r (λ a. prints (text a))).1.world ≡ r.1.world
  world-prints (next a, c) text = refl
  world-prints (exit code, c) text = refl

  matched :
      {A : Type 0} (method : Text → W → Result A × W) (f : Text → Command W ℕ) (prefix : Text)
      (ids : List Text) (c : Console W)
      → ((id : Text) (d : Console W) → (f id d).1.world ≡ (method id d.world).1)
      → (after (the_match prefix ids c) f).1.world ≡ called method (the_only ids) c.world
  unfolding the_match
  matched method f prefix [] c h = refl
  matched method f prefix (id ∷ []) c h = h id c
  matched method f prefix (id ∷ other ∷ ids) c h = refl

  listed :
      {A : Type 0} (method : Text → W → Result A × W) (f : Text → Command W ℕ) (prefix : Text)
      (c : Console W) (r : Result (List SnapshotMeta) × W)
      → ((id : Text) (d : Console W) → (f id d).1.world ≡ (method id d.world).1)
      → (after
          (after (answered c r) (λ metas. the_match prefix (matches_of prefix metas)))
          f).1.world
        ≡ called method (target prefix r) r.1
  unfolding report_error
  listed method f prefix c (ok metas, w) h =
      matched method f prefix (matches_of prefix metas) (record c { world = w }) h
  listed method f prefix c (err e, w) h = refl

  -- A deletion, and a restore alike, changes the daemon's side by the listing alone, unless the prefix
  -- stands for exactly one of the snapshots listed: then by the call for that snapshot too.
  pub mutation-target :
      (prefix : Text) (c : Console W)
      → is_empty prefix ≡ false
      → let l = ch.snapshot_list c.world in
        ((do_delete ch P (prefix ∷ []) c).1.world ≡ called ch.snapshot_delete (target prefix l) l.1)
        × ((restore_of ch P (false, prefix ∷ []) c).1.world
            ≡ called ch.snapshot_restore (target prefix l) l.1)
  unfolding do_delete restore_of resolve_id delete_resolved restore_resolved
  mutation-target prefix c e =
      let l = ch.snapshot_list c.world in
      (
        rw (e, do_delete)
            (listed ch.snapshot_delete (delete_resolved ch P) prefix c l (λ id d.
              world-prints (call (ch.snapshot_delete id) d) _
              ∙ world-answered d (ch.snapshot_delete id d.world))),
        rw (e, restore_of)
            (listed ch.snapshot_restore (restore_resolved ch P false) prefix c l (λ id d.
              world-prints (call (ch.snapshot_restore id) d) _
              ∙ world-answered d (ch.snapshot_restore id d.world))),
      )
