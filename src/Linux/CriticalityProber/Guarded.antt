-- ===== src/Linux/CriticalityProber/Guarded.antt =====
-- What the probe finds, the guard protects.
use cross_device_manager.Base.{
  ℕ, ◌<◌, ◌≡◌, ◌⊎◌, inl, inr, true, false, Option, none, some, List, [], ◌∷◌, Text, bytes, arith,
  text_eq, ◌==◌, starts_with, Elem, Elem-append-left, Elem-append-right, if_cases, ◌||◌, ◌++◌,
  eq_false, any_of, Option-cases, subst, sym, ap, not,
}
use cross_device_manager.Base.Result.{ok, value_or}
use cross_device_manager.Models.{CriticalityFacts}
use cross_device_manager.Guard.{is_under, any_under, evaluate_disable}
use cross_device_manager.Keys.{last_segment}
use cross_device_manager.Daemon.AtomicFile.{join_path}
use cross_device_manager.SnapshotDiff.{lines}
use cross_device_manager.Linux.CriticalityProber.{
  Listing, absent, unreadable, named, SystemFiles, mount_of, backing, collect_mount,
  collect_storage_facts, collect_input, collect_inputs, collect_input_facts, sorted_facts, no_facts,
  probe, expand_block,
}
use cross_device_manager.Linux.CriticalityProber.Leaves.{Leaf, Descends, expand_block_iff}
use cross_device_manager.Linux.CriticalityProber.Sorted.{Elem-sort_unique}

-- A path that the root or the boot file system is on.
abbrev pub Held : CriticalityFacts → Text → Type 0
Held facts p = Elem p facts.root_backing_paths ⊎ Elem p facts.boot_backing_paths

abbrev pub Vital : Text → Type 0
Vital target = (target ≡ bytes "/") ⊎ ((target ≡ bytes "/boot") ⊎ (target ≡ bytes "/boot/efi"))

any_under_of :
    (ps : List Text) (p target : Text)
    → Elem p ps
    → is_under p target ≡ true
    → any_under ps target ≡ true
unfolding any_under any_of
any_under_of [] p target i h = elim i [ ]
any_under_of (q ∷ ps) p target (inl e) h = rw (subst (λ x. is_under x target ≡ true) e h)
any_under_of (q ∷ ps) p target (inr i) h = ground (arith, any_under_of ps p target i h)

Held-refused :
    (facts : CriticalityFacts) (p target : Text)
    → Held facts p
    → is_under p target ≡ true
    → (evaluate_disable facts target).allowed ≡ false
unfolding evaluate_disable
Held-refused facts p target (inl i) h = rw (any_under_of facts.root_backing_paths p target i h)
Held-refused facts p target (inr i) h =
    ground (arith, any_under_of facts.boot_backing_paths p target i h)

root_grows :
    (paths : List Text) (facts : CriticalityFacts) (p : Text)
    → Held facts p
    → Held (record facts { root_backing_paths = facts.root_backing_paths ++ paths }) p
root_grows paths facts p (inl i) = inl (Elem-append-left p facts.root_backing_paths paths i)
root_grows paths facts p (inr i) = inr i

boot_grows :
    (paths : List Text) (facts : CriticalityFacts) (p : Text)
    → Held facts p
    → Held (record facts { boot_backing_paths = facts.boot_backing_paths ++ paths }) p
boot_grows paths facts p (inl i) = inl i
boot_grows paths facts p (inr i) = inr (Elem-append-left p facts.boot_backing_paths paths i)

not-Vital :
    (target : Text)
    → (target == bytes "/") ≡ false
    → ((target == bytes "/boot") || (target == bytes "/boot/efi")) ≡ false
    → ¬ Vital target
not-Vital target n m (inl e) = eq_false target (bytes "/") n e
not-Vital target n m (inr (inl e)) = eq_false target (bytes "/boot") (ground arith) e
not-Vital target n m (inr (inr e)) = eq_false target (bytes "/boot/efi") (ground arith) e

module _ (F : SystemFiles) (fuel : ℕ) (class_block : Text) where
  mount_keeps :
      (entry : Option (Text × Text)) (facts : CriticalityFacts) (p : Text)
      → Held facts p
      → Held (collect_mount F fuel class_block entry facts) p
  unfolding collect_mount
  mount_keeps none facts p held = held
  mount_keeps (some (source, target)) facts p held =
      let paths = backing F fuel class_block source in
      if_cases (λ f. Held f p) (target == bytes "/") _ _ (λ e. root_grows paths facts p held)
        (λ n.
          if_cases (λ f. Held f p) ((target == bytes "/boot") || (target == bytes "/boot/efi")) _ _
            (λ e. boot_grows paths facts p held) (λ m. held))

  mount_adds :
      (source target p : Text) (facts : CriticalityFacts)
      → Vital target
      → Elem p (backing F fuel class_block source)
      → Held (collect_mount F fuel class_block (some (source, target)) facts) p
  unfolding collect_mount
  mount_adds source target p facts vital i =
      let paths = backing F fuel class_block source in
      if_cases (λ f. Held f p) (target == bytes "/") _ _
        (λ e. inl (Elem-append-right p facts.root_backing_paths paths i))
        (λ n.
          if_cases (λ f. Held f p) ((target == bytes "/boot") || (target == bytes "/boot/efi")) _ _
            (λ e. inr (Elem-append-right p facts.boot_backing_paths paths i))
            (λ m. absurd (not-Vital target n m vital)))

  storage_keeps :
      (table : List Text) (facts : CriticalityFacts) (p : Text)
      → Held facts p
      → Held (collect_storage_facts F fuel class_block table facts) p
  unfolding collect_storage_facts
  storage_keeps [] facts p held = held
  storage_keeps (line ∷ table) facts p held =
      storage_keeps table _ p (mount_keeps (mount_of line) facts p held)

  storage_adds :
      (table : List Text) (line source target p : Text) (facts : CriticalityFacts)
      → Elem line table
      → mount_of line ≡ some (source, target)
      → Vital target
      → Elem p (backing F fuel class_block source)
      → Held (collect_storage_facts F fuel class_block table facts) p
  unfolding collect_storage_facts
  storage_adds [] line source target p facts i read vital found = elim i [ ]
  storage_adds (l ∷ table) line source target p facts (inl e) read vital found =
      let of_head = subst (λ m. mount_of m ≡ some (source, target)) e read in
      storage_keeps table _ p (
        subst (λ m. Held (collect_mount F fuel class_block m facts) p) (sym of_head)
          (mount_adds source target p facts vital found))
  storage_adds (l ∷ table) line source target p facts (inr i) read vital found =
      storage_adds table line source target p _ i read vital found

module _ (F : SystemFiles) where
  input_keeps :
      (class_input name p : Text) (facts : CriticalityFacts)
      → Held facts p
      → Held (collect_input F class_input name facts) p
  unfolding collect_input
  input_keeps class_input name p facts held =
      if_cases (λ f. Held f p) (not (starts_with name (bytes "input"))) _ _ (λ e. held)
        (λ n. elim (Option-cases (F.canonical (join_path class_input name))) [
          | inl e ↦ rw e held
          | inr (real, e) ↦ rw e held
        ])

  inputs_keep :
      (class_input p : Text) (names : List Text) (facts : CriticalityFacts)
      → Held facts p
      → Held (collect_inputs F class_input names facts) p
  inputs_keep class_input p [] facts held = held
  inputs_keep class_input p (name ∷ names) facts held =
      inputs_keep class_input p names _ (input_keeps class_input name p facts held)

  input_facts_keep :
      (class_input p : Text) (facts : CriticalityFacts)
      → Held facts p
      → Held (collect_input_facts F class_input facts) p
  unfolding collect_input_facts
  input_facts_keep class_input p facts held = go (F.listing class_input)
    where
      go :
          (l : Listing)
          → Held (elim l [ named names ↦ collect_inputs F class_input names facts | _ ↦ facts ]) p
      go absent = held
      go unreadable = held
      go (named names) = inputs_keep class_input p names facts held

  backed :
      (fuel : ℕ) (class_block source node p : Text)
      → starts_with source (bytes "/") ≡ true
      → F.canonical source ≡ some node
      → Elem p (expand_block F fuel class_block (last_segment node))
      → Elem p (backing F fuel class_block source)
  backed fuel class_block source node p rooted e i = rw (rooted, e, Elem) i

  sorted_keeps :
      (facts : CriticalityFacts) (p : Text) → Held facts p → Held (sorted_facts F facts) p
  sorted_keeps facts p (inl i) = inl (Elem-sort_unique p facts.root_backing_paths i)
  sorted_keeps facts p (inr i) = inr (Elem-sort_unique p facts.boot_backing_paths i)

  -- Let the probe give facts, and let the table of mounts have a line for the root, `/boot` or
  -- `/boot/efi`, whose source is an absolute path that resolves to a device node. Let a measure go down
  -- from each block device to its slaves, and be below the fuel at the device of the node. Then the
  -- guard, with these facts, refuses every device at or above a leaf of that block device.
  pub probe_guards :
      (rank : Text → ℕ) (fuel : ℕ) (sysfs_root mounts_path mounts : Text) (facts : CriticalityFacts)
      (line source target node leaf device : Text)
      → Descends F (join_path sysfs_root (bytes "class/block")) rank
      → F.contents mounts_path ≡ some mounts
      → probe F fuel sysfs_root mounts_path ≡ ok facts
      → Elem line (lines [] mounts)
      → mount_of line ≡ some (source, target)
      → Vital target
      → starts_with source (bytes "/") ≡ true
      → F.canonical source ≡ some node
      → rank (last_segment node) < fuel
      → Leaf F (join_path sysfs_root (bytes "class/block")) (last_segment node) leaf
      → is_under leaf device ≡ true
      → (evaluate_disable facts device).allowed ≡ false
  unfolding probe
  probe_guards rank fuel sysfs_root mounts_path mounts facts line source target node leaf device
        down read done i fields vital rooted real enough found under =
      let class_block = join_path sysfs_root (bytes "class/block") in
      let reached =
        (expand_block_iff F class_block rank down fuel (last_segment node) leaf enough).1 found in
      let stored =
        storage_adds F fuel class_block (lines [] mounts) line source target leaf (no_facts F) i
          fields vital (backed fuel class_block source node leaf rooted real reached) in
      let class_input = join_path sysfs_root (bytes "class/input") in
      let storage = collect_storage_facts F fuel class_block (lines [] mounts) (no_facts F) in
      let gathered = input_facts_keep class_input leaf storage stored in
      let all = sorted_keeps (collect_input_facts F class_input storage) leaf gathered in
      let same = ap (λ r. value_or r facts) (rw (read, probe) at done) in
      Held-refused facts leaf device (subst (λ f. Held f leaf) same all) under
