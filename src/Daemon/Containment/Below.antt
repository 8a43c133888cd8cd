-- ===== src/Daemon/Containment/Below.antt =====
-- What the check accepts lies below the root.
use cross_device_manager.Base.{
  ℕ, suc, ◌+◌, ◌-◌, ◌≡◌, refl, ap, inl, inr, true, false, some, List, [], ◌∷◌, ◌++◌, Text, bytes,
  arith, text_eq, ◌==◌, is_empty, starts_with, starts_with-append, rest_of_prefix, Bool-cases, All,
  length, append_assoc, append-nil, subst, bool_eq, nat_eq,
}
use cross_device_manager.Base.Result.{ok}
use cross_device_manager.Daemon.AtomicFile.{join_path}
use cross_device_manager.Daemon.Platform.{Platform}
use cross_device_manager.Daemon.Containment.{
  mismatch, levels, climb, joined, relative_rest, lexically_relative, check_contained, elements,
  canonical_contained, is_absolute,
}

-- An element that stands for itself.
abbrev pub Plain : Text → Type 0
Plain b = ((b == bytes "..") ≡ false) × ((b == bytes ".") ≡ false) × (is_empty b ≡ false)

levels-Plain :
    (bs : List Text) (down : ℕ) → All Plain bs → levels bs (down, 0) ≡ (down + length bs, 0)
unfolding levels
levels-Plain [] down h = ground arith
levels-Plain (b ∷ bs) down h = ground (arith, levels-Plain bs (suc down) h.1)

-- The shared beginning.
mismatch_shared :
    (ps bs : List Text)
    → (shared : List Text) × (ps ≡ shared ++ (mismatch ps bs).0)
      × (bs ≡ shared ++ (mismatch ps bs).1)
unfolding mismatch
mismatch_shared [] bs = ([], refl, refl)
mismatch_shared (p ∷ ps) [] = ([], refl, refl)
mismatch_shared (p ∷ ps) (b ∷ bs) = elim (Bool-cases (p == b)) [
  | inl e ↦
      let (shared, l, r) = mismatch_shared ps bs in
      (p ∷ shared, rw e (ap (◌∷◌ p) l), rw e (ground (arith, r)))
  | inr e ↦ ([], rw e refl, rw e refl)
]

All-drop : (xs ys : List Text) → All Plain (xs ++ ys) → All Plain ys
All-drop [] ys h = h
All-drop (x ∷ xs) ys h = All-drop xs ys h.1

starts_with-longer : (s t p : Text) → starts_with s p ≡ true → starts_with (s ++ t) p ≡ true
starts_with-longer s t p h =
    let (r, e) = rest_of_prefix s p h in rw (e, append_assoc p r t) (starts_with-append p (r ++ t))

join_path_longer : (s t p : Text) → starts_with s p ≡ true → starts_with (join_path s t) p ≡ true
unfolding join_path
join_path_longer s t p h =
    ground (arith, starts_with-longer s t p h, starts_with-longer s (bytes "/" ++ t) p h)

joined_longer :
    (ps : List Text) (s p : Text) → starts_with s p ≡ true → starts_with (joined s ps) p ≡ true
unfolding joined
joined_longer [] s p h = h
joined_longer (q ∷ ps) s p h = joined_longer ps (join_path s q) p (join_path_longer s q p h)

relative_rest-suc :
    (ps : List Text) (n : ℕ) → relative_rest ps (suc n, 0) ≡ joined [] (bytes ".." ∷ climb n ps)
unfolding relative_rest
relative_rest-suc ps n =
    let whole : suc n - 0 ≡ suc n = omega arith in rw (whole, relative_rest) (ground arith)

-- A rest of the base gives a path that begins with `..`.
relative_rest_up :
    (ps : List Text) (n : ℕ) → starts_with (relative_rest ps (suc n, 0)) (bytes "..") ≡ true
unfolding joined join_path starts_with nat_eq is_empty
relative_rest_up ps n =
    rw (relative_rest-suc ps n) (joined_longer (climb n ps) (bytes "..") (bytes "..") refl)

rest_below :
    (ps bs shared path base : List Text)
    → path ≡ shared ++ ps
    → base ≡ shared ++ bs
    → All Plain bs
    → starts_with (relative_rest ps (levels bs (0, 0))) (bytes "..") ≡ false
    → (rest : List Text) × (path ≡ base ++ rest)
rest_below ps [] shared path base l r plain inside = (ps, rw (l, r, append-nil shared))
rest_below ps (b ∷ bs) shared path base l r plain inside =
    let deep : levels (b ∷ bs) (0, 0) ≡ (suc (length bs), 0) =
      ground (arith, levels-Plain (b ∷ bs) 0 plain) in
    absurd (cc (rw deep at inside, relative_rest_up ps (length bs)))

pub lexically_relative_below :
    (path base : Text)
    → All Plain (elements base)
    → is_empty (lexically_relative path base) ≡ false
    → starts_with (lexically_relative path base) (bytes "..") ≡ false
    → (rest : List Text) × (elements path ≡ elements base ++ rest)
unfolding lexically_relative is_empty
lexically_relative_below path base plain full inside =
    elim (Bool-cases (is_absolute path == is_absolute base)) [
      | inr differ ↦ absurd (cc (rw differ at full))
      | inl same ↦
          let (shared, l, r) = mismatch_shared (elements path) (elements base) in
          rest_below (mismatch (elements path) (elements base)).0
            (mismatch (elements path) (elements base)).1 shared (elements path) (elements base) l r
            (All-drop shared _ (subst (All Plain) r plain)) (rw same at inside)
    ]

-- An accepted path has been resolved, is a directory, and its elements are those of the resolved
-- root and some more behind them, where the elements of the root are neither `.` nor `..`.
pub canonical_contained_below :
    (P : Platform) (sysfs_root : Text) (m : P.Machine) (path canonical root : Text)
    → P.weakly_canonical m sysfs_root ≡ some root
    → All Plain (elements root)
    → canonical_contained P sysfs_root m path ≡ ok canonical
    → (P.weakly_canonical m path ≡ some canonical)
      × (P.is_directory m canonical ≡ true)
      × ((rest : List Text) × (elements canonical ≡ elements root ++ rest))
unfolding canonical_contained check_contained
canonical_contained_below P sysfs_root m path canonical root resolved plain accepted =
    let found : (P.weakly_canonical m path ≡ some canonical) = ground arith in
    let directory : (P.is_directory m canonical ≡ true) = ground arith in
    let full : is_empty (lexically_relative canonical root) ≡ false = ground arith in
    let inside : starts_with (lexically_relative canonical root) (bytes "..") ≡ false =
      ground arith in
    (found, directory, lexically_relative_below canonical root plain full inside)
