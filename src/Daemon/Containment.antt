-- ===== src/Daemon/Containment.antt =====
-- `canonicalContained` of daemon/src/request_processor.cpp: a request names a device directory below
-- the root of sysfs. Paths are compared by `std::filesystem::path::lexically_relative`, name by name.
pub mod Below
use cross_device_manager.Base.{
  ℕ, zero, suc, Bool, true, false, not, ◌||◌, ◌&&◌, Option, none, some, List, [], ◌∷◌, ◌++◌, Text,
  bytes, text_eq, nat_eq, bool_eq, ◌==◌, is_empty, starts_with, ltb, ◌-◌, if◌then◌else◌,
}
use cross_device_manager.Base.Result.{Result, ok, err, make_error, not_found}
use cross_device_manager.Daemon.AtomicFile.{join_path}
use cross_device_manager.Daemon.Platform.{Platform}

-- A byte in front of the first name.
unfoldable pub prepend : ℕ → List Text → List Text
prepend c [] = (c ∷ []) ∷ []
prepend c (name ∷ names) = (c ∷ name) ∷ names

-- The names between the slashes, empty ones too.
unfoldable pub split_slashes : Text → List Text
unfolding prepend
split_slashes [] = [] ∷ []
split_slashes (c ∷ s) =
    let rest = split_slashes s in if c == b'/' then [] ∷ rest else prepend c rest

unfoldable pub drop_empty : List Text → List Text
drop_empty [] = []
drop_empty (name ∷ names) =
    let rest = drop_empty names in if is_empty name then rest else name ∷ rest

unfoldable pub is_absolute : Text → Bool
is_absolute path = starts_with path (bytes "/")

-- The elements of a path that ends in no slash: the root directory, if it is absolute, and the names.
unfoldable pub elements : Text → List Text
unfolding split_slashes drop_empty
elements path =
    let names = drop_empty (split_slashes path) in
    if is_absolute path then bytes "/" ∷ names else names

-- What is left of two lists behind the elements that they share.
unfoldable pub mismatch : List Text → List Text → List Text × List Text
mismatch [] bs = ([], bs)
mismatch (p ∷ ps) [] = (p ∷ ps, [])
mismatch (p ∷ ps) (b ∷ bs) = let rest = mismatch ps bs in if p == b then rest else (p ∷ ps, b ∷ bs)

-- How many levels the rest of the base goes down, and how many it goes up.
unfoldable pub levels : List Text → ℕ × ℕ → ℕ × ℕ
levels [] (down, up) = (down, up)
levels (b ∷ bs) (down, up) = levels bs (
    if b == bytes ".."
    then (down, suc up)
    else if is_empty b || (b == bytes ".")
    then (down, up)
    else (suc down, up))

-- Is the path at its end, or at an empty element?
abbrev pub no_more : List Text → Bool
no_more [] = true
no_more (p ∷ ps) = is_empty p

unfoldable pub climb : ℕ → List Text → List Text
climb zero ps = ps
climb (suc n) ps = bytes ".." ∷ climb n ps

-- The text of a relative path with these elements.
unfoldable pub joined : Text → List Text → Text
joined path [] = path
joined path (p ∷ ps) = joined (join_path path p) ps

unfoldable pub relative_rest : List Text → ℕ × ℕ → Text
unfolding climb joined
relative_rest ps (down, up) =
    if (down == up) && no_more ps
    then bytes "."
    else if ltb down up
    then []
    else joined [] (climb (down - up) ps)

unfoldable pub lexically_relative : Text → Text → Text
unfolding elements mismatch levels relative_rest
lexically_relative path base =
    if not (is_absolute path == is_absolute base)
    then []
    else let (ps, bs) = mismatch (elements path) (elements base) in
      relative_rest ps (levels bs (0, 0))

module _ (P : Platform) (sysfs_root : Text) where
  open P use {Machine, weakly_canonical, is_directory}

  unfoldable pub check_contained : Machine → Text → Text → Text → Result Text
  unfolding lexically_relative
  check_contained m path canonical root =
      let rel = lexically_relative canonical root in
      if is_empty rel || starts_with rel (bytes "..")
      then make_error not_found (bytes "path outside sysfs root: " ++ path)
      else if not (is_directory m canonical)
      then make_error not_found (bytes "device no longer present: " ++ path)
      else ok canonical

  unfoldable pub canonical_contained : Machine → Text → Result Text
  unfolding check_contained
  canonical_contained m path = elim (weakly_canonical m path) [
    | none ↦ make_error not_found (bytes "cannot resolve " ++ path)
    | some canonical ↦ elim (weakly_canonical m sysfs_root) [
      | none ↦ make_error not_found (bytes "path outside sysfs root: " ++ path)
      | some root ↦ check_contained m path canonical root
    ]
  ]
