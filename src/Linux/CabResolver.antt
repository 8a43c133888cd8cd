-- ===== src/Linux/CabResolver.antt =====
-- platform/linux/src/cab_resolver.cpp: the file of a firmware release. The file system is a parameter;
-- the open descriptor stands for the file that was opened.
pub mod Opened
use cross_device_manager.Base.{
  ℕ, ◌+◌, ◌*◌, ◌/◌, ◌%◌, ◌^◌, Bool, true, false, not, ◌&&◌, ◌||◌, Option, none, some, List, [], ◌∷◌,
  ◌++◌, Text, bytes, text_eq, nat_eq, ◌==◌, ltb, is_empty, starts_with, has_sub, drop, find_if,
  if◌then◌else◌,
}
use cross_device_manager.Base.Result.{Result, ok, make_error, not_found, unsupported}
use cross_device_manager.Daemon.AtomicFile.{join_path}
use cross_device_manager.Daemon.Containment.{lexically_relative}

pub record RemoteRef : Type 0 where
  pub id : Text
  pub kind : Text
  pub filename_cache : Text

pub record CabFile (Fd : Type 0) : Type 0 where
  pub fd : Fd
  pub size_bytes : ℕ

-- `weakly_canonical`; `open` with `O_NOFOLLOW`, and the size by `fstat`, unless it is no regular file.
pub record FileSystem : Type 1 where
  pub Fd : Type 0
  pub weakly_canonical : Text → Option Text
  pub open_file : Text → Option Fd
  pub regular_size : Fd → Option ℕ

abbrev pub hard_cap_bytes : ℕ
hard_cap_bytes = 536_870_912

abbrev pub file_scheme : Text
file_scheme = bytes "file://"

unfoldable pub find_remote : List RemoteRef → Text → Option RemoteRef
unfolding find_if
find_remote remotes id = find_if (λ r. r.id == id) remotes

abbrev in_directory : Text → Option RemoteRef → Text
in_directory loc none = []
in_directory loc (some r) =
    if r.kind == bytes "directory" then join_path r.filename_cache loc else []

-- Empty for a location that is no local path.
unfoldable pub candidate_path : Text → List RemoteRef → Text → Text
unfolding starts_with has_sub join_path find_remote is_empty
candidate_path loc remotes remote_id =
    if is_empty loc
    then []
    else if starts_with loc file_scheme
    then drop 7 loc
    else if has_sub (bytes "://") loc
    then []
    else if starts_with loc (bytes "/")
    then loc
    else in_directory loc (find_remote remotes remote_id)

unfoldable pub is_locally_resolvable : List Text → List RemoteRef → Text → Bool
unfolding candidate_path is_empty
is_locally_resolvable [] remotes remote_id = false
is_locally_resolvable (loc ∷ locs) remotes remote_id =
    not (is_empty (candidate_path loc remotes remote_id))
    || is_locally_resolvable locs remotes remote_id

-- One and a half times the expected size, in 64 bits, but never above the hard cap.
unfoldable pub size_cap : ℕ → ℕ
size_cap expected =
    let generous = (expected + expected / 2) % 2 ^ 64 in
    if ltb 0 expected
    then (if ltb hard_cap_bytes generous then hard_cap_bytes else generous)
    else hard_cap_bytes

module _ (F : FileSystem) where
  open F use {Fd, weakly_canonical, open_file, regular_size}

  unfoldable pub escapes_root : Text → Text → Bool
  unfolding lexically_relative is_empty starts_with
  escapes_root candidate root = elim (weakly_canonical candidate) [
    | none ↦ true
    | some canon ↦ elim (weakly_canonical root) [
      | none ↦ true
      | some canon_root ↦
          is_empty (lexically_relative canon canon_root)
          || starts_with (lexically_relative canon canon_root) (bytes "..")
    ]
  ]

  abbrev pub outside : Text → Option RemoteRef → Bool
  outside path none = true
  outside path (some r) = escapes_root path r.filename_cache

  -- Does a relative location leave the directory of its remote?
  unfoldable pub relative_escape : Text → Text → List RemoteRef → Text → Bool
  unfolding starts_with find_remote escapes_root
  relative_escape loc path remotes remote_id =
      if starts_with loc (bytes "/") || starts_with loc file_scheme
      then false
      else outside path (find_remote remotes remote_id)

  unfoldable pub validate : Text → ℕ → Fd → Result (CabFile Fd)
  unfolding size_cap
  validate path expected fd = elim (regular_size fd) [
    | none ↦ make_error unsupported (bytes "firmware location is not a regular file: " ++ path)
    | some size ↦
        if (size == 0) || ltb (size_cap expected) size
        then make_error unsupported (bytes "firmware file size out of bounds: " ++ path)
        else ok (record { fd = fd; size_bytes = size })
  ]

  unfoldable pub open_and_validate : Text → ℕ → Result (CabFile Fd)
  unfolding validate
  open_and_validate path expected = elim (open_file path) [
    | none ↦ make_error not_found (bytes "cannot open firmware file: " ++ path)
    | some fd ↦ validate path expected fd
  ]

  -- The first location that is a local path decides.
  unfoldable pub resolve_and_open_cab : List Text → List RemoteRef → Text → ℕ → Result (CabFile Fd)
  unfolding candidate_path is_empty relative_escape open_and_validate
  resolve_and_open_cab [] remotes remote_id expected =
      make_error unsupported
        (bytes "no locally-resolvable firmware location (run `fwupdmgr update`)")
  resolve_and_open_cab (loc ∷ locs) remotes remote_id expected =
      let rest = resolve_and_open_cab locs remotes remote_id expected in
      let path = candidate_path loc remotes remote_id in
      if is_empty path
      then rest
      else if relative_escape loc path remotes remote_id
      then make_error unsupported (bytes "cab location escapes remote directory: " ++ loc)
      else open_and_validate path expected
