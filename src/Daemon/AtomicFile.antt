-- ===== src/Daemon/AtomicFile.antt =====
-- daemon/src/atomic_file.cpp over a directory, with the outcome of each system call as an argument.
pub mod Atomicity
pub mod Quarantine
use cross_device_manager.Base.{
  ℕ, zero, suc, ◌+◌, Bool, true, false, Option, none, some, [], ◌++◌, ◌||◌, Text, bytes, text_eq,
  ◌==◌, is_empty, ends_with, length, if◌then◌else◌,
}
use cross_device_manager.Base.Int.{decimal}
use cross_device_manager.Base.Result.{Result, ok, make_error, io}
use cross_device_manager.Base.Dict.{Dict, lookup, insert, erase, contains}

-- The names of a directory with the contents of the files.
abbrev pub Files : Type 0
Files = Dict Text Text

-- `dir / name` for a name that is not absolute.
unfoldable pub join_path : Text → Text → Text
join_path dir name =
    if is_empty dir || ends_with dir (bytes "/") then dir ++ name else dir ++ (bytes "/" ++ name)

-- How the calls of one write end: `some` is an error, with its message.
pub record Faults : Type 0 where
  pub cannot_open : Bool
  pub short_write : Option Text
  pub file_sync : Option Text
  pub rename_error : Option Text
  pub dir_sync : Option Text
  pub unlink_error : Option Text

abbrev pub no_faults : Faults
no_faults = record {
  cannot_open = false;
  short_write = none;
  file_sync = none;
  rename_error = none;
  dir_sync = none;
  unlink_error = none;
}

unfoldable pub tmp_name : Text → Text
tmp_name name = name ++ bytes ".tmp"

-- `fs::rename(tmp, file)`: the new name takes the content, the old one is gone.
unfoldable pub rename : Text → Text → Files → Files
rename from to files = elim (lookup from files) [
  | none ↦ files
  | some content ↦ insert to content (erase from files)
]

-- From the rename on. An error of the last sync comes after the new content is in place.
unfoldable pub publish : Faults → Text → Text → Files → Result (Unit {0}) × Files
publish faults dir name files = elim faults.rename_error [
  | some message ↦ (make_error io (bytes "rename failed: " ++ message), erase (tmp_name name) files)
  | none ↦
      let moved = rename (tmp_name name) name files in
      elim faults.dir_sync [ some message ↦ (make_error io message, moved) | none ↦ (ok tt, moved) ]
]

-- From the sync of the temporary file on.
unfoldable pub sync_and_publish : Faults → Text → Text → Files → Result (Unit {0}) × Files
sync_and_publish faults dir name files = elim faults.file_sync [
  | some message ↦ (make_error io message, erase (tmp_name name) files)
  | none ↦ publish faults dir name files
]

unfoldable pub atomic_write_file : Faults → Text → Text → Text → Files → Result (Unit {0}) × Files
atomic_write_file faults dir name content files =
    if faults.cannot_open
    then (make_error io (bytes "cannot write " ++ join_path dir (tmp_name name)), files)
    else elim faults.short_write [
      | some partial ↦ (
        make_error io (bytes "write failed: " ++ join_path dir (tmp_name name)),
        erase (tmp_name name) (insert (tmp_name name) partial files),
      )
      | none ↦ sync_and_publish faults dir name (insert (tmp_name name) content files)
    ]

-- The loop for a free name: `base`, then `base.1`, `base.2` and so on.
unfoldable pub numbered : Text → ℕ → Text
unfolding decimal
numbered base zero = base
numbered base (suc n) = base ++ (bytes "." ++ decimal (suc n))

unfoldable pub free_name : ℕ → Text → ℕ → Files → Option Text
free_name zero base n files = none
free_name (suc fuel) base n files =
    let next = free_name fuel base (suc n) files in
    if contains (numbered base n) files then next else some (numbered base n)

-- `quarantineFile` at the time `now`: the name is given also if the rename fails, whose error is
-- ignored. One more round than there are files finds a free name.
unfoldable pub quarantine_file : Option Text → ℕ → Text → Files → Option (Text × Files)
quarantine_file rename_error now name files =
    let base = name ++ (bytes ".bad-" ++ decimal now) in
    elim (free_name (suc (length files)) base 0 files) [
      | none ↦ none
      | some bad ↦ some (bad, elim rename_error [ none ↦ rename name bad files | some _ ↦ files ])
    ]
