-- ===== src/Daemon/Disk.antt =====
-- A directory of the daemon, with the outcomes of its coming writes: none listed means no error.
pub mod Writes
use cross_device_manager.Base.{Option, none, some, List, [], ◌∷◌, Text, text_eq}
use cross_device_manager.Base.Result.{Result, ok, err}
use cross_device_manager.Base.Op.{Op}
use cross_device_manager.Base.Dict.{erase}
use cross_device_manager.Base.Dict.{lookup}
use cross_device_manager.Daemon.AtomicFile.{Files, Faults, no_faults, atomic_write_file}

pub record Disk : Type 0 where
  pub path : Text
  pub files : Files
  pub coming : List Faults

unfoldable pub next_faults : List Faults → Faults
next_faults [] = no_faults
next_faults (f ∷ fs) = f

unfoldable pub later_faults : List Faults → List Faults
later_faults [] = []
later_faults (f ∷ fs) = fs

unfoldable pub write_file : Text → Text → Op Disk (Unit {0})
write_file name content disk =
    let (r, files) =
      atomic_write_file (next_faults disk.coming) disk.path name content disk.files in
    (r, record disk { files = files; coming = later_faults disk.coming })

-- `fs::remove(dir / name, ec)`: the message of `ec`, if it is set.
unfoldable pub remove_file : Text → Disk → Option Text × Disk
remove_file name disk =
    let later = later_faults disk.coming in
    elim (next_faults disk.coming).unlink_error [
      | some message ↦ (some message, record disk { coming = later })
      | none ↦ (none, record disk { files = erase name disk.files; coming = later })
    ]
