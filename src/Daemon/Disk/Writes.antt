-- ===== src/Daemon/Disk/Writes.antt =====
-- A write that reports success can be read back.
use cross_device_manager.Base.{◌≡◌, ◌≢◌, Text, some, arith, sym, text_eq, ◌==◌, if◌then◌else◌}
use cross_device_manager.Base.Result.{Result, ok, err}
use cross_device_manager.Base.Dict.{lookup}
use cross_device_manager.Daemon.AtomicFile.{tmp_name, atomic_write_file, Files}
use cross_device_manager.Daemon.AtomicFile.Atomicity.{atomic_write_file-Atomic, Atomic, tmp_name-ne}
use cross_device_manager.Daemon.Disk.{Disk, write_file, next_faults}

ok_written :
    (j : Text) (files after : Files) (name content : Text) (r : Result (Unit {0}))
    → Atomic j files name content (r, after)
    → r ≡ ok tt
    → lookup j after ≡ (if j == name then some content else lookup j files)
ok_written j files after name content (ok u) a e = a
ok_written j files after name content (err x) a e = absurd (cc)

pub lookup-write_file :
    (name content : Text) (disk : Disk) (j : Text)
    → j ≢ tmp_name name
    → (write_file name content disk).0 ≡ ok tt
    → lookup j (write_file name content disk).1.files
      ≡ (if j == name then some content else lookup j disk.files)
unfolding write_file
lookup-write_file name content disk j h e =
    ok_written j disk.files _ name content
      (atomic_write_file (next_faults disk.coming) disk.path name content disk.files).0
      (atomic_write_file-Atomic j (next_faults disk.coming) disk.path name content disk.files h) e

pub lookup-write_file_self :
    (name content : Text) (disk : Disk)
    → (write_file name content disk).0 ≡ ok tt
    → lookup name (write_file name content disk).1.files ≡ some content
lookup-write_file_self name content disk e =
    ground (arith, lookup-write_file name content disk name (λ f. tmp_name-ne name (sym f)) e)
