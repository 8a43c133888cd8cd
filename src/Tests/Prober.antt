-- ===== src/Tests/Prober.antt =====
-- A machine with a root on an encrypted volume, for the probe of the critical devices.
use cross_device_manager.Base.{
  ℕ, ◌<◌, ◌≡◌, refl, ◌↔◌, inl, inr, true, false, Option, none, some, [], ◌∷◌, Text, bytes, Elem,
  text_eq, nat_eq, ◌==◌, List, Bool-cases, ap, sym, subst, if◌then◌else◌, arith,
}
use cross_device_manager.Base.Result.{ok}
use cross_device_manager.Models.{CriticalityFacts}
use cross_device_manager.Guard.{evaluate_disable}
use cross_device_manager.Linux.CriticalityProber.{
  Listing, absent, named, slaves_of, SystemFiles, bit_set, is_keyboard, is_pointer, expand_block,
  probe,
}
use cross_device_manager.Linux.CriticalityProber.Leaves.{Leaf, itself, below, Descends}
use cross_device_manager.Linux.CriticalityProber.Guarded.{probe_guards}

abbrev disk : Text
disk = bytes "/sys/devices/pci0/nvme0"

abbrev class_block : Text
class_block = bytes "/sys/class/block"

abbrev fstab : Text
fstab = bytes "proc /proc proc rw 0 0\n/dev/mapper/root / ext4 rw 0 0\n"

abbrev with_slaves : Text
with_slaves = bytes "/sys/class/block/dm-0/slaves"

-- `dm-0` stands on `nvme0`.
abbrev machine : SystemFiles
machine = record {
  canonical = λ path.
      if path == bytes "/dev/mapper/root"
      then some (bytes "/dev/dm-0")
      else if path == bytes "/sys/class/block/nvme0"
      then some disk
      else none;
  listing = λ path. if path == with_slaves then named (bytes "nvme0" ∷ []) else absent;
  first_line = λ path. [];
  contents = λ path. some fstab;
}

abbrev depth : Text → ℕ
depth name = if slaves_of class_block name == with_slaves then 1 else 0

abbrev names_of : Listing → List Text
names_of (named names) = names
names_of _ = []

machine-Descends : Descends machine class_block depth
unfolding text_eq cross_device_manager.Daemon.AtomicFile.join_path
    cross_device_manager.Base.is_empty cross_device_manager.Base.ends_with nat_eq
machine-Descends name slave slaves e i =
    elim (Bool-cases (slaves_of class_block name == with_slaves)) [
      | inl top ↦
          let only : bytes "nvme0" ∷ [] ≡ slaves = ap names_of (rw top at e) in
          elim (subst (Elem slave) (sym only) i) [
            | inl same ↦ rw (top, same) (omega arith)
            | inr rest ↦ elim rest [ ]
          ]
      | inr bare ↦ absurd (cc (rw bare at e))
    ]

abbrev found : CriticalityFacts
found = record {
  root_backing_paths = disk ∷ [];
  boot_backing_paths = [];
  keyboard_paths = [];
  pointer_paths = [];
}

probed : probe machine 2 (bytes "/sys") (bytes "/proc/self/mounts") ≡ ok found
unfolding probe text_eq cross_device_manager.Base.ends_with nat_eq
    cross_device_manager.Base.after_last
probed = refl

on_disk : Leaf machine class_block (bytes "dm-0") disk
unfolding text_eq nat_eq cross_device_manager.Daemon.AtomicFile.join_path
    cross_device_manager.Base.ends_with cross_device_manager.Base.is_empty
    cross_device_manager.Base.starts_with
on_disk =
    below {name = bytes "dm-0"} (bytes "nvme0" ∷ []) refl (inl refl)
      (itself {name = bytes "nvme0"} (inl refl) refl)

probe_guards_example : (evaluate_disable found disk).allowed ≡ false
unfolding cross_device_manager.Daemon.AtomicFile.join_path cross_device_manager.Base.is_empty
    cross_device_manager.Base.ends_with nat_eq cross_device_manager.SnapshotDiff.lines
    cross_device_manager.Linux.CriticalityProber.mount_of text_eq
    cross_device_manager.Keys.last_segment cross_device_manager.Base.after_last
    cross_device_manager.Guard.is_under
probe_guards_example =
    probe_guards machine depth 2 (bytes "/sys") (bytes "/proc/self/mounts") fstab found
      (bytes "/dev/mapper/root / ext4 rw 0 0") (bytes "/dev/mapper/root") (bytes "/")
      (bytes "/dev/dm-0") disk disk machine-Descends refl probed (inr (inl refl)) refl (inl refl)
      refl refl (omega arith) on_disk refl

-- The top row of letters, as the kernel prints it.
keyboard_row : is_keyboard (bytes "10000 3ff0000") ≡ true
unfolding is_keyboard nat_eq
keyboard_row = refl

missing_letter : is_keyboard (bytes "10000 1ff0000") ≡ false
unfolding is_keyboard nat_eq
missing_letter = refl

mouse : is_pointer (bytes "1943") ≡ true
unfolding is_pointer nat_eq
mouse = refl

high_word : bit_set (bytes "1 0") 64 ≡ true
unfolding bit_set nat_eq
high_word = refl
