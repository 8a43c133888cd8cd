-- ===== src/Tests/Store.antt =====
-- Examples for the files, the containment check and the state store.
use cross_device_manager.Base.{
  ℕ, ◌≡◌, ◌≢◌, refl, ◌⊎◌, inl, inr, Bool, true, false, Option, none, some, List, [], ◌∷◌, ◌++◌,
  Text, bytes, nat_eq, text_eq, ◌==◌, if◌then◌else◌, is_empty, All, arith,
}
use cross_device_manager.Base.Dict.{lookup, contains}
use cross_device_manager.Json.{is_ascii, fits_64}
use cross_device_manager.Models.{key_eq, DisabledDeviceEntry}
use cross_device_manager.Daemon.AtomicFile.{
  Files, Faults, no_faults, tmp_name, atomic_write_file, quarantine_file,
}
use cross_device_manager.Daemon.AtomicFile.Quarantine.{bad_name}
use cross_device_manager.Daemon.Disk.{next_faults}
use cross_device_manager.Daemon.AtomicFile.Atomicity.{Atomic, atomic_write_file-Atomic}
use cross_device_manager.Daemon.Containment.{canonical_contained, elements}
use cross_device_manager.Daemon.Containment.Below.{Plain, canonical_contained_below}
use cross_device_manager.Daemon.StateStore.{
  StateStore, entries_of_text, state_file, upsert, remove, set_guard_suspended, save, load,
}
use cross_device_manager.Daemon.StateStore.Entries.{find_key, find_key-methods}
use cross_device_manager.Daemon.StateStore.Persistence.{IsStorable, load-save, load_keeps_evidence}
use cross_device_manager.Tests.Codec.{toy_json, toy_json-IsLawful}
use cross_device_manager.Tests.Toy.{
  toy_platform, sysfs, stick_path, stick_entry, other_entry, stick_key, store_with, empty_disk,
}

abbrev old_files : Files
old_files = (state_file, bytes "old") ∷ []

-- The rename fails.
abbrev stuck : Faults
stuck = record no_faults { rename_error = some (bytes "Read-only file system") }

atomic_write_file-Atomic_example :
    Atomic state_file old_files state_file
      (bytes "new")
      (atomic_write_file stuck (bytes "/var/lib/devmgr") state_file (bytes "new") old_files)
unfolding tmp_name
atomic_write_file-Atomic_example =
    atomic_write_file-Atomic state_file stuck (bytes "/var/lib/devmgr") state_file (bytes "new")
      old_files (λ e. cc)

sysfs-Plain : All Plain (elements sysfs)
unfolding elements cross_device_manager.Daemon.Containment.is_absolute
    cross_device_manager.Base.starts_with nat_eq text_eq is_empty
sysfs-Plain = ((refl, refl, refl), ((refl, refl, refl), ((refl, refl, refl), tt)))

canonical_contained_below_example :
    (some stick_path ≡ some stick_path)
    × (true ≡ true)
    × ((rest : List Text) × (elements stick_path ≡ elements sysfs ++ rest))
unfolding elements canonical_contained is_empty cross_device_manager.Base.bool_eq
    cross_device_manager.Daemon.Containment.is_absolute cross_device_manager.Base.starts_with nat_eq
    text_eq cross_device_manager.Daemon.AtomicFile.join_path cross_device_manager.Base.ends_with
canonical_contained_below_example =
    canonical_contained_below toy_platform sysfs [] stick_path stick_path sysfs refl sysfs-Plain
      refl

find_key-methods_example :
    (find_key stick_key (upsert toy_json other_entry (store_with (stick_entry ∷ []))).1.entries ≡ (
      if other_entry.key == stick_key
      then some other_entry
      else find_key stick_key (stick_entry ∷ [])))
    × (find_key stick_key (remove toy_json stick_key (store_with (stick_entry ∷ []))).1.entries
        ≡ (if stick_key == stick_key then none else find_key stick_key (stick_entry ∷ [])))
    × (find_key stick_key
          (set_guard_suspended toy_json stick_key true (store_with (stick_entry ∷ []))).1.entries
        ≡ (if stick_key == stick_key
            then elim (find_key stick_key (stick_entry ∷ [])) [
              | none ↦ none
              | some e ↦ some (record e { guard_suspended = true })
            ]
            else find_key stick_key (stick_entry ∷ [])))
find_key-methods_example =
    find_key-methods toy_json other_entry stick_key stick_key true (store_with (stick_entry ∷ []))

stick-IsStorable : IsStorable toy_json stick_entry
unfolding is_ascii cross_device_manager.Json.in_int64
stick-IsStorable = record {
  bus = refl;
  vendor_id = refl;
  product_id = refl;
  serial = refl;
  position = refl;
  mechanism = refl;
  last_driver = refl;
  last_sysfs_path = refl;
  disabled_at_utc = refl;
}

load-save_example :
    load toy_json 77
      (record { entries = []; disk = (save toy_json (store_with (stick_entry ∷ []))).1.disk })
    ≡ (save toy_json (store_with (stick_entry ∷ []))).1
unfolding save cross_device_manager.Daemon.Disk.write_file atomic_write_file
    cross_device_manager.Daemon.Disk.next_faults
    cross_device_manager.Daemon.AtomicFile.sync_and_publish
    cross_device_manager.Daemon.AtomicFile.publish
load-save_example =
    load-save toy_json toy_json-IsLawful 77 (store_with (stick_entry ∷ [])) []
      (stick-IsStorable, tt) refl

-- A state file that is no document, and another file.
abbrev two_files : Files
two_files = (state_file, bytes "old") ∷ (bytes "notes", bytes "mine") ∷ []

abbrev restarted : StateStore
restarted = record { entries = []; disk = record empty_disk { files = two_files } }

load_keeps_evidence_example :
    let after = (load toy_json 77 restarted).disk.files in
    ((bytes "notes" ≡ state_file)
      ⊎ ((contains (bytes "notes") two_files ≡ false)
          ⊎ (lookup (bytes "notes") after ≡ lookup (bytes "notes") two_files)))
    × (((lookup state_file after ≡ some (bytes "old"))
          × (((es : List DisabledDeviceEntry) × (entries_of_text toy_json (bytes "old") ≡ some es))
              ⊎ ((message : Text) × ((next_faults []).rename_error ≡ some message))))
        ⊎ ((lookup state_file after ≡ none)
            × (n : ℕ) × (contains (bad_name state_file 77 n) two_files ≡ false)
            × (lookup (bad_name state_file 77 n) after ≡ some (bytes "old"))))
unfolding lookup text_eq
load_keeps_evidence_example =
    load_keeps_evidence toy_json 77 restarted (bytes "old") (bytes "notes") refl

moved_aside :
    lookup (bytes "state.json.bad-77") (load toy_json 77 restarted).disk.files ≡ some (bytes "old")
unfolding lookup load text_eq quarantine_file cross_device_manager.Daemon.AtomicFile.free_name
    contains cross_device_manager.Daemon.AtomicFile.numbered
    cross_device_manager.Daemon.AtomicFile.rename cross_device_manager.Base.Dict.insert
    cross_device_manager.Base.Dict.erase
moved_aside = refl
