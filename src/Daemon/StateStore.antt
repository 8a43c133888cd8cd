-- ===== src/Daemon/StateStore.antt =====
-- daemon/src/state_store.cpp: the persisted list of the devices that the daemon keeps disabled.
-- Each method holds the store's lock from its first line to its last, so it is one step here.
pub mod Entries
pub mod Persistence
use cross_device_manager.Base.{
  ℕ, Bool, true, false, ◌||◌, not, Option, none, some, List, [], ◌∷◌, ◌++◌, Text, bytes, text_eq,
  ◌==◌, if◌then◌else◌, find_if,
}
use cross_device_manager.Base.Int.{ℤ, pos}
use cross_device_manager.Base.Result.{Result, ok, err, make_error, not_found}
use cross_device_manager.Base.Op.{Op}
use cross_device_manager.Base.Dict.{lookup}
use cross_device_manager.Base.Maybe.{◌>>=◌}
use cross_device_manager.Models.{Device, DeviceKey, DisabledDeviceEntry, key_eq}
use cross_device_manager.Keys.{matches_device}
use cross_device_manager.Json
use cross_device_manager.Json.{Json, Library, Items, at, fields_of}
use cross_device_manager.Daemon.AtomicFile.{quarantine_file}
use cross_device_manager.Daemon.EntryJson.{entries_to_json, entries_from_items}
use cross_device_manager.Daemon.Disk.{Disk, write_file, next_faults, later_faults}

pub record StateStore : Type 0 where
  pub entries : List DisabledDeviceEntry
  pub disk : Disk

abbrev pub state_file : Text
state_file = bytes "state.json"

unfoldable pub state_document : List DisabledDeviceEntry → Json
unfolding entries_to_json fields_of
state_document es = Json.object (
    fields_of
      ((bytes "version", Json.integer (pos 1)) ∷ (bytes "entries", entries_to_json es) ∷ []))

-- `is_object`, `contains("entries")` and `is_array` in one.
unfoldable pub entries_array : Json → Option Items
unfolding at
entries_array doc = elim (at (bytes "entries") doc) [ some (Json.array js) ↦ some js | _ ↦ none ]

-- `it->second` of the first entry with the key replaced by `f`, if there is one.
unfoldable pub update_entry :
    DeviceKey
    → (DisabledDeviceEntry → DisabledDeviceEntry)
    → List DisabledDeviceEntry
    → Option (List DisabledDeviceEntry)
update_entry key f [] = none
update_entry key f (e ∷ es) =
    let rest = update_entry key f es in
    if e.key == key then some (f e ∷ es) else elim rest [ none ↦ none | some es' ↦ some (e ∷ es') ]

unfoldable pub upsert_entry :
    DisabledDeviceEntry → List DisabledDeviceEntry → List DisabledDeviceEntry
unfolding update_entry
upsert_entry entry es = elim (update_entry entry.key (λ _. entry) es) [
  | some es' ↦ es'
  | none ↦ es ++ (entry ∷ [])
]

-- `std::erase_if` by the key.
unfoldable pub erase_key : DeviceKey → List DisabledDeviceEntry → List DisabledDeviceEntry
erase_key key [] = []
erase_key key (e ∷ es) = let rest = erase_key key es in if e.key == key then rest else e ∷ rest

-- The test of `findFor`.
unfoldable pub entry_matches : Device → DisabledDeviceEntry → Bool
entry_matches device e = matches_device e.key device || (e.last_sysfs_path == device.sysfs_path)

unfoldable pub find_for : Device → StateStore → Option DisabledDeviceEntry
unfolding entry_matches
find_for device store = find_if (entry_matches device) store.entries

module _ (L : Library) where
  unfoldable pub save : Op StateStore (Unit {0})
  save store =
      let (r, disk) =
        write_file state_file (L.dump_pretty (state_document store.entries)) store.disk in
      (r, record store { disk = disk })

  unfoldable pub upsert : DisabledDeviceEntry → Op StateStore (Unit {0})
  unfolding save upsert_entry
  upsert entry store = save (record store { entries = upsert_entry entry store.entries })

  unfoldable pub remove : DeviceKey → Op StateStore (Unit {0})
  unfolding save erase_key
  remove key store = save (record store { entries = erase_key key store.entries })

  unfoldable pub replace_all : List DisabledDeviceEntry → Op StateStore (Unit {0})
  unfolding save
  replace_all entries store = save (record store { entries = entries })

  -- The loops of `setGuardSuspended` and `setLastSysfsPath`.
  unfoldable pub modify :
      DeviceKey → (DisabledDeviceEntry → DisabledDeviceEntry) → Op StateStore (Unit {0})
  unfolding save update_entry
  modify key f store = elim (update_entry key f store.entries) [
    | none ↦ (make_error not_found (bytes "no entry for key"), store)
    | some es ↦ save (record store { entries = es })
  ]

  unfoldable pub set_guard_suspended : DeviceKey → Bool → Op StateStore (Unit {0})
  unfolding modify
  set_guard_suspended key suspended = modify key (λ e. record e { guard_suspended = suspended })

  unfoldable pub set_last_sysfs_path : DeviceKey → Text → Op StateStore (Unit {0})
  unfolding modify
  set_last_sysfs_path key path = modify key (λ e. record e { last_sysfs_path = path })

  unfoldable pub entries_of_text : Text → Option (List DisabledDeviceEntry)
  unfolding entries_array entries_from_items
  entries_of_text text = do doc ← L.parse text; js ← entries_array doc; entries_from_items js

  -- `quarantineFile` at the time `now`.
  unfoldable pub quarantine_state : ℕ → Disk → Disk
  unfolding next_faults later_faults
  quarantine_state now disk =
      elim (quarantine_file (next_faults disk.coming).rename_error now state_file disk.files) [
        | none ↦ disk
        | some (bad, files) ↦ record disk { files = files; coming = later_faults disk.coming }
      ]

  unfoldable pub load : ℕ → StateStore → StateStore
  unfolding entries_of_text quarantine_state
  load now store = elim (lookup state_file store.disk.files) [
    | none ↦ record store { entries = [] }
    | some text ↦ elim (entries_of_text text) [
      | none ↦ record { entries = []; disk = quarantine_state now store.disk }
      | some es ↦ record store { entries = es }
    ]
  ]
