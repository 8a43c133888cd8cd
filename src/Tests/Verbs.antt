-- ===== src/Tests/Verbs.antt =====
-- Examples for the verbs and the enforcement.
use cross_device_manager.Base.{
  ◌≡◌, ◌≢◌, refl, ◌⊎◌, inl, inr, Bool, true, false, Option, none, some, List, [], ◌∷◌, Text, bytes,
  nat_eq, text_eq, ◌==◌, if◌then◌else◌, arith, any_of, length, ◌≤◌, eq_refl,
}
use cross_device_manager.Base.Dict.{lookup}
use cross_device_manager.Base.Result.{ok, err, Error, invalid_args}
use cross_device_manager.Models.{CriticalityFacts, DisabledDeviceEntry, key_eq, status_eq}
use cross_device_manager.Guard.{evaluate_disable}
use cross_device_manager.Daemon.StateStore.{state_file, state_document, entry_matches}
use cross_device_manager.Daemon.StateStore.Entries.{find_key}
use cross_device_manager.Daemon.Containment.{canonical_contained}
use cross_device_manager.Daemon.Enforcement.{sweep}
use cross_device_manager.Daemon.Enforcement.Discipline.{sweep-inv}
use cross_device_manager.Daemon.Enforcement.Sweeping.{sweep_applies}
use cross_device_manager.Daemon.Enforcement.{sweep, needs_apply}
use cross_device_manager.Daemon.World.{World}
use cross_device_manager.Daemon.Requests.{
  authorize, guard_module_unload, apply_disable, apply_enable, is_entry_of, key_to_store,
  disabled_entry,
}
use cross_device_manager.Daemon.Requests.Refusals.{
  set_device, unload, process, process_unauthorized, process_malformed, process_guarded,
}
use cross_device_manager.Daemon.Requests.Safety.{Closed, process-Closed}
use cross_device_manager.Daemon.Requests.Devices.{apply_disable_persists}
use cross_device_manager.Tests.Toy.{
  toy, alice, mallory, stick_path, keyboard_path, stick, stick_key, stick_entry, other_entry,
  world_with, toy_facts,
}

process_unauthorized_example :
    ((process toy mallory (set_device stick_path false) (world_with [])).0 ≢ ok tt)
    × ((process toy mallory (set_device stick_path false) (world_with [])).1 ≡ world_with [])
unfolding authorize text_eq nat_eq
process_unauthorized_example =
    process_unauthorized toy (world_with []) mallory (set_device stick_path false) (λ e. cc)

abbrev bad_name : Error
bad_name = record { code = invalid_args; message = bytes "invalid module name" }

process_malformed_example :
    process toy alice (unload (bytes "../uas")) (world_with []) ≡ (err bad_name, world_with [])
unfolding cross_device_manager.Validation.caller cross_device_manager.Base.is_empty
    cross_device_manager.Validation.name cross_device_manager.Base.all_bytes
    cross_device_manager.Validation.is_name_byte nat_eq
process_malformed_example =
    process_malformed toy (world_with []) alice (unload (bytes "../uas")) bad_name refl

process_guarded_example :
    (canonical : Text) × (facts : CriticalityFacts) × (canonical_contained toy.platform
        toy.sysfs_root [] stick_path
      ≡ ok canonical)
    × (ok toy_facts ≡ ok facts)
    × ((evaluate_disable facts canonical).allowed ≡ true)
unfolding cross_device_manager.Daemon.Requests.set_device_enabled
    cross_device_manager.Validation.caller cross_device_manager.Base.is_empty
    cross_device_manager.Validation.sysfs_path cross_device_manager.Base.has_byte nat_eq
    canonical_contained cross_device_manager.Base.bool_eq
    cross_device_manager.Daemon.Containment.is_absolute cross_device_manager.Base.starts_with
    text_eq cross_device_manager.Daemon.AtomicFile.join_path cross_device_manager.Base.ends_with
    evaluate_disable cross_device_manager.Guard.any_under any_of cross_device_manager.Guard.is_under
    cross_device_manager.Guard.would_remove_all cross_device_manager.Base.all_of
    cross_device_manager.Daemon.Snapshots.create apply_disable
    cross_device_manager.Daemon.StateStore.upsert cross_device_manager.Daemon.Disk.write_file
    cross_device_manager.Daemon.AtomicFile.atomic_write_file
    cross_device_manager.Daemon.Disk.next_faults
    cross_device_manager.Daemon.AtomicFile.sync_and_publish
    cross_device_manager.Daemon.AtomicFile.publish
process_guarded_example = process_guarded toy (world_with []) alice stick_path (inl refl)

process-Closed_example :
    Closed {E = toy}
      (bytes "SetDeviceEnabled")
      (world_with [])
      (process toy alice (set_device stick_path false) (world_with [])).1
process-Closed_example = process-Closed toy (world_with []) alice (set_device stick_path false) refl

apply_disable_persists_example :
    let after = (apply_disable toy stick_path (world_with [])).1 in
    (applied : Option Text) × (entry : DisabledDeviceEntry) × (toy.platform.set_enabled stick_path
        false [] []
      ≡ (ok applied, after.machine))
    × (find_key (key_to_store toy stick_path []) after.state.entries ≡ some entry)
    × (entry.key ≡ key_to_store toy stick_path [])
    × (entry.last_sysfs_path ≡ stick_path)
    × (entry.guard_suspended ≡ false)
    × (entry.mechanism
        ≡ (elim applied [ none ↦ bytes "authorized" | some driver ↦ bytes "unbind" ]))
    × (entry.last_driver ≡ (elim applied [ none ↦ [] | some driver ↦ driver ]))
    × (entry.disabled_at_utc ≡ toy.platform.now_utc after.machine)
    × (lookup state_file after.state.disk.files
        ≡ some (toy.json.dump_pretty (state_document after.state.entries)))
unfolding apply_disable cross_device_manager.Daemon.StateStore.upsert
    cross_device_manager.Daemon.Disk.write_file
    cross_device_manager.Daemon.AtomicFile.atomic_write_file
    cross_device_manager.Daemon.Disk.next_faults
    cross_device_manager.Daemon.AtomicFile.sync_and_publish
    cross_device_manager.Daemon.AtomicFile.publish
apply_disable_persists_example = apply_disable_persists toy (world_with []) stick_path refl

-- The same stick, stored once more by its port.
abbrev by_port : DisabledDeviceEntry
by_port = record stick_entry { key = record stick_key { serial = []; position = bytes "1-2" } }

-- The keyboard stays on.
abbrev KeyboardOn : List Text → Type 0
KeyboardOn off = any_of (λ p. p == keyboard_path) off ≡ false

keyboard_refused : (evaluate_disable toy_facts keyboard_path).allowed ≡ false
unfolding evaluate_disable cross_device_manager.Guard.any_under any_of
    cross_device_manager.Guard.is_under cross_device_manager.Base.is_empty
    cross_device_manager.Guard.would_remove_all cross_device_manager.Base.all_of
    cross_device_manager.Base.starts_with nat_eq
keyboard_refused = refl

keeps_keyboard :
    (m : List Text) (facts : CriticalityFacts) (path : Text)
    → ok toy_facts ≡ ok facts
    → (evaluate_disable facts path).allowed ≡ true
    → KeyboardOn m
    → KeyboardOn (path ∷ m)
unfolding any_of
keeps_keyboard m facts path e allowed on = ground (arith, keyboard_refused)

-- The keyboard, stored as disabled, comes back.
abbrev keyboard_entry : DisabledDeviceEntry
keyboard_entry = record stick_entry { last_sysfs_path = keyboard_path }

abbrev keyboard_world : World toy
keyboard_world = world_with (keyboard_entry ∷ [])

sweep-inv_example : KeyboardOn (sweep toy keyboard_world).machine
unfolding any_of
sweep-inv_example = sweep-inv toy KeyboardOn keeps_keyboard keyboard_world refl

-- The keyboard, stored first under a key of its own, is refused; the stick is turned off all the same.
abbrev two_stored : World toy
two_stored = world_with (record other_entry { last_sysfs_path = keyboard_path } ∷ stick_entry ∷ [])

abbrev IsOff : Text → List Text → Type 0
IsOff path off = any_of (λ p. p == path) off ≡ true

turned :
    (path : Text) (m : List Text) (applied : Option Text)
    → (toy.platform.set_enabled path false [] m).0 ≡ ok applied
    → IsOff path (path ∷ m)
unfolding any_of
turned path m applied e = ground (arith, eq_refl path)

stays : (path other : Text) (m : List Text) → IsOff path m → IsOff path (other ∷ m)
unfolding any_of
stays path other m off = ground (arith, off)

stick_allowed : (evaluate_disable toy_facts stick_path).allowed ≡ true
unfolding evaluate_disable cross_device_manager.Guard.any_under any_of
    cross_device_manager.Guard.is_under cross_device_manager.Base.is_empty
    cross_device_manager.Guard.would_remove_all cross_device_manager.Base.all_of
    cross_device_manager.Base.starts_with nat_eq
stick_allowed = refl

sweep_applies_example : IsOff stick_path (sweep toy two_stored).machine
unfolding needs_apply text_eq any_of status_eq entry_matches cross_device_manager.Base.find_if
    cross_device_manager.Keys.matches_device cross_device_manager.Keys.key_bus_string
    cross_device_manager.Base.is_empty
sweep_applies_example =
    sweep_applies toy IsOff turned stays KeyboardOn keeps_keyboard stick_entry (stick []) two_stored
      (inr (inl refl)) refl refl (λ m on. (toy_facts, refl, stick_allowed, none, refl)) refl
