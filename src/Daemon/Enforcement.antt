-- ===== src/Daemon/Enforcement.antt =====
-- daemon/src/enforcement_service.cpp: re-applies the persisted disables at startup and on hotplug.
-- The log lines are left out; the apply mutex makes one re-apply one step.
pub mod Discipline
pub mod Sweeping
use cross_device_manager.Base.{
  Bool, true, false, not, ◌||◌, Option, none, some, List, [], ◌∷◌, Text, bytes, text_eq, ◌==◌,
  is_empty, find_if, if◌then◌else◌,
}
use cross_device_manager.Base.Result.{Result, ok, err, value_or}
use cross_device_manager.Models.{
  Device, DisabledDeviceEntry, DeviceStatus, disabled, status_eq, HotplugEvent, Action, added,
  removed, changed,
}
use cross_device_manager.Guard.{evaluate_disable}
use cross_device_manager.Daemon.Platform.{device_from_sysfs}
use cross_device_manager.Daemon.StateStore.{
  StateStore, find_for, entry_matches, set_guard_suspended, set_last_sysfs_path,
}
use cross_device_manager.Daemon.World.{Env, World}

abbrev pub is_some {ℓ} : {A : Type ℓ} → Option A → Bool
is_some none = false
is_some (some a) = true

-- Is the device not yet as the entry wants it?
unfoldable pub needs_apply : DisabledDeviceEntry → Device → Bool
needs_apply entry device =
    if entry.mechanism == bytes "authorized"
    then not (device.status == disabled)
    else is_some device.bound_driver

abbrev pub is_removed : Action → Bool
is_removed removed = true
is_removed _ = false

module _ (E : Env) where
  open E.platform use {probe, set_enabled, enumerate, is_directory}

  -- The end of a re-apply: the two updates of the store, whose failures are only logged.
  unfoldable pub note_applied : DisabledDeviceEntry → Device → StateStore → StateStore
  note_applied entry device store =
      let moved =
        if not (entry.last_sysfs_path == device.sysfs_path)
        then (set_last_sysfs_path E.json entry.key device.sysfs_path store).1
        else store in
      if entry.guard_suspended then (set_guard_suspended E.json entry.key false moved).1 else moved

  unfoldable pub apply_disable_again : DisabledDeviceEntry → Device → World E → World E
  unfolding note_applied
  apply_disable_again entry device w =
      let (applied, machine) = set_enabled device.sysfs_path false [] w.machine in
      elim applied [
        | err e ↦ record w { machine = machine }
        | ok m ↦ record w { machine = machine; state = note_applied entry device w.state }
      ]

  unfoldable pub maybe_reapply : DisabledDeviceEntry → Device → World E → World E
  unfolding apply_disable_again needs_apply
  maybe_reapply entry device w =
      if not (needs_apply entry device) then w else elim (probe w.machine) [
        | err e ↦ w
        | ok facts ↦
            if not (evaluate_disable facts device.sysfs_path).allowed
            then record w { state = (set_guard_suspended E.json entry.key true w.state).1 }
            else apply_disable_again entry device w
      ]

  -- One round of the sweep: the enumerated device, or what sysfs shows at the stored path.
  unfoldable pub sweep_entry : List Device → DisabledDeviceEntry → World E → World E
  unfolding maybe_reapply
  sweep_entry all entry w = elim (find_if (λ device. entry_matches device entry) all) [
    | some device ↦ maybe_reapply entry device w
    | none ↦
        if is_empty entry.last_sysfs_path || not (is_directory w.machine entry.last_sysfs_path)
        then w
        else maybe_reapply entry (device_from_sysfs E.platform w.machine entry.last_sysfs_path) w
  ]

  unfoldable pub sweep_entries : List Device → List DisabledDeviceEntry → World E → World E
  unfolding sweep_entry
  sweep_entries all [] w = w
  sweep_entries all (entry ∷ es) w = sweep_entries all es (sweep_entry all entry w)

  -- `sweep`: over a copy of the entries, with the devices enumerated once, or none after an error.
  unfoldable pub sweep : World E → World E
  unfolding sweep_entries
  sweep w = sweep_entries (value_or (enumerate w.machine) []) w.state.entries w

  unfoldable pub on_hotplug : HotplugEvent → World E → World E
  unfolding maybe_reapply
  on_hotplug event w = if is_removed event.action then w else elim (find_for event.device w.state) [
    | none ↦ w
    | some entry ↦ maybe_reapply entry event.device w
  ]
