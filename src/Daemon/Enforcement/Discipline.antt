-- ===== src/Daemon/Enforcement/Discipline.antt =====
-- What enforcement may do: disable what the guard allows, and flag entries. It never adds, removes or
-- renames an entry.
use cross_device_manager.Base.{
  ◌≡◌, refl, ◌∙◌, inl, inr, true, false, List, [], ◌∷◌, Text, arith, Bool-cases, Option-cases,
  text_eq, find_if,
}
use cross_device_manager.Base.Result.{ok, Result-cases, value_or}
use cross_device_manager.Models.{
  Device, DisabledDeviceEntry, HotplugEvent, CriticalityFacts, key_eq, status_eq,
}
use cross_device_manager.Guard.{evaluate_disable}
use cross_device_manager.Daemon.StateStore.{
  StateStore, find_for, entry_matches, set_last_sysfs_path,
}
use cross_device_manager.Daemon.StateStore.Entries.{
  keys_of, keys_of-set_guard_suspended, keys_of-set_last_sysfs_path,
}
use cross_device_manager.Daemon.Platform.{device_from_sysfs}
use cross_device_manager.Daemon.World.{Env, World}
use cross_device_manager.Daemon.Enforcement.{
  note_applied, apply_disable_again, maybe_reapply, sweep_entry, sweep_entries, sweep, on_hotplug,
}

module _ (E : Env) (I : E.platform.Machine → Type 0)
    (keeps : (m : E.platform.Machine) (facts : CriticalityFacts) (path : Text)
      → E.platform.probe m ≡ ok facts
      → (evaluate_disable facts path).allowed ≡ true
      → I m
      → I (E.platform.set_enabled path false [] m).1) where
  maybe_reapply-inv :
      (entry : DisabledDeviceEntry) (device : Device) (w : World E)
      → I w.machine
      → I (maybe_reapply E entry device w).machine
  unfolding maybe_reapply apply_disable_again
  maybe_reapply-inv entry device w i = elim (Result-cases (E.platform.probe w.machine)) [
    | inr (x, e) ↦ ground arith
    | inl (facts, e) ↦ ground (
      arith,
      keeps w.machine facts device.sysfs_path e,
      Bool-cases (evaluate_disable facts device.sysfs_path).allowed,
    )
  ]

  pub sweep_entry-inv :
      (all : List Device) (entry : DisabledDeviceEntry) (w : World E)
      → I w.machine
      → I (sweep_entry E all entry w).machine
  unfolding sweep_entry
  sweep_entry-inv all entry w i =
      elim (Option-cases (find_if (λ device. entry_matches device entry) all)) [
        | inr (device, e) ↦ ground (arith, maybe_reapply-inv entry device w i)
        | inl e ↦ ground (
          arith,
          maybe_reapply-inv entry (device_from_sysfs E.platform w.machine entry.last_sysfs_path) w
              i,
        )
      ]

  pub sweep_entries-inv :
      (all : List Device) (es : List DisabledDeviceEntry) (w : World E)
      → I w.machine
      → I (sweep_entries E all es w).machine
  unfolding sweep_entries
  sweep_entries-inv all [] w i = i
  sweep_entries-inv all (entry ∷ es) w i =
      sweep_entries-inv all es (sweep_entry E all entry w) (sweep_entry-inv all entry w i)

  -- Let every disable that the guard allows, on the facts that the probe gives then, preserve a
  -- property of the machine. Then a sweep at startup preserves it.
  pub sweep-inv : (w : World E) → I w.machine → I (sweep E w).machine
  unfolding sweep
  sweep-inv w i =
      sweep_entries-inv (value_or (E.platform.enumerate w.machine) []) w.state.entries w i

  -- What every disable that the guard allows preserves of the machine, a hotplug event preserves.
  pub on_hotplug-inv :
      (event : HotplugEvent) (w : World E) → I w.machine → I (on_hotplug E event w).machine
  unfolding on_hotplug
  on_hotplug-inv event w i = elim (Option-cases (find_for event.device w.state)) [
    | inr (entry, e) ↦ ground (arith, maybe_reapply-inv entry event.device w i)
    | inl e ↦ ground arith
  ]

module _ (E : Env) where
  pub note_applied-keys :
      (entry : DisabledDeviceEntry) (device : Device) (s : StateStore)
      → keys_of (note_applied E entry device s).entries ≡ keys_of s.entries
  unfolding note_applied
  note_applied-keys entry device s =
      let moved = (set_last_sysfs_path E.json entry.key device.sysfs_path s).1 in
      ground (
        arith,
        keys_of-set_last_sysfs_path E.json entry.key device.sysfs_path s,
        keys_of-set_guard_suspended E.json entry.key false s,
        keys_of-set_guard_suspended E.json entry.key false moved,
      )

  maybe_reapply-keys :
      (entry : DisabledDeviceEntry) (device : Device) (w : World E)
      → keys_of (maybe_reapply E entry device w).state.entries ≡ keys_of w.state.entries
  unfolding maybe_reapply apply_disable_again
  maybe_reapply-keys entry device w = ground (
    arith,
    keys_of-set_guard_suspended E.json entry.key true w.state,
    note_applied-keys entry device w.state,
  )

  sweep_entry-keys :
      (all : List Device) (entry : DisabledDeviceEntry) (w : World E)
      → keys_of (sweep_entry E all entry w).state.entries ≡ keys_of w.state.entries
  unfolding sweep_entry
  sweep_entry-keys all entry w =
      elim (Option-cases (find_if (λ device. entry_matches device entry) all)) [
        | inr (device, e) ↦ rw (e, sweep_entry) (maybe_reapply-keys entry device w)
        | inl e ↦ ground (
          arith,
          maybe_reapply-keys entry (device_from_sysfs E.platform w.machine entry.last_sysfs_path) w,
        )
      ]

  sweep_entries-keys :
      (all : List Device) (es : List DisabledDeviceEntry) (w : World E)
      → keys_of (sweep_entries E all es w).state.entries ≡ keys_of w.state.entries
  unfolding sweep_entries
  sweep_entries-keys all [] w = refl
  sweep_entries-keys all (entry ∷ es) w =
      sweep_entries-keys all es (sweep_entry E all entry w) ∙ sweep_entry-keys all entry w

  -- Neither the sweep nor a hotplug event adds, removes, renames or reorders an entry of the store.
  pub enforcement-keys_of :
      (event : HotplugEvent) (w : World E)
      → (keys_of (sweep E w).state.entries ≡ keys_of w.state.entries)
        × (keys_of (on_hotplug E event w).state.entries ≡ keys_of w.state.entries)
  unfolding sweep on_hotplug
  enforcement-keys_of event w = (
    sweep_entries-keys _ w.state.entries w,
    elim (Option-cases (find_for event.device w.state)) [
      | inl n ↦ ground arith
      | inr (entry, e) ↦ ground (arith, maybe_reapply-keys entry event.device w)
    ],
  )
