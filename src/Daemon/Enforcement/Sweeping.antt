-- ===== src/Daemon/Enforcement/Sweeping.antt =====
-- What a sweep at startup achieves: the stored disables are in force again.
use cross_device_manager.Base.{
  ◌≡◌, subst, inl, inr, true, false, some, Option, List, [], ◌∷◌, Text, Elem, find_if,
}
use cross_device_manager.Base.Result.{ok, value_or}
use cross_device_manager.Models.{Device, DisabledDeviceEntry, CriticalityFacts}
use cross_device_manager.Guard.{evaluate_disable}
use cross_device_manager.Daemon.StateStore.{entry_matches}
use cross_device_manager.Daemon.World.{Env, World}
use cross_device_manager.Daemon.Enforcement.{
  needs_apply, apply_disable_again, maybe_reapply, sweep_entry, sweep_entries, sweep,
}
use cross_device_manager.Daemon.Enforcement.Discipline.{sweep_entry-inv, sweep_entries-inv}

-- `Off path` of a machine: what the controller brings about when it disables the device at the path,
-- and what no further disable undoes. `Good` holds of the states in which the sweep runs: what each
-- disable that the guard allows preserves.
module _ (E : Env) (Off : Text → E.platform.Machine → Type 0)
    (turns_off : (path : Text) (m : E.platform.Machine) (applied : Option Text)
      → (E.platform.set_enabled path false [] m).0 ≡ ok applied
      → Off path (E.platform.set_enabled path false [] m).1)
    (stays_off : (path other : Text) (m : E.platform.Machine)
      → Off path m
      → Off path (E.platform.set_enabled other false [] m).1)
    (Good : E.platform.Machine → Type 0)
    (stays_good : (m : E.platform.Machine) (facts : CriticalityFacts) (path : Text)
      → E.platform.probe m ≡ ok facts
      → (evaluate_disable facts path).allowed ≡ true
      → Good m
      → Good (E.platform.set_enabled path false [] m).1) where
  -- The probe succeeds, the guard allows the disable and the controller takes it.
  abbrev pub Applies : Text → E.platform.Machine → Type 0
  Applies path m =
      (facts : CriticalityFacts) × (E.platform.probe m ≡ ok facts)
      × ((evaluate_disable facts path).allowed ≡ true)
      × (applied : Option Text) × ((E.platform.set_enabled path false [] m).0 ≡ ok applied)

  reapplied :
      (entry : DisabledDeviceEntry) (device : Device) (w : World E)
      → needs_apply entry device ≡ true
      → Applies device.sysfs_path w.machine
      → Off device.sysfs_path (maybe_reapply E entry device w).machine
  unfolding maybe_reapply apply_disable_again
  reapplied entry device w needed (facts, probed, allowed, applied, done) =
      let off = turns_off device.sysfs_path w.machine applied done in
      rw (needed, maybe_reapply)
        (rw (probed, maybe_reapply)
          (rw (allowed, maybe_reapply) (rw (done, apply_disable_again) off)))

  entry_swept :
      (all : List Device) (entry : DisabledDeviceEntry) (device : Device) (w : World E)
      → find_if (λ d. entry_matches d entry) all ≡ some device
      → needs_apply entry device ≡ true
      → Applies device.sysfs_path w.machine
      → Off device.sysfs_path (sweep_entry E all entry w).machine
  unfolding sweep_entry
  entry_swept all entry device w found needed applies =
      rw (found, sweep_entry) (reapplied entry device w needed applies)

  entries_swept :
      (all : List Device) (es : List DisabledDeviceEntry) (entry : DisabledDeviceEntry)
      (device : Device) (w : World E)
      → Elem entry es
      → find_if (λ d. entry_matches d entry) all ≡ some device
      → needs_apply entry device ≡ true
      → ((m : E.platform.Machine) → Good m → Applies device.sysfs_path m)
      → Good w.machine
      → Off device.sysfs_path (sweep_entries E all es w).machine
  unfolding sweep_entries
  entries_swept all [] entry device w i found needed applies good = elim i [ ]
  entries_swept all (x ∷ es) entry device w (inl e) found needed applies good =
      sweep_entries-inv E (Off device.sysfs_path)
        (λ m facts path _ _ off. stays_off device.sysfs_path path m off) all es
        (sweep_entry E all x w)
        (subst (λ y. Off device.sysfs_path (sweep_entry E all y w).machine) e
          (entry_swept all entry device w found needed (applies w.machine good)))
  entries_swept all (x ∷ es) entry device w (inr i) found needed applies good =
      entries_swept all es entry device (sweep_entry E all x w) i found needed applies
        (sweep_entry-inv E Good stays_good all x w good)

  -- Let `Off path` be what the controller brings about when it takes a disable at the path, and what no
  -- further disable undoes; let `Good` be what each disable preserves that the guard allows on the facts
  -- probed then. Let the store have an entry, whose first device among those enumerated is not yet as
  -- the entry wants it, and let the probe, the guard and the controller go along with a disable of that
  -- device in every good state. Then a sweep that starts in a good state turns it off, whatever the
  -- other entries are.
  pub sweep_applies :
      (entry : DisabledDeviceEntry) (device : Device) (w : World E)
      → Elem entry w.state.entries
      → find_if (λ d. entry_matches d entry) (value_or (E.platform.enumerate w.machine) [])
        ≡ some device
      → needs_apply entry device ≡ true
      → ((m : E.platform.Machine) → Good m → Applies device.sysfs_path m)
      → Good w.machine
      → Off device.sysfs_path (sweep E w).machine
  unfolding sweep
  sweep_applies entry device w i found needed applies good =
      entries_swept (value_or (E.platform.enumerate w.machine) []) w.state.entries entry device w i
        found needed applies good
