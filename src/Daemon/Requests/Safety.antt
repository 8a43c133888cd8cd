-- ===== src/Daemon/Requests/Safety.antt =====
-- No mutation without its safety net: the snapshot is stored before anything else changes.
use cross_device_manager.Base.{
  ◌≡◌, refl, ap, ◌⊎◌, inl, inr, Bool, true, false, not, Text, bytes, arith, if◌then◌else◌,
}
use cross_device_manager.Base.Result.{ok, Result-cases}
use cross_device_manager.Base.Op.{Op, bind}
use cross_device_manager.Snapshot.{auto}
use cross_device_manager.Daemon.World.{Env, World, on_machine}
use cross_device_manager.Daemon.Snapshots.{create, capture_payload}
use cross_device_manager.Daemon.Requests.{
  clear_device, action_set_device_enabled, action_manage_drivers, set_device_enabled,
  load_module_verb, unload_module_verb, bind_driver_verb, unbind_driver_verb, snapshot_before,
  apply_disable, apply_enable,
}
use cross_device_manager.Daemon.Requests.Refusals.{
  Request, set_device, load, unload, bind_to, unbind, take_snapshot, restore_snapshot,
  delete_snapshot, process,
}

-- The requests that act on devices and modules, with the name of the verb.
abbrev pub verb_of : Request → Text
verb_of (set_device path enabled) = bytes "SetDeviceEnabled"
verb_of (load name) = bytes "LoadModule"
verb_of (unload name) = bytes "UnloadModule"
verb_of (bind_to path driver) = bytes "BindDriver"
verb_of (unbind path) = bytes "UnbindDriver"
verb_of _ = bytes ""

abbrev pub is_hardware : Request → Bool
is_hardware (take_snapshot label) = false
is_hardware (restore_snapshot id) = false
is_hardware (delete_snapshot id) = false
is_hardware _ = true

-- Devices, stored entries and files are as before.
abbrev pub Untouched : {E : Env} → World E → World E → Type 0
Untouched w after =
    (after.machine ≡ w.machine) × (after.state ≡ w.state) × (after.modprobe ≡ w.modprobe)

-- A snapshot of `w` for this verb has been stored, and the store is as that left it.
abbrev pub SnapshotTaken : {E : Env} → Text → World E → World E → Type 0
SnapshotTaken {E} verb w after =
    (subject : Text) × (id : Text) × (E.snapshots.put (capture_payload E w) auto
        (record { verb = verb; subject = subject }) (E.platform.now_utc w.machine) w.snapshots
      ≡ (ok id, after.snapshots))

abbrev pub Closed : {E : Env} → Text → World E → World E → Type 0
Closed verb w after = Untouched w after ⊎ SnapshotTaken verb w after

Closed-refl : {E : Env} (verb : Text) (w after : World E) → after ≡ w → Closed verb w after
Closed-refl verb w after e =
    inl (ap (λ v. v.machine) e, ap (λ v. v.state) e, ap (λ v. v.modprobe) e)

-- What follows the checks: the snapshot, then an act that leaves the snapshot store alone.
snapshot_then_act :
    (E : Env) (w : World E) (verb subject : Text) (act : Op (World E) (Unit {0}))
    → ((v : World E) → (act v).1.snapshots ≡ v.snapshots)
    → Closed verb w (bind (snapshot_before E verb subject w) (λ _. act)).1
unfolding snapshot_before create
snapshot_then_act E w verb subject act keeps =
    let taken =
      E.snapshots.put (capture_payload E w) auto (record { verb = verb; subject = subject })
        (E.platform.now_utc w.machine) w.snapshots in
    elim (Result-cases taken.0) [
      | inr (x, e) ↦ inl (ground arith, ground arith, ground arith)
      | inl (id, e) ↦ inr (subject, id, ground (arith, keeps (record w { snapshots = taken.1 })))
    ]

module _ (E : Env) (w : World E) (caller : Text) where
  enable_or_disable-snapshots :
      (canonical : Text) (enabled : Bool) (v : World E)
      → ((if enabled then apply_enable E canonical else apply_disable E canonical) v).1.snapshots
        ≡ v.snapshots
  unfolding apply_enable apply_disable
  enable_or_disable-snapshots canonical enabled v = ground arith

  -- A request on devices or modules, however it ends, leaves devices, stored entries and files as they
  -- were, or has first stored a snapshot of the state that it found.
  pub process-Closed :
      (r : Request) → is_hardware r ≡ true → Closed (verb_of r) w (process E caller r w).1
  unfolding set_device_enabled load_module_verb unload_module_verb bind_driver_verb
      unbind_driver_verb
  process-Closed (set_device path enabled) h =
      elim (Result-cases
        (clear_device E caller action_set_device_enabled (not enabled) path w.machine)) [
          | inr (x, e) ↦ Closed-refl _ w _ (ground arith)
          | inl (c, e) ↦ ground (
            arith,
            snapshot_then_act E w (bytes "SetDeviceEnabled") c
                (if enabled then apply_enable E c else apply_disable E c)
                (enable_or_disable-snapshots c enabled),
          )
        ]
  process-Closed (load name) h = ground (
    arith,
    snapshot_then_act E w (bytes "LoadModule") name (on_machine E (E.platform.load_module name))
        (λ v. refl),
  )
  process-Closed (unload name) h = ground (
    arith,
    snapshot_then_act E w (bytes "UnloadModule") name (on_machine E (E.platform.unload_module name))
        (λ v. refl),
  )
  process-Closed (bind_to path driver) h =
      elim (Result-cases (clear_device E caller action_manage_drivers false path w.machine)) [
        | inr (x, e) ↦ Closed-refl _ w _ (ground arith)
        | inl (c, e) ↦ ground (
          arith,
          snapshot_then_act E w (bytes "BindDriver") c
              (on_machine E (E.platform.bind_driver c driver)) (λ v. refl),
        )
      ]
  process-Closed (unbind path) h =
      elim (Result-cases (clear_device E caller action_manage_drivers true path w.machine)) [
        | inr (x, e) ↦ Closed-refl _ w _ (ground arith)
        | inl (c, e) ↦ ground (
          arith,
          snapshot_then_act E w (bytes "UnbindDriver") c (on_machine E (E.platform.unbind_driver c))
              (λ v. refl),
        )
      ]
  process-Closed (take_snapshot label) h = absurd (cc)
  process-Closed (restore_snapshot id) h = absurd (cc)
  process-Closed (delete_snapshot id) h = absurd (cc)
