-- ===== src/Daemon/Requests/Refusals.antt =====
-- What a refused request leaves behind: nothing.
use cross_device_manager.Base.{◌≡◌, ◌≢◌, ◌⊎◌, inl, inr, Bool, true, false, not, Text, bytes, arith}
use cross_device_manager.Base.Result.{
  Result, ok, err, Error, Result-cases, invalid_args, permission,
}
use cross_device_manager.Base.Result
use cross_device_manager.Base.Op.{Op}
use cross_device_manager.Validation
use cross_device_manager.Models.{CriticalityFacts}
use cross_device_manager.Guard.{evaluate_disable}
use cross_device_manager.Daemon.World.{Env, World}
use cross_device_manager.Daemon.Containment.{canonical_contained}
use cross_device_manager.Daemon.Requests.{
  authorize, guard_disable, guard_module_unload, clear_device, set_device_enabled, load_module_verb,
  unload_module_verb, bind_driver_verb, unbind_driver_verb, snapshot_create, snapshot_restore,
  snapshot_delete, action_set_device_enabled, action_manage_modules, action_manage_drivers,
  action_manage_snapshots,
}

-- The requests that can change something.
pub data Request : Type 0 where
  set_device : Text → Bool → Request
  load unload : Text → Request
  bind_to : Text → Text → Request
  unbind : Text → Request
  take_snapshot restore_snapshot delete_snapshot : Text → Request

abbrev pub forget : {E : Env} {A : Type 0} → Result A × World E → Result (Unit {0}) × World E
forget (ok a, w) = (ok tt, w)
forget (err e, w) = (err e, w)

abbrev pub process : (E : Env) → Text → Request → Op (World E) (Unit {0})
process E caller (set_device path enabled) = set_device_enabled E caller path enabled
process E caller (load name) = load_module_verb E caller name
process E caller (unload name) = unload_module_verb E caller name
process E caller (bind_to path driver) = bind_driver_verb E caller path driver
process E caller (unbind path) = unbind_driver_verb E caller path
process E caller (take_snapshot label) = λ w. forget (snapshot_create E caller label w)
process E caller (restore_snapshot id) = λ w. forget (snapshot_restore E caller id w)
process E caller (delete_snapshot id) = snapshot_delete E caller id

-- The action that the caller must be authorized for.
abbrev pub action_of : Request → Text
action_of (set_device path enabled) = action_set_device_enabled
action_of (load name) = action_manage_modules
action_of (unload name) = action_manage_modules
action_of (bind_to path driver) = action_manage_drivers
action_of (unbind path) = action_manage_drivers
action_of (take_snapshot label) = action_manage_snapshots
action_of (restore_snapshot id) = action_manage_snapshots
action_of (delete_snapshot id) = action_manage_snapshots

-- The validation of a request's own arguments.
abbrev pub arguments_of : Request → Result (Unit {0})
arguments_of (set_device path enabled) = Validation.sysfs_path path
arguments_of (load name) = Validation.name name (bytes "module")
arguments_of (unload name) = Validation.name name (bytes "module")
arguments_of (bind_to path driver) =
    Result.◌>>◌ (Validation.sysfs_path path) (Validation.name driver (bytes "driver"))
arguments_of (unbind path) = Validation.sysfs_path path
arguments_of (take_snapshot label) = Validation.snapshot_label label
arguments_of (restore_snapshot id) = Validation.snapshot_id id
arguments_of (delete_snapshot id) = Validation.snapshot_id id

module _ (E : Env) (w : World E) (caller : Text) where
  clear-authorize :
      (action path canonical : Text) (guarded : Bool)
      → clear_device E caller action guarded path w.machine ≡ ok canonical
      → authorize E caller action w.machine ≡ ok tt
  unfolding clear_device
  clear-authorize action path canonical guarded h = ground arith

  module _ (action path : Text) (guarded : Bool)
      (h : authorize E caller action w.machine ≢ ok tt) where
    clear_device-refused :
        (e : Error) × (clear_device E caller action guarded path w.machine ≡ err e)
    clear_device-refused =
        elim (Result-cases (clear_device E caller action guarded path w.machine)) [
          | inl (c, e) ↦ absurd (h (clear-authorize action path c guarded e))
          | inr refused ↦ refused
        ]

  -- A request whose caller is not authorized for its action does not succeed, and changes nothing:
  -- no device, no module, no stored entry, no file and no snapshot.
  pub process_unauthorized :
      (r : Request)
      → authorize E caller (action_of r) w.machine ≢ ok tt
      → ((process E caller r w).0 ≢ ok tt) × ((process E caller r w).1 ≡ w)
  unfolding set_device_enabled load_module_verb unload_module_verb bind_driver_verb
      unbind_driver_verb snapshot_create snapshot_restore snapshot_delete
  process_unauthorized (set_device path enabled) h =
      let (x, e) = clear_device-refused action_set_device_enabled path (not enabled) h in
      ground arith
  process_unauthorized (load name) h = ground arith
  process_unauthorized (unload name) h = ground arith
  process_unauthorized (bind_to path driver) h =
      let (x, e) = clear_device-refused action_manage_drivers path false h in ground arith
  process_unauthorized (unbind path) h =
      let (x, e) = clear_device-refused action_manage_drivers path true h in ground arith
  process_unauthorized (take_snapshot label) h = ground arith
  process_unauthorized (restore_snapshot id) h = ground arith
  process_unauthorized (delete_snapshot id) h = ground arith

  -- A malformed caller or argument is answered by the error of its check before anything else is
  -- looked at, and changes nothing.
  pub process_malformed :
      (r : Request) (e : Error)
      → Result.◌>>◌ (Validation.caller caller) (arguments_of r) ≡ err e
      → process E caller r w ≡ (err e, w)
  unfolding set_device_enabled load_module_verb unload_module_verb bind_driver_verb
      unbind_driver_verb snapshot_create snapshot_restore snapshot_delete
  process_malformed (set_device path enabled) e h = ground arith
  process_malformed (load name) e h = ground arith
  process_malformed (unload name) e h = ground arith
  process_malformed (bind_to path driver) e h = ground arith
  process_malformed (unbind path) e h = ground arith
  process_malformed (take_snapshot label) e h = ground arith
  process_malformed (restore_snapshot id) e h = ground arith
  process_malformed (delete_snapshot id) e h = ground arith

  -- A disable or an unbind that succeeds was allowed by the guard, on the facts probed then, at the
  -- resolved path.
  pub process_guarded :
      (path : Text)
      → ((process E caller (set_device path false) w).0 ≡ ok tt)
        ⊎ ((process E caller (unbind path) w).0 ≡ ok tt)
      → (canonical : Text) × (facts : CriticalityFacts) × (canonical_contained E.platform
            E.sysfs_root w.machine path
          ≡ ok canonical)
        × (E.platform.probe w.machine ≡ ok facts)
        × ((evaluate_disable facts canonical).allowed ≡ true)
  unfolding set_device_enabled unbind_driver_verb clear_device guard_disable
  process_guarded path h = ground arith

  -- An unload that succeeds was of a loaded module, and was allowed by the guard.
  pub process_guarded_unload :
      (name : Text)
      → (process E caller (unload name) w).0 ≡ ok tt
      → guard_module_unload E name w.machine ≡ ok tt
  unfolding unload_module_verb
  process_guarded_unload name h = ground arith
