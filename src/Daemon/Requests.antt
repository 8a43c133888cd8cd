-- ===== src/Daemon/Requests.antt =====
-- daemon/src/request_processor.cpp: the verbs of the daemon's interface. Each validates its
-- arguments, asks the guard, asks for authorization and then acts. The apply mutex is held over an
-- act, so it is one step.
pub mod Refusals
pub mod Safety
pub mod Devices
use cross_device_manager.Base.{
  Bool, true, false, not, ◌||◌, ◌&&◌, Option, none, some, List, [], ◌∷◌, ◌++◌, Text, bytes, text_eq,
  ◌==◌, is_empty, find_if, if◌then◌else◌,
}
use cross_device_manager.Base.Result.{
  Result, ok, err, value_or, make_error, refuse_if, permission, not_found, io, conflict,
}
use cross_device_manager.Base.Result
use cross_device_manager.Base.Op.{Op, bind, ◌>>=◌, ◌>>◌, pure, lift, reads}
use cross_device_manager.Models.{
  Device, DeviceKey, DisabledDeviceEntry, LoadedModule, other, unknown,
}
use cross_device_manager.Keys.{plain_device_key, make_device_key, matches_device}
use cross_device_manager.Guard.{GuardVerdict, evaluate_disable, evaluate_module_unload}
use cross_device_manager.Snapshot.{SnapshotMeta, SnapshotTrigger, manual, auto, RestoreOutcome}
use cross_device_manager.SnapshotDiff.{SnapshotDiff}
use cross_device_manager.Validation
use cross_device_manager.Daemon.Containment.{canonical_contained}
use cross_device_manager.Daemon.Enforcement.{is_some}
use cross_device_manager.Daemon.Platform.{device_from_sysfs}
use cross_device_manager.Daemon.Snapshots
use cross_device_manager.Daemon.StateStore
use cross_device_manager.Daemon.World.{Env, World, on_machine, on_state}

abbrev pub action_set_device_enabled : Text
action_set_device_enabled = bytes "org.devmgr.set-device-enabled"

abbrev pub action_manage_modules : Text
action_manage_modules = bytes "org.devmgr.manage-modules"

abbrev pub action_manage_drivers : Text
action_manage_drivers = bytes "org.devmgr.manage-drivers"

abbrev pub action_manage_snapshots : Text
action_manage_snapshots = bytes "org.devmgr.manage-snapshots"

-- A refusal of the guard, as the error that the caller gets.
abbrev pub heed : GuardVerdict → Result (Unit {0})
heed verdict = refuse_if (not verdict.allowed) conflict verdict.reason

-- `core::Device{}`
abbrev no_device : Device
no_device = record {
  id = [];
  bus = other;
  name = [];
  sysfs_path = [];
  modalias = [];
  vendor_id = [];
  product_id = [];
  serial = [];
  parent = none;
  status = unknown;
  bound_driver = none;
  properties = [];
  error_note = none;
}

module _ (E : Env) where
  open E.platform use {
    Machine, set_enabled, bind_driver, unbind_driver, load_module, unload_module,
    list_loaded_modules, devices_using_module, enumerate, probe, check_authorized, now_utc,
    is_directory,
  }

  unfoldable pub authorize : Text → Text → Machine → Result (Unit {0})
  authorize caller action m = elim (check_authorized m caller action) [
    | err e ↦ err e
    | ok authorized ↦ refuse_if (not authorized) permission (bytes "authorization denied")
  ]

  unfoldable pub guard_disable : Text → Machine → Result (Unit {0})
  guard_disable canonical m = elim (probe m) [
    | err e ↦ err e
    | ok facts ↦ heed (evaluate_disable facts canonical)
  ]

  abbrev after_snapshot : Text → Result Text → Result (Unit {0})
  after_snapshot verb (ok id) = ok tt
  after_snapshot verb (err e) = make_error io (
      bytes "snapshot before "
      ++ (verb ++ (bytes " failed (" ++ (e.message ++ bytes "); mutation refused"))))

  unfoldable pub snapshot_before : Text → Text → Op (World E) (Unit {0})
  snapshot_before verb subject w =
      let (snap, w') = Snapshots.create E auto (record { verb = verb; subject = subject }) w in
      (after_snapshot verb snap, w')

  unfoldable pub key_to_store : Text → Machine → DeviceKey
  key_to_store canonical m =
      let all = value_or (enumerate m) [] in
      elim (find_if (λ (d : Device). d.sysfs_path == canonical) all) [
        | some device ↦ make_device_key device all
        | none ↦ plain_device_key (device_from_sysfs E.platform m canonical)
      ]

  abbrev text_or_empty : Option Text → Text
  text_or_empty none = []
  text_or_empty (some s) = s

  unfoldable pub disabled_entry : DeviceKey → Text → Option Text → Machine → DisabledDeviceEntry
  disabled_entry key canonical applied m = record {
    key = key;
    mechanism = if is_some applied then bytes "unbind" else bytes "authorized";
    last_driver = text_or_empty applied;
    last_sysfs_path = canonical;
    disabled_at_utc = now_utc m;
    guard_suspended = false;
  }

  unfoldable pub apply_disable : Text → Op (World E) (Unit {0})
  unfolding key_to_store disabled_entry
  apply_disable canonical w =
      let key = key_to_store canonical w.machine in
      bind (on_machine E (set_enabled canonical false []) w) λ applied w'.
        on_state E (StateStore.upsert E.json (disabled_entry key canonical applied w'.machine)) w'

  -- The test of the loop of `applyEnable`.
  unfoldable pub is_entry_of : Text → Machine → DisabledDeviceEntry → Bool
  is_entry_of canonical m e =
      let probable = is_directory m canonical in
      let probed = if probable then device_from_sysfs E.platform m canonical else no_device in
      (e.last_sysfs_path == canonical) || (probable && matches_device e.key probed)

  unfoldable pub apply_enable : Text → Op (World E) (Unit {0})
  unfolding is_entry_of
  apply_enable canonical w = elim (find_if (is_entry_of canonical w.machine) w.state.entries) [
    | some e ↦
        bind (on_state E (StateStore.remove E.json e.key) w)
          λ _ w'. bind (on_machine E (set_enabled canonical true e.last_driver) w') λ _. pure tt
    | none ↦ bind (on_machine E (set_enabled canonical true []) w) λ _. pure tt
  ]

  -- Containment, then the guard for a disable, then authorization; the path to act on.
  unfoldable pub clear_device : Text → Text → Bool → Text → Machine → Result Text
  unfolding guard_disable authorize
  clear_device caller action guarded path m =
      Result.◌>>=◌ (canonical_contained E.platform E.sysfs_root m path) λ canonical.
        Result.◌>>◌ (if guarded then guard_disable canonical m else ok tt)
          (Result.◌>>◌ (authorize caller action m) (ok canonical))

  unfoldable pub set_device_enabled : Text → Text → Bool → Op (World E) (Unit {0})
  unfolding clear_device snapshot_before
  set_device_enabled caller sysfs_path enabled = do
    lift (Validation.caller caller)
    lift (Validation.sysfs_path sysfs_path)
    canonical ←
        reads
          (λ w. clear_device caller action_set_device_enabled (not enabled) sysfs_path w.machine)
    snapshot_before (bytes "SetDeviceEnabled") canonical
    if enabled then apply_enable canonical else apply_disable canonical

  unfoldable pub load_module_verb : Text → Text → Op (World E) (Unit {0})
  unfolding authorize snapshot_before
  load_module_verb caller name = do
    lift (Validation.caller caller)
    lift (Validation.name name (bytes "module"))
    reads (λ w. authorize caller action_manage_modules w.machine)
    snapshot_before (bytes "LoadModule") name
    on_machine E (load_module name)

  unfoldable pub guard_module_unload : Text → Machine → Result (Unit {0})
  guard_module_unload name m = Result.◌>>=◌ (list_loaded_modules m) λ loaded.
      elim (find_if (λ (l : LoadedModule). l.name == name) loaded) [
        | none ↦ make_error not_found (bytes "module '" ++ (name ++ bytes "' not loaded"))
        | some l ↦ Result.◌>>=◌ (devices_using_module m name) λ affected.
            Result.◌>>=◌ (probe m) λ facts. heed (
              evaluate_module_unload facts (record {
                affected_device_paths = affected;
                holders = l.holders;
                ref_count = l.ref_count;
              }))
      ]

  unfoldable pub unload_module_verb : Text → Text → Op (World E) (Unit {0})
  unfolding guard_module_unload authorize snapshot_before
  unload_module_verb caller name = do
    lift (Validation.caller caller)
    lift (Validation.name name (bytes "module"))
    reads (λ w. guard_module_unload name w.machine)
    reads (λ w. authorize caller action_manage_modules w.machine)
    snapshot_before (bytes "UnloadModule") name
    on_machine E (unload_module name)

  unfoldable pub bind_driver_verb : Text → Text → Text → Op (World E) (Unit {0})
  unfolding clear_device snapshot_before
  bind_driver_verb caller sysfs_path driver_name = do
    lift (Validation.caller caller)
    lift (Validation.sysfs_path sysfs_path)
    lift (Validation.name driver_name (bytes "driver"))
    canonical ← reads (λ w. clear_device caller action_manage_drivers false sysfs_path w.machine)
    snapshot_before (bytes "BindDriver") canonical
    on_machine E (bind_driver canonical driver_name)

  unfoldable pub unbind_driver_verb : Text → Text → Op (World E) (Unit {0})
  unfolding clear_device snapshot_before
  unbind_driver_verb caller sysfs_path = do
    lift (Validation.caller caller)
    lift (Validation.sysfs_path sysfs_path)
    canonical ← reads (λ w. clear_device caller action_manage_drivers true sysfs_path w.machine)
    snapshot_before (bytes "UnbindDriver") canonical
    on_machine E (unbind_driver canonical)

  unfoldable pub list_disabled_devices : World E → List DisabledDeviceEntry
  list_disabled_devices w = w.state.entries

  unfoldable pub snapshot_list : Op (World E) (List SnapshotMeta)
  snapshot_list = Snapshots.list E

  unfoldable pub snapshot_create : Text → Text → Op (World E) Text
  unfolding authorize
  snapshot_create caller label = do
    lift (Validation.caller caller)
    lift (Validation.snapshot_label label)
    reads (λ w. authorize caller action_manage_snapshots w.machine)
    Snapshots.create E manual (record { verb = []; subject = label })

  unfoldable pub snapshot_restore : Text → Text → Op (World E) RestoreOutcome
  unfolding authorize
  snapshot_restore caller id = do
    lift (Validation.caller caller)
    lift (Validation.snapshot_id id)
    reads (λ w. authorize caller action_manage_snapshots w.machine)
    Snapshots.restore E id

  unfoldable pub snapshot_delete : Text → Text → Op (World E) (Unit {0})
  unfolding authorize
  snapshot_delete caller id = do
    lift (Validation.caller caller)
    lift (Validation.snapshot_id id)
    reads (λ w. authorize caller action_manage_snapshots w.machine)
    Snapshots.remove E id

  -- The interface asks for no authorization here: it shows differences, no secrets.
  unfoldable pub snapshot_diff : Text → Text → Op (World E) SnapshotDiff
  snapshot_diff base_id target_id = do
    lift (Validation.snapshot_id base_id)
    lift (if is_empty target_id then ok tt else Validation.snapshot_id target_id)
    Snapshots.diff E base_id target_id
