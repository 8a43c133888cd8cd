-- ===== src/Daemon/Snapshots.antt =====
-- daemon/src/snapshot_service.cpp: takes, compares and restores snapshots of what devmgr owns.
pub mod Restore
pub mod Comparison
use cross_device_manager.Base.{
  Bool, true, false, not, ◌||◌, ◌&&◌, Option, none, some, List, [], ◌∷◌, ◌++◌, Text, bytes, text_eq,
  option_eq, ◌==◌, is_empty, starts_with, ends_with, any_of, find_if, if◌then◌else◌,
}
use cross_device_manager.Base.Result.{Result, ok, err, value_or}
use cross_device_manager.Base.Op.{Op, bind, ◌>>=◌, ◌>>◌, pure, lift}
use cross_device_manager.Base.Dict.{lookup, contains}
use cross_device_manager.Base.OrderedMap.{assign}
use cross_device_manager.Models.{Device, DeviceKey, DisabledDeviceEntry, key_eq}
use cross_device_manager.Guard.{evaluate_disable}
use cross_device_manager.Snapshot.{
  Snapshot, SnapshotMeta, SnapshotPayload, SnapshotReason, SnapshotTrigger, auto,
  RestoreItemOutcome, RestoreOutcome,
}
use cross_device_manager.SnapshotDiff.{SnapshotDiff, diff_payloads}
use cross_device_manager.Daemon.AtomicFile.{Files}
use cross_device_manager.Daemon.Disk.{Disk, write_file, remove_file}
use cross_device_manager.Daemon.Platform.{device_from_sysfs}
use cross_device_manager.Daemon.StateStore.{
  entry_matches, set_guard_suspended, set_last_sysfs_path, replace_all,
}
use cross_device_manager.Daemon.Enforcement.{needs_apply, note_applied}
use cross_device_manager.Daemon.World.{Env, World, on_snapshots, on_state}

abbrev pub config_level_note : Text
config_level_note =
    bytes "config-level: takes effect on next boot/hotplug; loaded modules are not unloaded"

-- `devmgr-*.conf`
unfoldable pub is_devmgr_owned : Text → Bool
is_devmgr_owned name = starts_with name (bytes "devmgr-") && ends_with name (bytes ".conf")

unfoldable pub contains_key : List DisabledDeviceEntry → DeviceKey → Bool
contains_key entries key = any_of (λ e. e.key == key) entries

-- The owned files of the directory, by name. Every entry of a `Files` is a regular file.
unfoldable pub capture_files : Files → List (Text × Text)
unfolding is_devmgr_owned assign
capture_files [] = []
capture_files ((name, content) ∷ files) =
    let rest = capture_files files in
    if is_devmgr_owned name then assign name content rest else rest

abbrev item : Text → Text → Text → Text → RestoreItemOutcome
item subject action status detail = record {
  subject = subject;
  action = action;
  status = status;
  detail = detail;
}

unfoldable pub removal_item : Text → Option Text → RestoreItemOutcome
removal_item name none = item name (bytes "modprobe-remove") (bytes "ok") config_level_note
removal_item name (some message) = item name (bytes "modprobe-remove") (bytes "failed") message

unfoldable pub write_item : Text → Result (Unit {0}) → RestoreItemOutcome
write_item name (ok _) = item name (bytes "modprobe-write") (bytes "ok") config_level_note
write_item name (err e) = item name (bytes "modprobe-write") (bytes "failed") e.message

-- The first loop of `writeBackModprobe`: files that the snapshot does not have.
unfoldable pub remove_extra :
    List (Text × Text) → List (Text × Text) → Disk → List RestoreItemOutcome × Disk
remove_extra [] target disk = ([], disk)
remove_extra ((name, content) ∷ pre) target disk = elim (contains name target) [
  | true ↦ remove_extra pre target disk
  | false ↦
      let (failed, disk') = remove_file name disk in
      let (items, disk'') = remove_extra pre target disk' in
      (removal_item name failed ∷ items, disk'')
]

-- The second loop: files that the snapshot has otherwise.
unfoldable pub write_changed :
    List (Text × Text) → List (Text × Text) → Disk → List RestoreItemOutcome × Disk
write_changed pre [] disk = ([], disk)
write_changed pre ((name, content) ∷ target) disk = elim (lookup name pre == some content) [
  | true ↦ write_changed pre target disk
  | false ↦
      let (written, disk') = write_file name content disk in
      let (items, disk'') = write_changed pre target disk' in
      (write_item name written ∷ items, disk'')
]

unfoldable pub write_back_modprobe :
    List (Text × Text) → List (Text × Text) → Disk → List RestoreItemOutcome × Disk
unfolding remove_extra write_changed
write_back_modprobe pre target disk =
    let (removals, disk') = remove_extra pre target disk in
    let (writes, disk'') = write_changed pre target disk' in (removals ++ writes, disk'')

module _ (E : Env) where
  open E.platform use {Machine, probe, set_enabled, enumerate, is_directory, now_utc}

  unfoldable pub capture_payload : World E → SnapshotPayload
  unfolding capture_files
  capture_payload w = record {
    entries = w.state.entries;
    modprobe_files = capture_files w.modprobe.files;
  }

  unfoldable pub create : SnapshotTrigger → SnapshotReason → Op (World E) Text
  unfolding capture_payload
  create trigger reason w =
      on_snapshots E (E.snapshots.put (capture_payload w) trigger reason (now_utc w.machine)) w

  unfoldable pub list : Op (World E) (List SnapshotMeta)
  list = on_snapshots E E.snapshots.list

  unfoldable pub remove : Text → Op (World E) (Unit {0})
  remove id = on_snapshots E (E.snapshots.remove id)

  -- Where the device of an entry is now; empty if it is absent.
  unfoldable pub resolve_path_for : Machine → DisabledDeviceEntry → List Device → Text
  resolve_path_for m e all = elim (find_if (λ d. entry_matches d e) all) [
    | some d ↦ d.sysfs_path
    | none ↦
        if not (is_empty e.last_sysfs_path) && is_directory m e.last_sysfs_path
        then e.last_sysfs_path
        else []
  ]

  unfoldable pub re_enable_one :
      List Device → DisabledDeviceEntry → Machine → RestoreItemOutcome × Machine
  unfolding resolve_path_for
  re_enable_one all e m =
      let path = resolve_path_for m e all in
      if is_empty path
      then (
        item e.last_sysfs_path (bytes "re-enable") (bytes "device-absent")
            (bytes "device not present; nothing to re-enable"),
        m,
      )
      else let (applied, m') = set_enabled path true e.last_driver m in
        (
          elim applied [
            | ok _ ↦ item path (bytes "re-enable") (bytes "ok") []
            | err x ↦ item path (bytes "re-enable") (bytes "failed") x.message
          ],
          m',
        )

  -- The loop of `reEnableRemoved`: what was disabled before, and is not in the snapshot.
  unfoldable pub re_enable_entries :
      List Device
      → List DisabledDeviceEntry
      → List DisabledDeviceEntry
      → Machine
      → List RestoreItemOutcome × Machine
  unfolding re_enable_one
  re_enable_entries all target [] m = ([], m)
  re_enable_entries all target (e ∷ pre) m = elim (contains_key target e.key) [
    | true ↦ re_enable_entries all target pre m
    | false ↦
        let (one, m') = re_enable_one all e m in
        let (items, m'') = re_enable_entries all target pre m' in (one ∷ items, m'')
  ]

  unfoldable pub re_enable_removed :
      SnapshotPayload → SnapshotPayload → Machine → List RestoreItemOutcome × Machine
  unfolding re_enable_entries
  re_enable_removed pre target m =
      re_enable_entries (value_or (enumerate m) []) target.entries pre.entries m

  abbrev re_apply_item : Device → Text → Text → RestoreItemOutcome
  re_apply_item device status detail =
      item device.sysfs_path (bytes "re-apply-disable") status detail

  unfoldable pub suspend :
      DisabledDeviceEntry → Device → Text → World E → RestoreItemOutcome × World E
  suspend entry device reason w =
      let (stored, state) = set_guard_suspended E.json entry.key true w.state in
      (
        elim stored [
          | ok _ ↦ re_apply_item device (bytes "guard-refused") reason
          | err e ↦
              re_apply_item device (bytes "failed")
                (bytes "guard refused (" ++ (reason ++ bytes ") and suspension not persisted"))
        ],
        record w { state = state },
      )

  unfoldable pub disable_restored :
      DisabledDeviceEntry → Device → World E → RestoreItemOutcome × World E
  unfolding note_applied
  disable_restored entry device w =
      let (applied, m) = set_enabled device.sysfs_path false [] w.machine in
      elim applied [
        | err e ↦ (re_apply_item device (bytes "failed") e.message, record w { machine = m })
        | ok _ ↦ (
          re_apply_item device (bytes "ok") [],
          record w { machine = m; state = note_applied E entry device w.state },
        )
      ]

  unfoldable pub re_apply_one :
      DisabledDeviceEntry → Device → World E → RestoreItemOutcome × World E
  unfolding suspend disable_restored
  re_apply_one entry device w =
      if not (needs_apply entry device)
      then (re_apply_item device (bytes "ok") (bytes "already in desired state"), w)
      else elim (probe w.machine) [
        | err e ↦ (
          re_apply_item device (bytes "failed") (bytes "criticality probe failed: " ++ e.message),
          w,
        )
        | ok facts ↦
            let verdict = evaluate_disable facts device.sysfs_path in
            if not verdict.allowed
            then suspend entry device verdict.reason w
            else disable_restored entry device w
      ]

  unfoldable pub re_apply_entry :
      List Device → DisabledDeviceEntry → World E → RestoreItemOutcome × World E
  unfolding re_apply_one
  re_apply_entry all e w = elim (find_if (λ d. entry_matches d e) all) [
    | some device ↦ re_apply_one e device w
    | none ↦
        if is_empty e.last_sysfs_path || not (is_directory w.machine e.last_sysfs_path)
        then (
          item e.last_sysfs_path (bytes "re-apply-disable") (bytes "device-absent")
              (bytes "device not present; enforcement re-applies on hotplug"),
          w,
        )
        else re_apply_one e (device_from_sysfs E.platform w.machine e.last_sysfs_path) w
  ]

  unfoldable pub re_apply_entries :
      List Device → List DisabledDeviceEntry → World E → List RestoreItemOutcome × World E
  unfolding re_apply_entry
  re_apply_entries all [] w = ([], w)
  re_apply_entries all (e ∷ es) w =
      let (one, w') = re_apply_entry all e w in
      let (items, w'') = re_apply_entries all es w' in (one ∷ items, w'')

  unfoldable pub re_apply_restored : World E → List RestoreItemOutcome × World E
  unfolding re_apply_entries
  re_apply_restored w = re_apply_entries (value_or (enumerate w.machine) []) w.state.entries w

  -- Steps 3 (files) and 4 of a restore, which cannot fail: they report.
  unfoldable pub converge :
      SnapshotPayload → SnapshotPayload → World E → List RestoreItemOutcome × World E
  unfolding write_back_modprobe re_enable_removed re_apply_restored
  converge pre target w =
      let (files, modprobe) =
        write_back_modprobe pre.modprobe_files target.modprobe_files w.modprobe in
      let (enabled, machine) = re_enable_removed pre target w.machine in
      let (applied, w') = re_apply_restored (record w { modprobe = modprobe; machine = machine }) in
      (files ++ (enabled ++ applied), w')

  unfoldable pub restore : Text → Op (World E) RestoreOutcome
  unfolding create converge
  restore id w = bind (on_snapshots E (E.snapshots.read id) w) λ snap w₁.
      let pre = capture_payload w₁ in
      bind (create auto (record { verb = bytes "SnapshotRestore"; subject = id }) w₁) λ safety w₂.
        bind (on_state E (replace_all E.json snap.payload.entries) w₂) λ _ w₃.
          let (items, w₄) = converge pre snap.payload w₃ in
          (ok (record { snapshot_id = id; safety_snapshot_id = safety; items = items }), w₄)

  -- Against a stored snapshot, or the live state where no target is named.
  unfoldable pub diff_target : Text → Op (World E) SnapshotPayload
  unfolding capture_payload
  diff_target target_id w =
      if is_empty target_id
      then (ok (capture_payload w), w)
      else bind (on_snapshots E (E.snapshots.read target_id) w) λ stored. pure stored.payload

  unfoldable pub diff : Text → Text → Op (World E) SnapshotDiff
  unfolding diff_target
  diff base_id target_id w = bind (on_snapshots E (E.snapshots.read base_id) w) λ base w₁.
      bind (diff_target target_id w₁) λ target.
        pure
          (record (diff_payloads base.payload target) { base_id = base_id; target_id = target_id })
