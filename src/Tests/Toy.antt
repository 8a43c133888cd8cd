-- ===== src/Tests/Toy.antt =====
-- A small machine for the examples: one USB stick, a keyboard, a root disk and one module. Its state
-- is the list of the paths that are switched off.
use cross_device_manager.Base.{
  Bool, true, false, Option, none, some, List, [], ◌∷◌, ◌++◌, Text, bytes, text_eq, ◌==◌, length,
  any_of, if◌then◌else◌,
}
use cross_device_manager.Base.Int.{ℤ, pos, decimal}
use cross_device_manager.Base.Result.{Result, ok, make_error, not_found}
use cross_device_manager.Models.{
  Device, DeviceKey, DisabledDeviceEntry, CriticalityFacts, usb, active, disabled,
}
use cross_device_manager.Snapshot.{
  Snapshot, SnapshotMeta, SnapshotPayload, SnapshotReason, SnapshotTrigger, healthy,
}
use cross_device_manager.Daemon.Disk.{Disk}
use cross_device_manager.Daemon.Platform.{Platform}
use cross_device_manager.Daemon.StateStore.{StateStore}
use cross_device_manager.Daemon.World.{SnapshotStore, Env, World}
use cross_device_manager.Tests.Codec.{toy_json}

abbrev pub sysfs : Text
sysfs = bytes "/sys/devices"

abbrev pub stick_path : Text
stick_path = bytes "/sys/devices/usb1/1-2"

abbrev pub keyboard_path : Text
keyboard_path = bytes "/sys/devices/usb1/1-1/input0"

abbrev pub alice : Text
alice = bytes ":1.42"

abbrev pub mallory : Text
mallory = bytes ":1.66"

abbrev pub toy_facts : CriticalityFacts
toy_facts = record {
  root_backing_paths = bytes "/sys/devices/pci0/nvme0" ∷ [];
  boot_backing_paths = [];
  keyboard_paths = keyboard_path ∷ [];
  pointer_paths = [];
}

abbrev pub stick : List Text → Device
stick off = record {
  id = bytes "stick";
  bus = usb;
  name = bytes "USB stick";
  sysfs_path = stick_path;
  modalias = [];
  vendor_id = bytes "0781";
  product_id = bytes "5567";
  serial = bytes "A1";
  parent = none;
  status = if any_of (λ p. p == stick_path) off then disabled else active;
  bound_driver = none;
  properties = [];
  error_note = none;
}

abbrev switch : Text → Bool → Text → List Text → Result (Option Text) × List Text
switch path true hint off = (ok none, [])
switch path false hint off = (ok none, path ∷ off)

abbrev pub toy_platform : Platform
toy_platform = record {
  Machine = List Text;
  set_enabled = switch;
  bind_driver = λ path driver m. (ok tt, m);
  unbind_driver = λ path m. (ok tt, path ∷ m);
  load_module = λ name m. (ok tt, m);
  unload_module = λ name m. (ok tt, name ∷ m);
  list_loaded_modules = λ m.
      ok (record { name = bytes "uas"; size_bytes = 4096; ref_count = pos 0; holders = [] } ∷ []);
  devices_using_module = λ m name. ok (stick_path ∷ []);
  enumerate = λ m. ok (stick m ∷ []);
  probe = λ m. ok toy_facts;
  check_authorized = λ m caller action. ok (caller == alice);
  now_utc = λ m. pos 1000;
  weakly_canonical = λ m path. some path;
  is_directory = λ m path. true;
  exists = λ m path. false;
  first_line = λ m path. [];
}

abbrev meta_of : Text → SnapshotPayload → SnapshotTrigger → SnapshotReason → ℤ → SnapshotMeta
meta_of id p trigger reason now = record {
  id = id;
  parent = none;
  created_at_utc = now;
  trigger = trigger;
  reason = reason;
  health = healthy;
  entry_count = length p.entries;
  modprobe_file_count = length p.modprobe_files;
}

abbrev find_snapshot : Text → List Snapshot → Result Snapshot
find_snapshot id [] = make_error not_found (bytes "no such snapshot")
find_snapshot id (s ∷ ss) = if s.meta.id == id then ok s else find_snapshot id ss

abbrev metas : List Snapshot → List SnapshotMeta
metas [] = []
metas (s ∷ ss) = s.meta ∷ metas ss

abbrev pub toy_snapshots : SnapshotStore
toy_snapshots = record {
  Store = List Snapshot;
  put = λ p trigger reason now ss.
      let id = decimal (length ss) in
      (ok id, ss ++ (record { meta = meta_of id p trigger reason now; payload = p } ∷ []));
  list = λ ss. (ok (metas ss), ss);
  read = λ id ss. (find_snapshot id ss, ss);
  remove = λ id ss. (ok tt, ss);
}

abbrev pub toy : Env
toy = record {
  platform = toy_platform;
  snapshots = toy_snapshots;
  json = toy_json;
  sysfs_root = sysfs;
}

abbrev pub stick_key : DeviceKey
stick_key = record {
  bus = bytes "usb";
  vendor_id = bytes "0781";
  product_id = bytes "5567";
  serial = bytes "A1";
  position = [];
}

abbrev pub stick_entry : DisabledDeviceEntry
stick_entry = record {
  key = stick_key;
  mechanism = bytes "authorized";
  last_driver = [];
  last_sysfs_path = stick_path;
  disabled_at_utc = pos 900;
  guard_suspended = false;
}

abbrev pub other_entry : DisabledDeviceEntry
other_entry = record stick_entry {
  key = record stick_key { serial = bytes "B2" };
  last_sysfs_path = bytes "/sys/devices/usb1/1-3";
}

abbrev pub empty_disk : Disk
empty_disk = record { path = bytes "/var/lib/devmgr"; files = []; coming = [] }

abbrev pub store_with : List DisabledDeviceEntry → StateStore
store_with es = record { entries = es; disk = empty_disk }

abbrev pub world_with : List DisabledDeviceEntry → World toy
world_with es = record {
  machine = [];
  state = store_with es;
  snapshots = [];
  modprobe = empty_disk;
}
