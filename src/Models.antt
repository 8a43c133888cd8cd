-- ===== src/Models.antt =====
-- core/include/devmgr/core/models.hpp, pal/criticality.hpp, pal/hotplug_event.hpp: the data that
-- the components exchange. A `DeviceId` is its text, and a `std::map` the list of its entries.
use cross_device_manager.Base.{ℕ, Bool, Option, List, Text, Eq, ℕ_discrete}
use cross_device_manager.Base.Int.{ℤ}

pub data DeviceStatus : Type 0 where
  active disabled transitioning error unknown : DeviceStatus

pub data BusType : Type 0 where
  pci usb platform virtio other : BusType

pub record Device : Type 0 where
  pub id : Text
  pub bus : BusType
  pub name : Text
  pub sysfs_path : Text
  pub modalias : Text
  pub vendor_id : Text
  pub product_id : Text
  pub serial : Text
  pub parent : Option Text
  pub status : DeviceStatus
  pub bound_driver : Option Text
  pub properties : List (Text × Text)
  pub error_note : Option Text

pub record LoadedModule : Type 0 where
  pub name : Text
  pub size_bytes : ℕ
  pub ref_count : ℤ
  pub holders : List Text

pub record DeviceKey : Type 0 where
  pub bus : Text
  pub vendor_id : Text
  pub product_id : Text
  pub serial : Text
  pub position : Text

pub record DisabledDeviceEntry : Type 0 where
  pub key : DeviceKey
  pub mechanism : Text
  pub last_driver : Text
  pub last_sysfs_path : Text
  pub disabled_at_utc : ℤ
  pub guard_suspended : Bool

pub record CriticalityFacts : Type 0 where
  pub root_backing_paths : List Text
  pub boot_backing_paths : List Text
  pub keyboard_paths : List Text
  pub pointer_paths : List Text

pub data Action : Type 0 where
  added removed changed : Action

pub record HotplugEvent : Type 0 where
  pub action : Action
  pub device : Device

DeviceStatus_dec : Discrete DeviceStatus
DeviceStatus_dec = hlevel

instance unfoldable pub status_eq : Eq DeviceStatus
unfolding DeviceStatus_dec
status_eq = record { dec = DeviceStatus_dec }

DeviceKey_dec : Discrete DeviceKey
DeviceKey_dec = hlevel ℕ_discrete

-- `operator==(const DeviceKey&, const DeviceKey&) = default`
instance unfoldable pub key_eq : Eq DeviceKey
unfolding DeviceKey_dec ℕ_discrete
key_eq = record { dec = DeviceKey_dec }

BusType_dec : Discrete BusType
BusType_dec = hlevel

instance unfoldable pub bus_eq : Eq BusType
unfolding BusType_dec
bus_eq = record { dec = BusType_dec }

Device_dec : Discrete Device
Device_dec = hlevel ℕ_discrete

-- `operator==(const Device&, const Device&) = default`
instance unfoldable pub device_eq : Eq Device
unfolding Device_dec ℕ_discrete
device_eq = record { dec = Device_dec }
