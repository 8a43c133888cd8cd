-- ===== src/Daemon/Platform.antt =====
-- The seams of the daemon: core/include/devmgr/pal/interfaces.hpp, pal/criticality.hpp,
-- daemon/authority.hpp and the file system that daemon/src/sysfs_device_probe.cpp reads. The state
-- behind them is a type of the environment's choice. A read leaves it alone; what can change it
-- returns the new one, also after an error.
use cross_device_manager.Base.{
  Bool, true, false, ◌&&◌, not, Option, none, some, List, [], Text, bytes, text_eq, ◌==◌, is_empty,
  starts_with, drop, if◌then◌else◌,
}
use cross_device_manager.Base.Int.{ℤ}
use cross_device_manager.Base.Result.{Result}
use cross_device_manager.Base.Op.{Op}
use cross_device_manager.Models.{
  Device, LoadedModule, CriticalityFacts, BusType, usb, pci, platform, virtio, other, active,
  disabled,
}
use cross_device_manager.Keys.{last_segment}
use cross_device_manager.Daemon.AtomicFile.{join_path}

pub record Platform : Type 1 where
  pub Machine : Type 0
  -- `IDeviceController`
  pub set_enabled : Text → Bool → Text → Op Machine (Option Text)
  pub bind_driver : Text → Text → Op Machine (Unit {0})
  pub unbind_driver : Text → Op Machine (Unit {0})
  -- `IDriverManager`
  pub load_module : Text → Op Machine (Unit {0})
  pub unload_module : Text → Op Machine (Unit {0})
  pub list_loaded_modules : Machine → Result (List LoadedModule)
  pub devices_using_module : Machine → Text → Result (List Text)
  -- `IDeviceEnumerator`, `ICriticalityProber`, `IAuthority`
  pub enumerate : Machine → Result (List Device)
  pub probe : Machine → Result CriticalityFacts
  pub check_authorized : Machine → Text → Text → Result Bool
  -- The system clock in seconds, and `std::filesystem` on sysfs: `weakly_canonical` (`none` is an
  -- error), `is_directory`, `exists`, and the first line of a file (empty if it cannot be read).
  pub now_utc : Machine → ℤ
  pub weakly_canonical : Machine → Text → Option Text
  pub is_directory : Machine → Text → Bool
  pub exists : Machine → Text → Bool
  pub first_line : Machine → Text → Text

abbrev strip_hex : Text → Text
strip_hex v = if starts_with v (bytes "0x") then drop 2 v else v

abbrev is_usb : BusType → Bool
is_usb usb = true
is_usb _ = false

module _ (P : Platform) where
  -- `weakly_canonical(path, ec).filename()`, which is empty after an error.
  unfoldable pub link_name : P.Machine → Text → Text
  link_name m path = elim (P.weakly_canonical m path) [ none ↦ [] | some p ↦ last_segment p ]

  unfoldable pub bus_type_from_path : P.Machine → Text → BusType
  unfolding link_name
  bus_type_from_path m dir =
      let bus = link_name m (join_path dir (bytes "subsystem")) in
      if bus == bytes "usb"
      then usb
      else if bus == bytes "pci"
      then pci
      else if bus == bytes "platform"
      then platform
      else if bus == bytes "virtio"
      then virtio
      else other

  -- An attribute of a device directory, without a leading `0x`.
  unfoldable pub attribute : P.Machine → Text → Text → Text
  attribute m dir name = strip_hex (P.first_line m (join_path dir name))

  unfoldable pub bound_driver_of : P.Machine → Text → Option Text
  unfolding link_name
  bound_driver_of m dir =
      let link = join_path dir (bytes "driver") in
      if not (P.exists m link)
      then none
      else if is_empty (link_name m link)
      then none
      else some (link_name m link)

  -- The device as its sysfs directory shows it.
  unfoldable pub device_from_sysfs : P.Machine → Text → Device
  unfolding bus_type_from_path attribute bound_driver_of
  device_from_sysfs m canonical =
      let bus = bus_type_from_path m canonical in
      let vendor = attribute m canonical (bytes "idVendor") in
      let product = attribute m canonical (bytes "idProduct") in
      record {
        id = [];
        bus = bus;
        name = [];
        sysfs_path = canonical;
        modalias = [];
        vendor_id = if is_empty vendor then attribute m canonical (bytes "vendor") else vendor;
        product_id = if is_empty product then attribute m canonical (bytes "device") else product;
        serial = attribute m canonical (bytes "serial");
        parent = none;
        status =
            if is_usb bus && (attribute m canonical (bytes "authorized") == bytes "0")
            then disabled
            else active;
        bound_driver = bound_driver_of m canonical;
        properties = [];
        error_note = none;
      }
