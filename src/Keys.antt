-- ===== src/Keys.antt =====
-- core/src/device_key.cpp: the identity under which a disabled device is remembered.
pub mod Matching
use cross_device_manager.Base.{
  Bool, true, false, not, ◌&&◌, Option, none, some, List, Text, bytes, text_eq, ◌==◌, is_empty,
  after_last, any_of, if◌then◌else◌,
}
use cross_device_manager.Models.{BusType, usb, pci, platform, virtio, other, Device, DeviceKey}

unfoldable pub last_segment : Text → Text
last_segment path = elim (after_last b'/' path) [ none ↦ path | some s ↦ s ]

unfoldable pub key_bus_string : BusType → Text
key_bus_string usb = bytes "usb"
key_bus_string pci = bytes "pci"
key_bus_string platform = bytes "platform"
key_bus_string virtio = bytes "virtio"
key_bus_string other = bytes "other"

unfoldable pub position_for : BusType → Text → Text
position_for bus path = last_segment path

-- The plain key of one device.
unfoldable pub plain_device_key : Device → DeviceKey
plain_device_key device = record {
  bus = key_bus_string device.bus;
  vendor_id = device.vendor_id;
  product_id = device.product_id;
  serial = device.serial;
  position = position_for device.bus device.sysfs_path;
}

-- The test of `any_of`: another device that shows the same serial number.
unfoldable pub is_clone : Device → DeviceKey → Device → Bool
is_clone device key d =
    not (d.sysfs_path == device.sysfs_path)
    && ((key_bus_string d.bus == key.bus)
        && ((d.vendor_id == key.vendor_id)
            && ((d.product_id == key.product_id) && (d.serial == key.serial))))

unfoldable pub downgrade : Device → List Device → DeviceKey → DeviceKey
downgrade device present key =
    if is_empty key.serial
    then key
    else if any_of (is_clone device key) present
    then record key { serial = bytes "" }
    else key

unfoldable pub make_device_key : Device → List Device → DeviceKey
make_device_key device present = downgrade device present (plain_device_key device)

unfoldable pub matches_device : DeviceKey → Device → Bool
matches_device key device =
    if not (key_bus_string device.bus == key.bus)
    then false
    else if not (is_empty key.serial)
    then (device.vendor_id == key.vendor_id)
      && ((device.product_id == key.product_id) && (device.serial == key.serial))
    else (position_for device.bus device.sysfs_path == key.position)
      && ((device.vendor_id == key.vendor_id) && (device.product_id == key.product_id))
