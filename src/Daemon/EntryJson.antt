-- ===== src/Daemon/EntryJson.antt =====
-- daemon/src/entry_json.cpp: a disabled-device entry as JSON.
use cross_device_manager.Base.{
  Option, some, List, [], ◌∷◌, bytes, ◌≡◌, refl, true, All, map, text_eq, nat_eq,
}
use cross_device_manager.Base.Maybe.{◌>>=◌}
use cross_device_manager.Models.{DisabledDeviceEntry}
use cross_device_manager.Json.{
  Json, string, integer, boolean, object, fields_of, at, to_text, to_bool, to_int, to_number,
  to_int64-same, in_int64, Items, item, no_item, items_of,
}

unfoldable pub entry_to_json : DisabledDeviceEntry → Json
unfolding fields_of
entry_to_json e = object (
    fields_of (
      (bytes "bus", string e.key.bus)
      ∷ (bytes "vendor_id", string e.key.vendor_id)
      ∷ (bytes "product_id", string e.key.product_id)
      ∷ (bytes "serial", string e.key.serial)
      ∷ (bytes "position", string e.key.position)
      ∷ (bytes "mechanism", string e.mechanism)
      ∷ (bytes "last_driver", string e.last_driver)
      ∷ (bytes "last_sysfs_path", string e.last_sysfs_path)
      ∷ (bytes "disabled_at_utc", integer e.disabled_at_utc)
      ∷ (bytes "guard_suspended", boolean e.guard_suspended)
      ∷ []))

unfoldable pub entry_from_json : Json → Option DisabledDeviceEntry
unfolding at to_text to_int to_bool
entry_from_json j = do
  bus ← at (bytes "bus") j >>= to_text
  vendor_id ← at (bytes "vendor_id") j >>= to_text
  product_id ← at (bytes "product_id") j >>= to_text
  serial ← at (bytes "serial") j >>= to_text
  position ← at (bytes "position") j >>= to_text
  mechanism ← at (bytes "mechanism") j >>= to_text
  last_driver ← at (bytes "last_driver") j >>= to_text
  last_sysfs_path ← at (bytes "last_sysfs_path") j >>= to_text
  disabled_at_utc ← at (bytes "disabled_at_utc") j >>= to_int
  guard_suspended ← at (bytes "guard_suspended") j >>= to_bool
  some (record {
    key = record {
      bus = bus;
      vendor_id = vendor_id;
      product_id = product_id;
      serial = serial;
      position = position;
    };
    mechanism = mechanism;
    last_driver = last_driver;
    last_sysfs_path = last_sysfs_path;
    disabled_at_utc = disabled_at_utc;
    guard_suspended = guard_suspended;
  })

-- The loop over an array of entries; the first bad one ends it.
unfoldable pub entries_from_items : Items → Option (List DisabledDeviceEntry)
unfolding entry_from_json
entries_from_items no_item = some []
entries_from_items (item j js) = do e ← entry_from_json j; es ← entries_from_items js; some (e ∷ es)

unfoldable pub entries_to_json : List DisabledDeviceEntry → Json
unfolding entry_to_json items_of
entries_to_json es = Json.array (items_of (map entry_to_json es))

pub entry_from_json-entry_to_json :
    (e : DisabledDeviceEntry)
    → in_int64 e.disabled_at_utc ≡ true
    → entry_from_json (entry_to_json e) ≡ some e
unfolding entry_from_json entry_to_json text_eq nat_eq to_int to_number
entry_from_json-entry_to_json e h = rw (to_int64-same e.disabled_at_utc h) refl

-- The times are numbers that `std::int64_t` has.
abbrev pub Timely : List DisabledDeviceEntry → Type 0
Timely es = All (λ e. in_int64 e.disabled_at_utc ≡ true) es

pub entries_from_items-items_of :
    (es : List DisabledDeviceEntry)
    → Timely es
    → entries_from_items (items_of (map entry_to_json es)) ≡ some es
unfolding entries_from_items items_of
entries_from_items-items_of [] h = refl
entries_from_items-items_of (e ∷ es) h =
    rw (entry_from_json-entry_to_json e h.0, entries_from_items)
      (rw (entries_from_items-items_of es h.1))
