-- ===== src/Validation.antt =====
-- daemon/include/devmgr/daemon/request_validation.hpp: the checks that every request passes first.
pub mod Charset
use cross_device_manager.Base.{
  ℕ, ◌/◌, ◌%◌, Bool, true, false, ◌&&◌, ◌||◌, not, ◌++◌, Text, bytes, is_empty, all_bytes, has_byte,
  length, ltb, leb, nat_eq, ◌==◌,
}
use cross_device_manager.Base.Result.{Result, ok, err, ◌>>=◌, ◌>>◌, refuse_if, invalid_args}

abbrev pub caller_max_length : ℕ
caller_max_length = 255

abbrev pub name_max_length : ℕ
name_max_length = 63

abbrev pub path_max_length : ℕ
path_max_length = 4096

abbrev pub snapshot_id_max_length : ℕ
snapshot_id_max_length = 64

abbrev pub snapshot_label_max_length : ℕ
snapshot_label_max_length = 128

abbrev pub json_max_bytes : ℕ
json_max_bytes = 1_048_576

-- `if (bad) return invalid(message);`
abbrev pub invalid_if : Bool → Text → Result (Unit {0})
invalid_if bad message = refuse_if bad invalid_args message

-- `std::isalnum` and `std::isprint` of the C locale.
unfoldable pub is_alnum : ℕ → Bool
is_alnum c =
    (leb b'0' c && leb c b'9') || ((leb b'A' c && leb c b'Z') || (leb b'a' c && leb c b'z'))

unfoldable pub is_print : ℕ → Bool
is_print c = leb 0x20 c && leb c 0x7e

unfoldable pub is_name_byte : ℕ → Bool
unfolding is_alnum
is_name_byte c = is_alnum c || ((c == b'_') || (c == b'-'))

unfoldable pub is_id_byte : ℕ → Bool
is_id_byte c = (leb b'0' c && leb c b'9') || (leb b'a' c && leb c b'f')

-- `(c & 0x80) != 0` is the bit of value 128.
unfoldable pub is_label_byte : ℕ → Bool
unfolding is_print
is_label_byte c = is_print c || not ((c / 128) % 2 == 0)

unfoldable pub caller : Text → Result (Unit {0})
caller value = do
  invalid_if (is_empty value) (bytes "empty caller")
  invalid_if (ltb caller_max_length (length value)) (bytes "caller too long")

unfoldable pub name : Text → Text → Result (Unit {0})
name value what = do
  invalid_if (is_empty value) (bytes "empty " ++ (what ++ bytes " name"))
  invalid_if (ltb name_max_length (length value)) (what ++ bytes " name too long")
  invalid_if (not (all_bytes is_name_byte value)) (bytes "invalid " ++ (what ++ bytes " name"))

unfoldable pub sysfs_path : Text → Result (Unit {0})
sysfs_path value = do
  invalid_if (is_empty value) (bytes "empty sysfs path")
  invalid_if (ltb path_max_length (length value)) (bytes "sysfs path too long")
  invalid_if (has_byte 0 value) (bytes "sysfs path contains NUL")

unfoldable pub snapshot_id : Text → Result (Unit {0})
snapshot_id value = do
  invalid_if (is_empty value) (bytes "empty snapshot id")
  invalid_if (ltb snapshot_id_max_length (length value)) (bytes "snapshot id too long")
  invalid_if (not (all_bytes is_id_byte value)) (bytes "invalid snapshot id")

unfoldable pub snapshot_label : Text → Result (Unit {0})
snapshot_label value = do
  invalid_if (ltb snapshot_label_max_length (length value)) (bytes "snapshot label too long")
  invalid_if (not (all_bytes is_label_byte value)) (bytes "invalid snapshot label")

unfoldable pub json_size : Text → Result (Unit {0})
json_size text = invalid_if (ltb json_max_bytes (length text)) (bytes "json payload too large")
