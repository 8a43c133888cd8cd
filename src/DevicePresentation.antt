-- ===== src/DevicePresentation.antt =====
-- core/src/device_presentation.cpp, core/src/models.cpp: how a device is named to the user.
pub mod Names
use cross_device_manager.Base.{
  ℕ, zero, suc, ◌+◌, ◌-◌, Bool, true, false, not, ◌&&◌, ◌||◌, Option, none, some, List, [], ◌∷◌,
  ◌++◌, Text, bytes, text_eq, nat_eq, ◌==◌, ltb, leb, is_empty, starts_with, all_bytes, after_last,
  is_blank, skip_blanks, to_lower, take, drop, length, find_if, concat, if◌then◌else◌,
}
use mathlib.Core.List.{reverse}
use cross_device_manager.Base.Dict.{lookup}
use cross_device_manager.Models.{
  Device, BusType, pci, usb, platform, virtio, other, DeviceStatus, active, disabled, transitioning,
  error, unknown,
}
use cross_device_manager.Keys.{last_segment}

-- `to_string(DeviceStatus)`
unfoldable pub status_to_string : DeviceStatus → Text
status_to_string active = bytes "Active"
status_to_string disabled = bytes "Disabled"
status_to_string transitioning = bytes "Transitioning"
status_to_string error = bytes "Error"
status_to_string unknown = bytes "Unknown"

-- `to_string(BusType)`
unfoldable pub bus_to_string : BusType → Text
bus_to_string pci = bytes "Pci"
bus_to_string usb = bytes "Usb"
bus_to_string platform = bytes "Platform"
bus_to_string virtio = bytes "Virtio"
bus_to_string other = bytes "Other"

unfoldable pub display_bus : BusType → Text
display_bus pci = bytes "PCI"
display_bus usb = bytes "USB"
display_bus platform = bytes "Platform"
display_bus virtio = bytes "Virtio"
display_bus other = bytes "Other"

unfoldable pub property : Device → Text → Text
property d key = elim (lookup key d.properties) [ none ↦ [] | some v ↦ v ]

unfoldable pub trimmed : Text → Text
unfolding skip_blanks
trimmed value = skip_blanks (reverse (skip_blanks (reverse value)))

unfoldable pub equals_ignoring_case : Text → Text → Bool
unfolding to_lower
equals_ignoring_case a b = to_lower a == to_lower b

abbrev is_digit : ℕ → Bool
is_digit c = not (ltb c b'0') && not (ltb b'9' c)

-- `std::isxdigit`
abbrev is_xdigit : ℕ → Bool
is_xdigit c =
    is_digit c || ((not (ltb c b'a') && not (ltb b'f' c)) || (not (ltb c b'A') && not (ltb b'F' c)))

unfoldable pub is_hex_run : Text → ℕ → Bool
unfolding all_bytes
is_hex_run value digits = (length value == digits) && all_bytes is_xdigit value

unfoldable pub is_digit_run : Text → Bool
unfolding all_bytes is_empty
is_digit_run value = not (is_empty value) && all_bytes is_digit value

-- What stands before and behind the first occurrence of a byte.
unfoldable pub split_byte : ℕ → Text → Option (Text × Text)
split_byte c [] = none
split_byte c (x ∷ s) =
    let later = split_byte c s in
    if x == c then some ([], s) else elim later [ none ↦ none | some (a, b) ↦ some (x ∷ a, b) ]

-- The test of the four parts, once both colons and the point are found.
abbrev pci_parts : Text → Text → Option (Text × Text) → Bool
pci_parts domain bus none = false
pci_parts domain bus (some (slot, function)) =
    is_hex_run domain 4 && (is_hex_run bus 2 && (is_hex_run slot 2 && is_hex_run function 1))

unfoldable pub looks_like_pci_address : Text → Bool
unfolding split_byte is_hex_run
looks_like_pci_address value = elim (split_byte b':' value) [
  | none ↦ false
  | some (domain, rest) ↦ elim (split_byte b':' rest) [
    | none ↦ false
    | some (bus, more) ↦ pci_parts domain bus (split_byte b'.' more)
  ]
]

-- The loop over the ports, with the bytes of the current one. Nothing may be missing behind a point.
unfoldable pub ports_loop : Text → Text → Bool
unfolding is_digit_run
ports_loop port [] = is_digit_run port
ports_loop port (c ∷ s) =
    let next = ports_loop [] s in
    let longer = ports_loop (port ++ (c ∷ [])) s in
    if c == b'.' then is_digit_run port && next else longer

unfoldable pub looks_like_usb_position : Text → Bool
unfolding starts_with is_digit_run split_byte ports_loop
looks_like_usb_position value =
    if starts_with value (bytes "usb")
    then is_digit_run (drop 3 value)
    else elim (split_byte b'-' value) [
      | none ↦ false
      | some (hub, ports) ↦ is_digit_run hub && ports_loop [] ports
    ]

unfoldable pub name_is_positional : Device → Bool
unfolding last_segment is_empty looks_like_pci_address looks_like_usb_position
name_is_positional d =
    is_empty d.name
    || ((not (is_empty (last_segment d.sysfs_path)) && (d.name == last_segment d.sysfs_path))
        || (looks_like_pci_address d.name || looks_like_usb_position d.name))

abbrev pub legal_suffixes : List Text
legal_suffixes =
    bytes "Incorporated"
    ∷ bytes "Inc."
    ∷ bytes "Inc"
    ∷ bytes "Corporation"
    ∷ bytes "Corp."
    ∷ bytes "Corp"
    ∷ bytes "Company"
    ∷ bytes "Co."
    ∷ bytes "Co"
    ∷ bytes "Limited"
    ∷ bytes "Ltd."
    ∷ bytes "Ltd"
    ∷ bytes "GmbH"
    ∷ bytes "LLC"
    ∷ bytes "AG"
    ∷ bytes "S.A."
    ∷ bytes "B.V."
    ∷ []

abbrev last_byte : Text → ℕ
last_byte [] = 0
last_byte (c ∷ []) = c
last_byte (c ∷ d ∷ s) = last_byte (d ∷ s)

-- What the last bracket opens, if the text ends in the bracket that closes it.
unfoldable pub bracketed_alias : Text → Text
unfolding after_last
bracketed_alias vendor =
    if leb (length vendor) 2 || not (last_byte vendor == b']')
    then []
    else elim (after_last b'[' vendor) [
      | none ↦ []
      | some r ↦ if leb (length r) 1 then [] else take (length r - 1) r
    ]

-- Does the text end in this suffix, behind a blank or a comma?
unfoldable pub has_suffix : Text → Text → Bool
unfolding equals_ignoring_case
has_suffix vendor suffix =
    let stem = length vendor - length suffix in
    ltb (length suffix) (length vendor)
    && (((last_byte (take stem vendor) == b' ') || (last_byte (take stem vendor) == b','))
        && equals_ignoring_case (drop stem vendor) suffix)

-- The loop that pops commas and blanks off the end, on the reversed text.
unfoldable pub skip_punctuation : Text → Text
unfolding is_blank
skip_punctuation [] = []
skip_punctuation (c ∷ s) =
    let rest = skip_punctuation s in if (c == b',') || is_blank c then rest else c ∷ s

-- Was there a suffix, and the text afterwards.
unfoldable pub drop_legal_suffix : Text → Bool × Text
unfolding skip_punctuation has_suffix find_if
drop_legal_suffix vendor =
    let bare = reverse (skip_punctuation (reverse vendor)) in
    elim (find_if (has_suffix bare) legal_suffixes) [
      | none ↦ (false, bare)
      | some suffix ↦ (true, take (length bare - length suffix) bare)
    ]

unfoldable pub drop_suffixes : ℕ → Text → Text
unfolding drop_legal_suffix
drop_suffixes zero vendor = vendor
drop_suffixes (suc passes) vendor =
    let (hit, left) = drop_legal_suffix vendor in
    let more = drop_suffixes passes left in if hit then more else left

unfoldable pub short_vendor : Text → Text
unfolding trimmed bracketed_alias drop_suffixes is_empty
short_vendor vendor =
    let v = trimmed vendor in
    if is_empty (bracketed_alias v) then trimmed (drop_suffixes 4 v) else bracketed_alias v

unfoldable pub underscores_to_blanks : Text → Text
underscores_to_blanks [] = []
underscores_to_blanks (c ∷ s) = (if c == b'_' then b' ' else c) ∷ underscores_to_blanks s

unfoldable pub clean_self_reported_model : Text → Text → Text
unfolding underscores_to_blanks trimmed equals_ignoring_case is_hex_run is_empty
clean_self_reported_model model product_id =
    let m = trimmed (underscores_to_blanks model) in
    if is_empty m || (equals_ignoring_case m product_id || is_hex_run m 4) then [] else m

unfoldable pub with_vendor : Text → Text → Text
unfolding equals_ignoring_case is_empty
with_vendor vendor rest =
    if is_empty vendor || equals_ignoring_case (take (length vendor) rest) vendor
    then rest
    else vendor ++ (bytes " " ++ rest)

unfoldable pub display_device_address : Device → Text
unfolding last_segment
display_device_address d = last_segment d.sysfs_path

-- The bytes of U+00B7 between blanks.
abbrev separator : Text
separator = 32 ∷ 194 ∷ 183 ∷ 32 ∷ []

unfoldable pub display_device_identity : Device → Text
unfolding last_segment is_empty
display_device_identity d =
    let position = last_segment d.sysfs_path in
    let ids = d.vendor_id ++ (bytes ":" ++ d.product_id) in
    if is_empty d.vendor_id && is_empty d.product_id
    then position
    else if is_empty position
    then ids
    else ids ++ (separator ++ position)

-- The category, by the subclass or else the class.
unfoldable pub category_of : Device → Text
unfolding trimmed property is_empty
category_of d =
    let subclass = trimmed (property d (bytes "ID_PCI_SUBCLASS_FROM_DATABASE")) in
    if is_empty subclass
    then trimmed (property d (bytes "ID_PCI_CLASS_FROM_DATABASE"))
    else subclass

unfoldable pub display_device_name : Device → Text
unfolding name_is_positional trimmed property clean_self_reported_model short_vendor category_of
    with_vendor display_device_identity display_bus is_empty
display_device_name d =
    let catalogued = trimmed (property d (bytes "ID_MODEL_FROM_DATABASE")) in
    let self = clean_self_reported_model (property d (bytes "ID_MODEL")) d.product_id in
    let vendor = short_vendor (property d (bytes "ID_VENDOR_FROM_DATABASE")) in
    if not (name_is_positional d)
    then d.name
    else if not (is_empty catalogued)
    then catalogued
    else if not (is_empty self)
    then self
    else if not (is_empty (category_of d))
    then with_vendor vendor (category_of d)
    else if not (is_empty vendor)
    then vendor ++ bytes " device"
    else if not (is_empty (display_device_identity d))
    then display_bus d.bus ++ bytes " device"
    else if is_empty d.name
    then bytes "(unknown device)"
    else d.name
