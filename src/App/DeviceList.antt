-- ===== src/App/DeviceList.antt =====
-- app/src/device_list_vm.cpp: the rows of the list of devices, in five parallel vectors. What the facade
-- answers is an argument. The order in which `std::ranges::sort` leaves equal labels is not specified;
-- here it is the order of the snapshot. The hooks of the front ends are left out.
pub mod Rows
pub mod Shown
pub mod Selection
use cross_device_manager.Base.{
  ℕ, zero, suc, ◌+◌, ◌-◌, Bool, true, false, not, ◌&&◌, ◌||◌, Option, none, some, List, [], ◌∷◌,
  ◌++◌, Text, bytes, text_eq, nat_eq, option_eq, ◌==◌, ltb, is_empty, text_lt, to_lower, has_sub,
  concat, length, map, if◌then◌else◌,
}
use cross_device_manager.Base.Int.{ℤ, pos, negsuc}
use cross_device_manager.Models.{
  Device, DeviceStatus, BusType, pci, usb, platform, virtio, other, bus_eq, CriticalityFacts,
}
use cross_device_manager.Criticality.{Criticality, ordinary, classify_device}
use cross_device_manager.DevicePresentation.{
  bus_to_string, display_bus, display_device_name, display_device_identity,
}

pub record DeviceListVm : Type 0 where
  pub filter : Text
  pub rows : List Text
  pub row_ids : List (Option Text)
  pub row_status : List (Option DeviceStatus)
  pub row_name : List (Option Text)
  pub row_criticality : List (Option Criticality)
  pub snapshot : List Device
  pub haystacks : List Text
  pub facts : Option CriticalityFacts
  pub snapshot_valid : Bool
  pub rebuild_queued : Bool
  pub selected : ℤ

-- What `facade_` answers: `devices()`, `criticalityFacts()`, and is the daemon unavailable?
pub record Facade : Type 0 where
  pub devices : List Device
  pub facts : Option CriticalityFacts
  pub unavailable : Bool

unfoldable pub haystack_for : Device → Text
unfolding to_lower display_device_name bus_to_string
haystack_for d = to_lower (
    concat (
      display_device_name d
      ∷ bytes " "
      ∷ d.name
      ∷ bytes " "
      ∷ d.vendor_id
      ∷ bytes ":"
      ∷ d.product_id
      ∷ bytes " "
      ∷ bus_to_string d.bus
      ∷ []))

-- Is a rebuild to be posted, and the list.
unfoldable pub on_model_changed : DeviceListVm → Bool × DeviceListVm
on_model_changed vm =
    (not vm.rebuild_queued, record vm { snapshot_valid = false; rebuild_queued = true })

unfoldable pub refresh_snapshot : Facade → DeviceListVm → DeviceListVm
unfolding haystack_for
refresh_snapshot facade vm = record vm {
  snapshot = facade.devices;
  facts = facade.facts;
  haystacks = map haystack_for facade.devices;
}

unfoldable pub clear_rows : DeviceListVm → DeviceListVm
clear_rows vm = record vm {
  rows = [];
  row_ids = [];
  row_status = [];
  row_name = [];
  row_criticality = [];
}

unfoldable pub push_non_device_row : Text → DeviceListVm → DeviceListVm
push_non_device_row text vm = record vm {
  rows = vm.rows ++ text ∷ [];
  row_ids = vm.row_ids ++ none ∷ [];
  row_status = vm.row_status ++ none ∷ [];
  row_name = vm.row_name ++ none ∷ [];
  row_criticality = vm.row_criticality ++ none ∷ [];
}

unfoldable pub row_text : Text → Device → Text
unfolding display_device_identity is_empty
row_text label d =
    let identity = display_device_identity d in
    if is_empty identity
    then bytes "  " ++ label
    else concat (bytes "  " ∷ label ∷ bytes "  (" ∷ identity ∷ bytes ")" ∷ [])

unfoldable pub criticality_of : Option CriticalityFacts → Device → Criticality
unfolding classify_device
criticality_of none d = ordinary
criticality_of (some facts) d = classify_device facts d.sysfs_path

-- One round of the loop over the sorted group.
unfoldable pub push_device_row : Text × Device → DeviceListVm → DeviceListVm
unfolding row_text criticality_of
push_device_row (label, d) vm = record vm {
  rows = vm.rows ++ row_text label d ∷ [];
  row_ids = vm.row_ids ++ some d.id ∷ [];
  row_status = vm.row_status ++ some d.status ∷ [];
  row_name = vm.row_name ++ some label ∷ [];
  row_criticality = vm.row_criticality ++ some (criticality_of vm.facts d) ∷ [];
}

unfoldable pub push_device_rows : List (Text × Device) → DeviceListVm → DeviceListVm
unfolding push_device_row
push_device_rows [] vm = vm
push_device_rows (l ∷ ls) vm = push_device_rows ls (push_device_row l vm)

unfoldable pub insert_label : Text × Device → List (Text × Device) → List (Text × Device)
unfolding text_lt
insert_label (label, d) [] = (label, d) ∷ []
insert_label (label, d) ((l, e) ∷ ls) =
    let later = insert_label (label, d) ls in
    if text_lt l label then (l, e) ∷ later else (label, d) ∷ (l, e) ∷ ls

-- The labels of a group, sorted; the program leaves the order of equal labels open, here they keep it.
unfoldable pub labelled : List Device → List (Text × Device)
unfolding insert_label display_device_name
labelled [] = []
labelled (d ∷ ds) = insert_label (display_device_name d, d) (labelled ds)

-- The bytes of two U+2500.
abbrev rule : Text
rule = 226 ∷ 148 ∷ 128 ∷ 226 ∷ 148 ∷ 128 ∷ []

unfoldable pub header_text : BusType → Text
unfolding display_bus
header_text bus = concat (rule ∷ bytes " " ∷ display_bus bus ∷ bytes " " ∷ rule ∷ [])

unfoldable pub append_rows : BusType → List Device → DeviceListVm → DeviceListVm
unfolding labelled header_text push_non_device_row push_device_rows
append_rows bus [] vm = vm
append_rows bus (d ∷ ds) vm =
    push_device_rows (labelled (d ∷ ds)) (push_non_device_row (header_text bus) vm)

-- The devices of a bus whose haystack has the needle, in the order of the snapshot.
unfoldable pub group_of : Text → BusType → List Device → List Text → List Device
unfolding has_sub is_empty
group_of needle bus [] hs = []
group_of needle bus (d ∷ ds) [] = []
group_of needle bus (d ∷ ds) (h ∷ hs) =
    let rest = group_of needle bus ds hs in
    if (is_empty needle || has_sub needle h) && (d.bus == bus) then d ∷ rest else rest

abbrev pub bus_order : List BusType
bus_order = pci ∷ usb ∷ platform ∷ virtio ∷ other ∷ []

unfoldable pub append_groups : Text → List BusType → DeviceListVm → DeviceListVm
unfolding append_rows group_of
append_groups needle [] vm = vm
append_groups needle (bus ∷ buses) vm =
    append_groups needle buses (append_rows bus (group_of needle bus vm.snapshot vm.haystacks) vm)

-- The element of that index.
unfoldable pub get_elem? {ℓ} : {A : Type ℓ} → ℕ → List A → Option A
get_elem? n [] = none
get_elem? zero (x ∷ xs) = some x
get_elem? (suc n) (x ∷ xs) = get_elem? n xs

-- `nullopt` for a row that is no device's, and out of range.
unfoldable pub at_row {ℓ} : {A : Type ℓ} → ℤ → List (Option A) → Option A
unfolding get_elem?
at_row (negsuc n) xs = none
at_row (pos n) xs = elim (get_elem? n xs) [ none ↦ none | some o ↦ o ]

unfoldable pub selected_device_id : DeviceListVm → Option Text
unfolding at_row
selected_device_id vm = at_row vm.selected vm.row_ids

-- `statusForRow`, `nameForRow`, `criticalityForRow`
unfoldable pub status_for_row : ℤ → DeviceListVm → Option DeviceStatus
unfolding at_row
status_for_row row vm = at_row row vm.row_status

unfoldable pub name_for_row : ℤ → DeviceListVm → Option Text
unfolding at_row
name_for_row row vm = at_row row vm.row_name

unfoldable pub criticality_for_row : ℤ → DeviceListVm → Option Criticality
unfolding at_row
criticality_for_row row vm = at_row row vm.row_criticality

abbrev is_header_row : Option (Option Text) → Bool
is_header_row none = false
is_header_row (some none) = true
is_header_row (some (some id)) = false

unfoldable pub is_header : ℤ → DeviceListVm → Bool
unfolding get_elem?
is_header (negsuc n) vm = false
is_header (pos n) vm = is_header_row (get_elem? n vm.row_ids)

-- `std::ranges::find`, as an index.
unfoldable pub index_of : Option Text → List (Option Text) → Option ℕ
index_of keep [] = none
index_of keep (x ∷ xs) =
    let later = index_of keep xs in
    if x == keep then some 0 else elim later [ none ↦ none | some n ↦ some (suc n) ]

-- `std::max(0, std::min(size - 1, selected))`
unfoldable pub clamp_row : ℕ → ℤ → ℤ
clamp_row size (negsuc n) = pos 0
clamp_row size (pos n) = pos (if ltb n size then n else size - 1)

unfoldable pub restore_selection : Option Text → DeviceListVm → DeviceListVm
unfolding index_of clamp_row
restore_selection none vm = record vm { selected = clamp_row (length vm.rows) vm.selected }
restore_selection (some id) vm =
    let at : ℤ = elim (index_of (some id) vm.row_ids) [ none ↦ vm.selected | some n ↦ pos n ] in
    record vm { selected = clamp_row (length vm.rows) at }

unfoldable pub placeholder : Facade → DeviceListVm → DeviceListVm
unfolding push_non_device_row
placeholder facade vm = elim vm.rows [
  | _ ∷ _ ↦ vm
  | [] ↦ if facade.unavailable then vm else push_non_device_row (bytes "(no devices)") vm
]

-- The list with a snapshot that is up to date.
unfoldable pub fetched : Facade → DeviceListVm → DeviceListVm
unfolding refresh_snapshot
fetched facade vm =
    if vm.snapshot_valid then vm else refresh_snapshot facade (record vm { snapshot_valid = true })

-- `rebuild`, up to the selection.
unfoldable pub new_rows : Facade → DeviceListVm → DeviceListVm
unfolding fetched clear_rows append_groups placeholder to_lower
new_rows facade vm =
    placeholder facade
      (append_groups (to_lower vm.filter) bus_order (clear_rows (fetched facade vm)))

unfoldable pub rebuild : Facade → DeviceListVm → DeviceListVm
unfolding selected_device_id new_rows restore_selection
rebuild facade vm = restore_selection (selected_device_id vm) (new_rows facade vm)

unfoldable pub set_filter : Text → Facade → DeviceListVm → DeviceListVm
unfolding rebuild
set_filter filter facade vm = rebuild facade (record vm { filter = filter })
