-- ===== src/App/DeviceList/Shown.antt =====
-- Which devices the rows stand for.
use cross_device_manager.Base.{
  ℕ, suc, ◌+◌, ◌≡◌, refl, ap, ◌∙◌, inl, inr, Bool, true, false, ◌&&◌, ◌||◌, Option, none, some,
  List, List-cases, [], ◌∷◌, ◌++◌, Text, text_eq, bytes, ◌==◌, arith, is_empty, has_sub, to_lower,
  Bool-cases, if◌then◌else◌,
}
use cross_device_manager.Models.{Device, BusType, pci, usb, platform, virtio, other, bus_eq}
use cross_device_manager.DevicePresentation.{display_device_name}
use cross_device_manager.App.DeviceList.{
  DeviceListVm, Facade, clear_rows, push_non_device_row, push_device_row, push_device_rows,
  insert_label, labelled, header_text, append_rows, group_of, bus_order, append_groups,
  restore_selection, placeholder, fetched, selected_device_id, new_rows, rebuild,
}

-- How many rows there are for a device id.
unfoldable pub count_rows : Text → List (Option Text) → ℕ
count_rows k [] = 0
count_rows k (none ∷ xs) = count_rows k xs
count_rows k (some i ∷ xs) = let rest = count_rows k xs in if i == k then suc rest else rest

unfoldable count_labels : Text → List (Text × Device) → ℕ
count_labels k [] = 0
count_labels k ((l, d) ∷ ls) = let rest = count_labels k ls in if d.id == k then suc rest else rest

unfoldable count_devices : Text → List Device → ℕ
count_devices k [] = 0
count_devices k (d ∷ ds) = let rest = count_devices k ds in if d.id == k then suc rest else rest

-- How many devices of that id have the needle in their haystack.
unfoldable pub count_matches : Text → Text → List Device → List Text → ℕ
count_matches k needle [] hs = 0
count_matches k needle (d ∷ ds) [] = 0
count_matches k needle (d ∷ ds) (h ∷ hs) =
    let rest = count_matches k needle ds hs in
    if (is_empty needle || has_sub needle h) && (d.id == k) then suc rest else rest

count_rows-append :
    (k : Text) (xs ys : List (Option Text))
    → count_rows k (xs ++ ys) ≡ count_rows k xs + count_rows k ys
unfolding count_rows
count_rows-append k [] ys = omega arith
count_rows-append k (none ∷ xs) ys = count_rows-append k xs ys
count_rows-append k (some i ∷ xs) ys = ground (arith, count_rows-append k xs ys)

count_rows-push_non_device_row :
    (k text : Text) (vm : DeviceListVm)
    → count_rows k (push_non_device_row text vm).row_ids ≡ count_rows k vm.row_ids
unfolding push_non_device_row count_rows
count_rows-push_non_device_row k text vm = omega (arith, count_rows-append k vm.row_ids (none ∷ []))

count_rows-push_device_rows :
    (k : Text) (ls : List (Text × Device)) (vm : DeviceListVm)
    → count_rows k (push_device_rows ls vm).row_ids ≡ count_rows k vm.row_ids + count_labels k ls
unfolding push_device_rows push_device_row count_rows count_labels
count_rows-push_device_rows k [] vm = omega arith
count_rows-push_device_rows k ((l, d) ∷ ls) vm = ground (
  arith,
  count_rows-push_device_rows k ls (push_device_row (l, d) vm),
  count_rows-append k vm.row_ids (some d.id ∷ []),
)

count_labels-insert_label :
    (k label : Text) (d : Device) (ls : List (Text × Device))
    → count_labels k (insert_label (label, d) ls)
      ≡ (if d.id == k then suc (count_labels k ls) else count_labels k ls)
unfolding insert_label count_labels
count_labels-insert_label k label d [] = refl
count_labels-insert_label k label d ((l, e) ∷ ls) =
    ground (arith, count_labels-insert_label k label d ls)

count_labels-labelled :
    (k : Text) (ds : List Device) → count_labels k (labelled ds) ≡ count_devices k ds
unfolding labelled count_labels count_devices
count_labels-labelled k [] = refl
count_labels-labelled k (d ∷ ds) = ground (
  arith,
  count_labels-labelled k ds,
  count_labels-insert_label k (display_device_name d) d (labelled ds),
)

count_rows-append_rows :
    (k : Text) (bus : BusType) (ds : List Device) (vm : DeviceListVm)
    → count_rows k (append_rows bus ds vm).row_ids ≡ count_rows k vm.row_ids + count_devices k ds
unfolding append_rows count_devices
count_rows-append_rows k bus [] vm = omega arith
count_rows-append_rows k bus (d ∷ ds) vm = omega (
  arith,
  count_rows-push_device_rows k (labelled (d ∷ ds)) (push_non_device_row (header_text bus) vm),
  count_rows-push_non_device_row k (header_text bus) vm,
  count_labels-labelled k (d ∷ ds),
)

abbrev in_bus : BusType → Bool → BusType → ℕ
in_bus b hit bus = if hit && (b == bus) then 1 else 0

group_of-count :
    (k needle : Text) (bus : BusType) (d : Device) (ds : List Device) (h : Text) (hs : List Text)
    → count_devices k (group_of needle bus (d ∷ ds) (h ∷ hs))
      ≡ in_bus d.bus ((is_empty needle || has_sub needle h) && (d.id == k)) bus
        + count_devices k (group_of needle bus ds hs)
unfolding group_of count_devices
group_of-count k needle bus d ds h hs = ground arith

-- A device has exactly one of the five buses.
five_buses :
    (b : BusType) (hit : Bool)
    → in_bus b hit pci
        + in_bus b hit usb
        + in_bus b hit platform
        + in_bus b hit virtio
        + in_bus b hit other
      ≡ (if hit then 1 else 0)
unfolding bus_eq
five_buses pci true = refl
five_buses usb true = refl
five_buses platform true = refl
five_buses virtio true = refl
five_buses other true = refl
five_buses pci false = refl
five_buses usb false = refl
five_buses platform false = refl
five_buses virtio false = refl
five_buses other false = refl

-- The devices of the five buses together.
one_bus :
    (k needle : Text) (ds : List Device) (hs : List Text)
    → count_devices k (group_of needle pci ds hs)
        + count_devices k (group_of needle usb ds hs)
        + count_devices k (group_of needle platform ds hs)
        + count_devices k (group_of needle virtio ds hs)
        + count_devices k (group_of needle other ds hs)
      ≡ count_matches k needle ds hs
unfolding group_of count_devices count_matches
one_bus k needle [] hs = omega arith
one_bus k needle (d ∷ ds) [] = omega arith
one_bus k needle (d ∷ ds) (h ∷ hs) =
    let hit = (is_empty needle || has_sub needle h) && (d.id == k) in
    let sum = five_buses d.bus hit in
    ground (
      arith,
      sum,
      one_bus k needle ds hs,
      group_of-count k needle pci d ds h hs,
      group_of-count k needle usb d ds h hs,
      group_of-count k needle platform d ds h hs,
      group_of-count k needle virtio d ds h hs,
      group_of-count k needle other d ds h hs,
    )

push_device_rows-kept :
    (ls : List (Text × Device)) (vm : DeviceListVm)
    → ((push_device_rows ls vm).snapshot ≡ vm.snapshot)
      × ((push_device_rows ls vm).haystacks ≡ vm.haystacks)
unfolding push_device_rows push_device_row
push_device_rows-kept [] vm = (refl, refl)
push_device_rows-kept (l ∷ ls) vm = push_device_rows-kept ls (push_device_row l vm)

append_rows-kept :
    (bus : BusType) (ds : List Device) (vm : DeviceListVm)
    → ((append_rows bus ds vm).snapshot ≡ vm.snapshot)
      × ((append_rows bus ds vm).haystacks ≡ vm.haystacks)
unfolding append_rows push_non_device_row
append_rows-kept bus [] vm = (refl, refl)
append_rows-kept bus (d ∷ ds) vm =
    push_device_rows-kept (labelled (d ∷ ds)) (push_non_device_row (header_text bus) vm)

abbrev sum_groups : Text → Text → List BusType → List Device → List Text → ℕ
sum_groups k needle [] ds hs = 0
sum_groups k needle (bus ∷ buses) ds hs =
    count_devices k (group_of needle bus ds hs) + sum_groups k needle buses ds hs

-- The rows that the groups add.
count_rows-append_groups :
    (k needle : Text) (buses : List BusType) (vm : DeviceListVm)
    → count_rows k (append_groups needle buses vm).row_ids
      ≡ count_rows k vm.row_ids + sum_groups k needle buses vm.snapshot vm.haystacks
unfolding append_groups
count_rows-append_groups k needle [] vm = omega arith
count_rows-append_groups k needle (bus ∷ buses) vm =
    let group = group_of needle bus vm.snapshot vm.haystacks in
    let (same, kept) = append_rows-kept bus group vm in
    let more : sum_groups k needle buses (append_rows bus group vm).snapshot
          (append_rows bus group vm).haystacks
        ≡ sum_groups k needle buses vm.snapshot vm.haystacks =
      rw (same, kept) refl in
    omega (
      arith,
      count_rows-append_groups k needle buses (append_rows bus group vm),
      count_rows-append_rows k bus group vm,
      more,
    )

count_rows-placeholder :
    (k : Text) (facade : Facade) (vm : DeviceListVm)
    → count_rows k (placeholder facade vm).row_ids ≡ count_rows k vm.row_ids
unfolding placeholder
count_rows-placeholder k facade vm = elim (List-cases vm.rows) [
  | inr (x, xs, e) ↦ rw (e, placeholder) refl
  | inl e ↦ elim (Bool-cases facade.unavailable) [
    | inl u ↦ rw (e, u, placeholder) refl
    | inr u ↦ rw (e, u, placeholder) (count_rows-push_non_device_row k (bytes "(no devices)") vm)
  ]
]

row_ids-restore_selection :
    (keep : Option Text) (vm : DeviceListVm) → (restore_selection keep vm).row_ids ≡ vm.row_ids
unfolding restore_selection
row_ids-restore_selection none vm = refl
row_ids-restore_selection (some id) vm = refl

pub new_rows-count_matches :
    (facade : Facade) (vm : DeviceListVm) (k : Text)
    → count_rows k (new_rows facade vm).row_ids
      ≡ count_matches k
          (to_lower vm.filter)
          (fetched facade vm).snapshot
          (fetched facade vm).haystacks
unfolding new_rows clear_rows count_rows
new_rows-count_matches facade vm k =
    let needle = to_lower vm.filter in
    let start = fetched facade vm in
    let cleared = clear_rows start in
    count_rows-placeholder k facade (append_groups needle bus_order cleared)
    ∙ omega (
      arith,
      count_rows-append_groups k needle bus_order cleared,
      one_bus k needle start.snapshot start.haystacks,
    )

-- A rebuild shows each device of the snapshot that the filter lets through as often as it is there, and
-- no other one.
pub rebuild-count_matches :
    (facade : Facade) (vm : DeviceListVm) (k : Text)
    → count_rows k (rebuild facade vm).row_ids
      ≡ count_matches k
          (to_lower vm.filter)
          (fetched facade vm).snapshot
          (fetched facade vm).haystacks
unfolding rebuild
rebuild-count_matches facade vm k =
    ap (count_rows k) (row_ids-restore_selection (selected_device_id vm) (new_rows facade vm))
    ∙ new_rows-count_matches facade vm k
