-- ===== src/App/DeviceList/Rows.antt =====
-- What the rows of the list show.
use cross_device_manager.Base.{
  ◌≡◌, refl, sym, ap, ◌∙◌, inl, inr, Bool, true, false, Option, none, some, List, List-cases, [],
  ◌∷◌, ◌++◌, Text, text_eq, bytes, arith, to_lower, length, length-append, map, Bool-cases,
}
use cross_device_manager.Models.{Device, BusType, bus_eq}
use cross_device_manager.App.DeviceList.{
  DeviceListVm, Facade, clear_rows, push_non_device_row, push_device_row, push_device_rows,
  labelled, header_text, append_rows, group_of, bus_order, append_groups, restore_selection,
  placeholder, fetched, selected_device_id, new_rows, rebuild,
}

abbrev pub present {ℓ} : {A : Type ℓ} → Option A → Bool
present none = false
present (some a) = true

map-append {ℓ κ} :
    {A : Type ℓ} {B : Type κ} (f : A → B) (xs ys : List A) → map f (xs ++ ys) ≡ map f xs ++ map f ys
map-append f [] ys = refl
map-append f (x ∷ xs) ys = ap (λ l. f x ∷ l) (map-append f xs ys)

-- The vectors have the same length, and the same rows are those of a device.
pub record IsAligned (vm : DeviceListVm) : Type 0 where
  pub texts : length vm.rows ≡ length vm.row_ids
  pub status : map present vm.row_status ≡ map present vm.row_ids
  pub name : map present vm.row_name ≡ map present vm.row_ids
  pub criticality : map present vm.row_criticality ≡ map present vm.row_ids

snoc_present {ℓ κ} :
    {A : Type ℓ} {B : Type κ} (xs : List (Option A)) (ys : List (Option B)) (x : Option A)
    (y : Option B)
    → map present xs ≡ map present ys
    → present x ≡ present y
    → map present (xs ++ x ∷ []) ≡ map present (ys ++ y ∷ [])
snoc_present xs ys x y h e =
    map-append present xs (x ∷ [])
    ∙ (ap (λ l. l ++ present x ∷ []) h
        ∙ (ap (λ b. map present ys ++ b ∷ []) e ∙ sym (map-append present ys (y ∷ []))))

length_snoc {ℓ κ} :
    {A : Type ℓ} {B : Type κ} (xs : List A) (ys : List B) (x : A) (y : B)
    → length xs ≡ length ys
    → length (xs ++ x ∷ []) ≡ length (ys ++ y ∷ [])
length_snoc xs ys x y h = omega (arith, length-append xs (x ∷ []), length-append ys (y ∷ []), h)

push_non_device_row-IsAligned :
    (text : Text) (vm : DeviceListVm) → IsAligned vm → IsAligned (push_non_device_row text vm)
unfolding push_non_device_row
push_non_device_row-IsAligned text vm a = record {
  texts = length_snoc vm.rows vm.row_ids text none a.texts;
  status = snoc_present vm.row_status vm.row_ids none none a.status refl;
  name = snoc_present vm.row_name vm.row_ids none none a.name refl;
  criticality = snoc_present vm.row_criticality vm.row_ids none none a.criticality refl;
}

push_device_rows-IsAligned :
    (ls : List (Text × Device)) (vm : DeviceListVm)
    → IsAligned vm
    → IsAligned (push_device_rows ls vm)
unfolding push_device_rows push_device_row
push_device_rows-IsAligned [] vm a = a
push_device_rows-IsAligned ((l, d) ∷ ls) vm a =
    push_device_rows-IsAligned ls (push_device_row (l, d) vm) (record {
      texts = length_snoc vm.rows vm.row_ids _ (some d.id) a.texts;
      status = snoc_present vm.row_status vm.row_ids (some d.status) (some d.id) a.status refl;
      name = snoc_present vm.row_name vm.row_ids (some l) (some d.id) a.name refl;
      criticality = snoc_present vm.row_criticality vm.row_ids _ (some d.id) a.criticality refl;
    })

append_rows-IsAligned :
    (bus : BusType) (ds : List Device) (vm : DeviceListVm)
    → IsAligned vm
    → IsAligned (append_rows bus ds vm)
unfolding append_rows
append_rows-IsAligned bus [] vm a = a
append_rows-IsAligned bus (d ∷ ds) vm a =
    push_device_rows-IsAligned (labelled (d ∷ ds)) (push_non_device_row (header_text bus) vm)
      (push_non_device_row-IsAligned (header_text bus) vm a)

append_groups-IsAligned :
    (needle : Text) (buses : List BusType) (vm : DeviceListVm)
    → IsAligned vm
    → IsAligned (append_groups needle buses vm)
unfolding append_groups
append_groups-IsAligned needle [] vm a = a
append_groups-IsAligned needle (bus ∷ buses) vm a =
    append_groups-IsAligned needle buses
      (append_rows bus (group_of needle bus vm.snapshot vm.haystacks) vm)
      (append_rows-IsAligned bus (group_of needle bus vm.snapshot vm.haystacks) vm a)

placeholder-IsAligned :
    (facade : Facade) (vm : DeviceListVm) → IsAligned vm → IsAligned (placeholder facade vm)
unfolding placeholder
placeholder-IsAligned facade vm a = elim (List-cases vm.rows) [
  | inr (x, xs, e) ↦ rw (e, placeholder) a
  | inl e ↦ elim (Bool-cases facade.unavailable) [
    | inl u ↦ rw (e, u, placeholder) a
    | inr u ↦ rw (e, u, placeholder) (push_non_device_row-IsAligned (bytes "(no devices)") vm a)
  ]
]

restore_selection-IsAligned :
    (keep : Option Text) (vm : DeviceListVm) → IsAligned vm → IsAligned (restore_selection keep vm)
unfolding restore_selection
restore_selection-IsAligned none vm a = record {
  texts = a.texts;
  status = a.status;
  name = a.name;
  criticality = a.criticality;
}
restore_selection-IsAligned (some id) vm a = record {
  texts = a.texts;
  status = a.status;
  name = a.name;
  criticality = a.criticality;
}

clear_rows-IsAligned : (vm : DeviceListVm) → IsAligned (clear_rows vm)
unfolding clear_rows
clear_rows-IsAligned vm = record { texts = refl; status = refl; name = refl; criticality = refl }

pub new_rows-IsAligned : (facade : Facade) (vm : DeviceListVm) → IsAligned (new_rows facade vm)
unfolding new_rows
new_rows-IsAligned facade vm =
    let needle = to_lower vm.filter in
    let cleared = clear_rows (fetched facade vm) in
    placeholder-IsAligned facade (append_groups needle bus_order cleared)
      (append_groups-IsAligned needle bus_order cleared (clear_rows-IsAligned (fetched facade vm)))

-- Whatever the list was, after a rebuild the five vectors have a row for each other's, and the same rows
-- are those of a device.
pub rebuild-IsAligned : (facade : Facade) (vm : DeviceListVm) → IsAligned (rebuild facade vm)
unfolding rebuild
rebuild-IsAligned facade vm =
    restore_selection-IsAligned (selected_device_id vm) (new_rows facade vm)
      (new_rows-IsAligned facade vm)
