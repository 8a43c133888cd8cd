-- ===== src/App/DeviceList/Selection.antt =====
-- The selected row through a rebuild.
use cross_device_manager.Base.{
  ℕ, zero, suc, ◌<◌, ◌≡◌, refl, sym, ap, ◌∙◌, ◌⊎◌, inl, inr, false, Option, none, some, List, [],
  ◌∷◌, Text, text_eq, option_eq, ◌==◌, eq_true, eq_false, ne_false, arith, to_lower, length,
  Bool-cases,
}
use cross_device_manager.Base.Int.{ℤ, pos, negsuc}
use cross_device_manager.App.DeviceList.{
  DeviceListVm, Facade, get_elem?, at_row, index_of, clamp_row, restore_selection, fetched,
  selected_device_id, new_rows, rebuild,
}
use cross_device_manager.App.DeviceList.Rows.{IsAligned, new_rows-IsAligned}
use cross_device_manager.App.DeviceList.Shown.{count_rows, count_matches, new_rows-count_matches}

-- A row that exists, or 0.
abbrev pub IsRow : ℕ → ℤ → Type 0
IsRow size (negsuc n) = ⊥
IsRow size (pos n) = (n < size) ⊎ ((size ≡ 0) × (n ≡ 0))

clamp_row-IsRow : (size : ℕ) (at : ℤ) → IsRow size (clamp_row size at)
unfolding clamp_row
clamp_row-IsRow zero (negsuc n) = inr (refl, refl)
clamp_row-IsRow (suc size) (negsuc n) = inl (omega arith)
clamp_row-IsRow zero (pos n) = inr (refl, ground arith)
clamp_row-IsRow (suc size) (pos n) = inl (ground arith)

restore_selection-IsRow :
    (keep : Option Text) (vm : DeviceListVm)
    → IsRow (length (restore_selection keep vm).rows) (restore_selection keep vm).selected
unfolding restore_selection
restore_selection-IsRow none vm = clamp_row-IsRow (length vm.rows) vm.selected
restore_selection-IsRow (some id) vm = clamp_row-IsRow (length vm.rows) _

some_other : (i id : Text) → (some i == some id) ≡ false → (i == id) ≡ false
some_other i id h = ne_false i id (λ same. eq_false (some i) (some id) h (ap some same))

other_row :
    (id : Text) (x : Option Text) (xs : List (Option Text))
    → (x == some id) ≡ false
    → count_rows id (x ∷ xs) ≡ count_rows id xs
unfolding count_rows
other_row id none xs h = refl
other_row id (some i) xs h = ground (arith, some_other i id h)

-- An id that has a row is found in a row that exists and is its own.
index_of-found :
    (id : Text) (ids : List (Option Text)) (n : ℕ)
    → count_rows id ids ≡ suc n
    → (i : ℕ) × (index_of (some id) ids ≡ some i)
      × (i < length ids)
      × (get_elem? i ids ≡ some (some id))
unfolding index_of get_elem? count_rows
index_of-found id [] n h = absurd (omega arith)
index_of-found id (x ∷ xs) n h = elim (Bool-cases (x == some id)) [
  | inl e ↦ (0, ground arith, omega arith, ap some (eq_true x (some id) e))
  | inr e ↦
      let (i, at, lt, here) = index_of-found id xs n (sym (other_row id x xs e) ∙ h) in
      (suc i, ground (arith, at), omega arith, here)
]

clamp_row_inside : (size n : ℕ) → n < size → clamp_row size (pos n) ≡ pos n
unfolding clamp_row
clamp_row_inside size n lt = ground arith

at_row_found :
    (i : ℕ) (ids : List (Option Text)) (id : Text)
    → get_elem? i ids ≡ some (some id)
    → at_row (pos i) ids ≡ some id
unfolding at_row
at_row_found i ids id here = rw (here, at_row) refl

-- The selection is restored to the row of the id.
restore_selection-found :
    (id : Text) (vm : DeviceListVm) (n : ℕ)
    → IsAligned vm
    → count_rows id vm.row_ids ≡ suc n
    → selected_device_id (restore_selection (some id) vm) ≡ some id
unfolding restore_selection selected_device_id at_row
restore_selection-found id vm n a h =
    let (i, at, lt, here) = index_of-found id vm.row_ids n h in
    let row = clamp_row_inside (length vm.rows) i (omega (arith, lt, a.texts)) in
    rw (at, restore_selection)
      (ap (λ r. at_row r vm.row_ids) row ∙ at_row_found i vm.row_ids id here)

-- After a rebuild the selected row exists, or is 0 in an empty list.
pub rebuild-IsRow :
    (facade : Facade) (vm : DeviceListVm)
    → IsRow (length (rebuild facade vm).rows) (rebuild facade vm).selected
unfolding rebuild
rebuild-IsRow facade vm = restore_selection-IsRow (selected_device_id vm) _

-- A device that is selected stays so through a rebuild, wherever its row goes, as long as the new
-- snapshot has it and the filter lets it through.
pub selected_device_id-rebuild :
    (facade : Facade) (vm : DeviceListVm) (id : Text) (n : ℕ)
    → selected_device_id vm ≡ some id
    → count_matches id
        (to_lower vm.filter)
        (fetched facade vm).snapshot
        (fetched facade vm).haystacks
      ≡ suc n
    → selected_device_id (rebuild facade vm) ≡ some id
unfolding rebuild
selected_device_id-rebuild facade vm id n sel there =
    let ids = new_rows-count_matches facade vm id ∙ there in
    rw sel (restore_selection-found id (new_rows facade vm) n (new_rows-IsAligned facade vm) ids)
