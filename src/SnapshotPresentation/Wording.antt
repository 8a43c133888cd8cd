-- ===== src/SnapshotPresentation/Wording.antt =====
-- What the wording of a restore and of a difference says of its items.
use cross_device_manager.Base.{
  ◌+◌, ◌-◌, ◌≤◌, ◌≡◌, refl, ap, inl, inr, some, List, List-cases, [], ◌∷◌, ◌++◌, Text, bytes,
  text_eq, nat_eq, ◌==◌, arith, length, length-append, length-take, map, take, All, if◌then◌else◌,
}
use cross_device_manager.Snapshot.{RestoreItemOutcome, RestoreOutcome}
use cross_device_manager.SnapshotDiff.{SnapshotDiffEntry, SnapshotDiff}
use cross_device_manager.SnapshotPresentation.{
  count_status, back_lines, guidance_from, unconverged, restore_guidance_lines, status_ok,
  diff_entry_line, diff_lines, restore_preview_change_lines, line_buffer_size,
}

length-map {ℓ κ} :
    {A : Type ℓ} {B : Type κ} (f : A → B) (xs : List A) → length (map f xs) ≡ length xs
length-map f [] = refl
length-map f (x ∷ xs) = omega (arith, length-map f xs)

map-All {ℓ} :
    {A : Type ℓ} (f : A → Text) (P : Text → Type 0) (xs : List A)
    → ((a : A) → P (f a))
    → All P (map f xs)
map-All f P [] h = tt
map-All f P (x ∷ xs) h = (h x, map-All f P xs h)

length-unconverged :
    (is : List RestoreItemOutcome) → length (unconverged is) + count_status status_ok is ≡ length is
unfolding unconverged count_status
length-unconverged [] = refl
length-unconverged (i ∷ is) = ground (arith, length-unconverged is)

length-guidance_from :
    (o : RestoreOutcome) (ls : List Text)
    → length (guidance_from o ls) ≡ (if length ls == 0 then 0 else length ls + 3)
unfolding guidance_from back_lines
length-guidance_from o [] = ground arith
length-guidance_from o (l ∷ ls) = ground (arith, length-append (l ∷ ls) (back_lines o))

-- The guidance is empty exactly if every item is counted as ok; else it has a heading, a line for each
-- item that is not, and two lines on the way back.
pub restore_guidance_lines-length :
    (o : RestoreOutcome)
    → let left = length o.items - count_status status_ok o.items in
      length (restore_guidance_lines o) ≡ (if left == 0 then 0 else left + 3)
unfolding restore_guidance_lines
restore_guidance_lines-length o =
    ground (arith, length-unconverged o.items, length-guidance_from o (unconverged o.items))

take_fits : (s : Text) → length (take (line_buffer_size - 1) s) + 1 ≤ line_buffer_size
take_fits s = omega (arith, length-take (line_buffer_size - 1) s)

diff_entry_line-fits : (e : SnapshotDiffEntry) → length (diff_entry_line e) + 1 ≤ line_buffer_size
unfolding diff_entry_line
diff_entry_line-fits e = take_fits _

length-diff_lines :
    (d : SnapshotDiff)
    → length (diff_lines d) ≡ (if length d.entries == 0 then 1 else length d.entries)
unfolding diff_lines
length-diff_lines d = elim (List-cases d.entries) [
  | inl e ↦ rw (e, diff_lines) (ground arith)
  | inr (x, xs, e) ↦ rw (e, diff_lines) (ground (arith, length-map diff_entry_line xs))
]

diff_lines_fit :
    (d : SnapshotDiff) → All (λ (l : Text). length l + 1 ≤ line_buffer_size) (diff_lines d)
unfolding diff_lines
diff_lines_fit d = elim (List-cases d.entries) [
  | inl e ↦ rw (e, diff_lines) (omega arith, tt)
  | inr (x, xs, e) ↦ rw (e, diff_lines) (map-All diff_entry_line _ (x ∷ xs) diff_entry_line-fits)
]

length-preview :
    (d : SnapshotDiff)
    → length (restore_preview_change_lines (some d))
      ≡ (if length d.entries == 0 then 1 else length d.entries + 2)
unfolding restore_preview_change_lines
length-preview d = elim (List-cases d.entries) [
  | inl e ↦ rw (e, restore_preview_change_lines) (ground arith)
  | inr (x, xs, e) ↦
      let indented = map (λ line. bytes "  " ++ line) (diff_lines d) in
      let last = bytes "Restoring re-applies the snapshot side of every row above." ∷ [] in
      let many : length (diff_lines d) ≡ length (x ∷ xs) =
        ground (arith, length-diff_lines d, ap length e) in
      rw (e, restore_preview_change_lines)
        (ground (
          arith,
          many,
          length-append indented last,
          length-map (λ line. bytes "  " ++ line) (diff_lines d),
        ))
]

-- Two identical states give one line, others a line for each row, and in a preview two more; no line
-- fills the buffer.
pub diff_lines-length :
    (d : SnapshotDiff)
    → (length (diff_lines d) ≡ (if length d.entries == 0 then 1 else length d.entries))
      × All (λ (l : Text). length l + 1 ≤ line_buffer_size) (diff_lines d)
      × (length (restore_preview_change_lines (some d))
          ≡ (if length d.entries == 0 then 1 else length d.entries + 2))
diff_lines-length d = (length-diff_lines d, diff_lines_fit d, length-preview d)
