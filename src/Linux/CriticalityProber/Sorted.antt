-- ===== src/Linux/CriticalityProber/Sorted.antt =====
-- Sorting without duplicates loses nothing.
use cross_device_manager.Base.{
  refl, inl, inr, List, [], ◌∷◌, Text, text_eq, ◌==◌, eq_true, Elem, Bool-cases, text_lt, subst,
  sym,
}
use cross_device_manager.Linux.CriticalityProber.{insert_unique, sort_unique}

inserted : (v : Text) (xs : List Text) → Elem v (insert_unique v xs)
unfolding insert_unique
inserted v [] = inl refl
inserted v (x ∷ xs) = elim (Bool-cases (v == x)) [
  | inl same ↦ rw (same, Elem) (inl (eq_true v x same))
  | inr differ ↦ elim (Bool-cases (text_lt v x)) [
    | inl low ↦ rw (differ, low, Elem) (inl refl)
    | inr high ↦ rw (differ, high, Elem) (inr (inserted v xs))
  ]
]

kept : (v p : Text) (xs : List Text) → Elem p xs → Elem p (insert_unique v xs)
unfolding insert_unique
kept v p [] i = elim i [ ]
kept v p (x ∷ xs) i = elim (Bool-cases (v == x)) [
  | inl same ↦ rw (same, Elem) i
  | inr differ ↦ elim (Bool-cases (text_lt v x)) [
    | inl low ↦ rw (differ, low, Elem) (inr i)
    | inr high ↦ rw (differ, high, Elem) (elim i [ inl e ↦ inl e | inr j ↦ inr (kept v p xs j) ])
  ]
]

pub Elem-sort_unique : (p : Text) (xs : List Text) → Elem p xs → Elem p (sort_unique xs)
unfolding sort_unique
Elem-sort_unique p [] i = elim i [ ]
Elem-sort_unique p (x ∷ xs) (inl e) =
    subst (λ q. Elem q (insert_unique x (sort_unique xs))) (sym e) (inserted x (sort_unique xs))
Elem-sort_unique p (x ∷ xs) (inr i) = kept x p (sort_unique xs) (Elem-sort_unique p xs i)
