-- ===== src/Base/Lists.antt =====
-- Lists measured by native numbers, `any_of`, `all_of`, `find_if` and `filter` by Boolean tests.
use Prim.Native.Nat.{ℕ, zero, suc, ◌+◌, ◌≤◌}
use mathlib.Core.Path.{◌≡◌, refl}
use mathlib.Core.Logic.{◌⊎◌, inl, inr}
use mathlib.Core.Bool.{Bool, true, false, ◌&&◌, ◌||◌}
use mathlib.Core.List.{List, [], ◌∷◌, ◌++◌}
use mathlib.Core.Option.{Option, none, some}
use native.Mathlib.Omega.{arith}
use cross_device_manager.Base.Tests.{if◌then◌else◌, Bool-cases}

pub data Nothing {ℓ} : Type ℓ where

pub List-cases {ℓ} :
    {A : Type ℓ} (xs : List A) → (xs ≡ []) ⊎ ((x : A) × (rest : List A) × (xs ≡ x ∷ rest))
List-cases [] = inl refl
List-cases (x ∷ xs) = inr (x, xs, refl)

module _ {ℓ} {A : Type ℓ} where
  abbrev pub length : List A → ℕ
  length [] = 0
  length (x ∷ xs) = suc (length xs)

  pub length-append : (xs ys : List A) → length (xs ++ ys) ≡ length xs + length ys
  length-append [] ys = omega arith
  length-append (x ∷ xs) ys = omega (arith, length-append xs ys)

  abbrev pub take : ℕ → List A → List A
  take zero xs = []
  take (suc n) [] = []
  take (suc n) (x ∷ xs) = x ∷ take n xs

  abbrev pub drop : ℕ → List A → List A
  drop zero xs = xs
  drop (suc n) [] = []
  drop (suc n) (x ∷ xs) = drop n xs

  pub length-take : (n : ℕ) (xs : List A) → length (take n xs) ≤ n
  length-take zero xs = omega arith
  length-take (suc n) [] = omega arith
  length-take (suc n) (x ∷ xs) = omega (arith, length-take n xs)

  -- Predicates on the elements, by recursion.
  abbrev pub All {κ} : (A → Type κ) → List A → Type κ
  All P [] = Unit
  All P (x ∷ xs) = P x × All P xs

  unfoldable pub any_of : (A → Bool) → List A → Bool
  any_of p [] = false
  any_of p (x ∷ xs) = p x || any_of p xs

  unfoldable pub all_of : (A → Bool) → List A → Bool
  all_of p [] = true
  all_of p (x ∷ xs) = p x && all_of p xs

  unfoldable pub find_if : (A → Bool) → List A → Option A
  find_if p [] = none
  find_if p (x ∷ xs) = if p x then some x else find_if p xs

  pub find_if_test : (p : A → Bool) (xs : List A) (a : A) → find_if p xs ≡ some a → p a ≡ true
  unfolding find_if
  find_if_test p [] a h = absurd (cc)
  find_if_test p (x ∷ xs) a h = ground (arith, find_if_test p xs a)

  pub find_if_ext :
      (p q : A → Bool) (xs : List A) → ((a : A) → p a ≡ q a) → find_if p xs ≡ find_if q xs
  unfolding find_if
  find_if_ext p q [] h = refl
  find_if_ext p q (x ∷ xs) h = ground (arith, h x, find_if_ext p q xs h)

  -- A weaker test passes wherever the stronger one does.
  pub any_of_mono :
      (p q : A → Bool) (xs : List A)
      → ((a : A) → p a ≡ true → q a ≡ true)
      → any_of p xs ≡ true
      → any_of q xs ≡ true
  unfolding any_of
  any_of_mono p q [] h e = absurd (cc)
  any_of_mono p q (x ∷ xs) h e = elim (Bool-cases (p x)) [
    | inl t ↦ rw (h x t) refl
    | inr f ↦ ground (arith, any_of_mono p q xs h)
  ]

  pub all_of_mono :
      (p q : A → Bool) (xs : List A)
      → ((a : A) → p a ≡ true → q a ≡ true)
      → all_of p xs ≡ true
      → all_of q xs ≡ true
  unfolding all_of
  all_of_mono p q [] h e = refl
  all_of_mono p q (x ∷ xs) h e = ground (arith, h x, all_of_mono p q xs h)

  -- A test by `any_of` fails exactly where every element fails it.
  pub any_of_none : (p : A → Bool) (xs : List A) → any_of p xs ≡ false → All (λ a. p a ≡ false) xs
  unfolding any_of
  any_of_none p [] e = tt
  any_of_none p (x ∷ xs) e = (ground arith, any_of_none p xs (ground arith))

  pub none_any_of : (p : A → Bool) (xs : List A) → All (λ a. p a ≡ false) xs → any_of p xs ≡ false
  unfolding any_of
  none_any_of p [] e = refl
  none_any_of p (x ∷ xs) e = ground (arith, none_any_of p xs e.1)

  pub all_of-All : (p : A → Bool) (xs : List A) → all_of p xs ≡ true → All (λ a. p a ≡ true) xs
  unfolding all_of
  all_of-All p [] e = tt
  all_of-All p (x ∷ xs) e = (ground arith, all_of-All p xs (ground arith))

  pub All-all_of : (p : A → Bool) (xs : List A) → All (λ a. p a ≡ true) xs → all_of p xs ≡ true
  unfolding all_of
  All-all_of p [] e = refl
  All-all_of p (x ∷ xs) e = ground (arith, All-all_of p xs e.1)

  pub All-map {κ μ} :
      (P : A → Type κ) (Q : A → Type μ) (xs : List A) → ((a : A) → P a → Q a) → All P xs → All Q xs
  All-map P Q [] h e = tt
  All-map P Q (x ∷ xs) h e = (h x e.0, All-map P Q xs h e.1)

  -- Membership, by recursion.
  abbrev pub Elem : A → List A → Type ℓ
  Elem a [] = Nothing
  Elem a (x ∷ xs) = (a ≡ x) ⊎ Elem a xs

  pub All-append {κ} : (P : A → Type κ) (xs ys : List A) → All P xs → All P ys → All P (xs ++ ys)
  All-append P [] ys h k = k
  All-append P (x ∷ xs) ys h k = (h.0, All-append P xs ys h.1 k)

  pub Elem-append-left : (x : A) (xs ys : List A) → Elem x xs → Elem x (xs ++ ys)
  Elem-append-left x [] ys i = elim i [ ]
  Elem-append-left x (y ∷ xs) ys (inl e) = inl e
  Elem-append-left x (y ∷ xs) ys (inr i) = inr (Elem-append-left x xs ys i)

  pub Elem-append-right : (x : A) (xs ys : List A) → Elem x ys → Elem x (xs ++ ys)
  Elem-append-right x [] ys i = i
  Elem-append-right x (y ∷ xs) ys i = inr (Elem-append-right x xs ys i)

  pub self-Elem : (xs : List A) → All (λ x. Elem x xs) xs
  self-Elem [] = tt
  self-Elem (x ∷ xs) = (inl refl, All-map _ _ xs (λ y i. inr i) (self-Elem xs))
