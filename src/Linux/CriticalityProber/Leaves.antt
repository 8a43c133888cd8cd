-- ===== src/Linux/CriticalityProber/Leaves.antt =====
-- The leaves of a block device: what the recursion through the slaves finds.
use cross_device_manager.Base.{
  ℕ, zero, suc, ◌<◌, ◌≡◌, refl, ◌↔◌, ◌⊎◌, inl, inr, some, List, [], ◌∷◌, ◌++◌, Text, arith, Elem,
  Elem-append-left, Elem-append-right, Option-cases, subst,
}
use cross_device_manager.Daemon.AtomicFile.{join_path}
use cross_device_manager.Linux.CriticalityProber.{
  Listing, absent, unreadable, named, SystemFiles, append_all, slaves_of, own_path, expand_block,
}

append-Elem : (x : Text) (xs ys : List Text) → Elem x (xs ++ ys) → Elem x xs ⊎ Elem x ys
append-Elem x [] ys i = inr i
append-Elem x (y ∷ xs) ys (inl e) = inl (inl e)
append-Elem x (y ∷ xs) ys (inr i) = elim (append-Elem x xs ys i) [
  | inl here ↦ inl (inr here)
  | inr there ↦ inr there
]

-- A path that one name of a list gives.
append_all-Elem :
    (f : Text → List Text) (names : List Text) (path : Text)
    → Elem path (append_all f names)
    → (name : Text) × Elem name names × Elem path (f name)
unfolding append_all
append_all-Elem f [] path i = elim i [ ]
append_all-Elem f (name ∷ names) path i = elim (append-Elem path (f name) _ i) [
  | inl here ↦ (name, inl refl, here)
  | inr there ↦ let (n, j, k) = append_all-Elem f names path there in (n, inr j, k)
]

Elem-append_all :
    (f : Text → List Text) (names : List Text) (name path : Text)
    → Elem name names
    → Elem path (f name)
    → Elem path (append_all f names)
unfolding append_all
Elem-append_all f [] name path i k = elim i [ ]
Elem-append_all f (n ∷ names) name path (inl e) k =
    Elem-append-left path (f n) _ (subst (λ m. Elem path (f m)) e k)
Elem-append_all f (n ∷ names) name path (inr i) k =
    Elem-append-right path (f n) _ (Elem-append_all f names name path i k)

Listing-cases :
    (l : Listing)
    → (l ≡ unreadable)
      ⊎ (((l ≡ absent) ⊎ (l ≡ named [])) ⊎ ((n : Text) × (ns : List Text) × (l ≡ named (n ∷ ns))))
Listing-cases absent = inr (inl (inl refl))
Listing-cases unreadable = inl refl
Listing-cases (named []) = inr (inl (inr refl))
Listing-cases (named (n ∷ ns)) = inr (inr (n, ns, refl))

module _ (F : SystemFiles) (class_block : Text) where
  -- A device without slaves is its own leaf, and the leaves of a slave are leaves.
  pub data Leaf : Text → Text → Type 0 where
    itself :
        {name path : Text}
        → (F.listing (slaves_of class_block name) ≡ absent)
          ⊎ (F.listing (slaves_of class_block name) ≡ named [])
        → F.canonical (join_path class_block name) ≡ some path
        → Leaf name path
    below :
        {name slave path : Text} (slaves : List Text)
        → F.listing (slaves_of class_block name) ≡ named slaves
        → Elem slave slaves
        → Leaf slave path
        → Leaf name path

  -- A measure that goes down from a device to its slaves.
  abbrev pub Descends : (Text → ℕ) → Type 0
  Descends rank =
      (name slave : Text) (slaves : List Text)
      → F.listing (slaves_of class_block name) ≡ named slaves
      → Elem slave slaves
      → rank slave < rank name

  own_path_canonical :
      (name path : Text)
      → Elem path (own_path F class_block name)
      → F.canonical (join_path class_block name) ≡ some path
  own_path_canonical name path i = elim (Option-cases (F.canonical (join_path class_block name))) [
    | inl e ↦ elim (rw (e, Elem) at i) [ ]
    | inr (p, e) ↦ elim (rw (e, Elem) at i) [ inl same ↦ cc | inr rest ↦ elim rest [ ] ]
  ]

  expand_block-leaf :
      (fuel : ℕ) (name path : Text)
      → Elem path (expand_block F fuel class_block name)
      → Leaf name path
  unfolding expand_block
  expand_block-leaf zero name path i = elim i [ ]
  expand_block-leaf (suc fuel) name path i =
      elim (Listing-cases (F.listing (slaves_of class_block name))) [
        | inl e ↦ elim (rw (e, expand_block, Elem) at i) [ ]
        | inr (inl bare) ↦ itself bare (
            own_path_canonical name path (elim bare [
              | inl e ↦ rw (e, expand_block, Elem) at i
              | inr e ↦ rw (e, expand_block, Elem) at i
            ]))
        | inr (inr (n, ns, e)) ↦
            let (slave, j, k) =
              append_all-Elem (expand_block F fuel class_block) (n ∷ ns) path
                (rw (e, expand_block, Elem) at i) in
            below (n ∷ ns) e j (expand_block-leaf fuel slave path k)
      ]

  leaf-expand_block :
      (rank : Text → ℕ)
      → Descends rank
      → (fuel : ℕ) (name path : Text) → Leaf name path
      → rank name < fuel
      → Elem path (expand_block F fuel class_block name)
  unfolding expand_block
  leaf-expand_block rank down zero name path leaf enough = absurd (omega arith)
  leaf-expand_block rank down (suc fuel) name path (itself bare e) enough = elim bare [
    | inl b ↦ rw (b, e, Elem) (inl refl)
    | inr b ↦ rw (b, e, Elem) (inl refl)
  ]
  leaf-expand_block rank down (suc fuel) name path (below [] e i leaf) enough = elim i [ ]
  leaf-expand_block rank down (suc fuel) name path (below {slave = slave} (n ∷ ns) e i leaf)
        enough =
      let found : Elem path (append_all (expand_block F fuel class_block) (n ∷ ns)) =
        Elem-append_all (expand_block F fuel class_block) (n ∷ ns) slave path i (
          leaf-expand_block rank down fuel slave path leaf
            (omega (arith, down name slave (n ∷ ns) e i))) in
      rw (e, expand_block, Elem) found

  -- Where some measure of the devices goes down from each to its slaves and is below the fuel at this
  -- device, the recursion finds exactly the leaves of the device.
  pub expand_block_iff :
      (rank : Text → ℕ)
      → Descends rank
      → (fuel : ℕ) (name path : Text) → rank name < fuel
      → Elem path (expand_block F fuel class_block name) ↔ Leaf name path
  expand_block_iff rank down fuel name path enough = (
    expand_block-leaf fuel name path,
    λ leaf. leaf-expand_block rank down fuel name path leaf enough,
  )
