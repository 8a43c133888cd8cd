-- ===== src/Tui/Selection.antt =====
-- tui/src/selection.cpp: the cursor skips the rows that cannot be selected.
use cross_device_manager.Base.{
  ℕ, zero, suc, ◌+◌, ◌-◌, ◌≤◌, ◌<◌, ◌≡◌, refl, sym, ap, ◌∙◌, inl, inr, Bool, true, false, ◌||◌,
  Option, none, some, nat_eq, ◌==◌, eq_true, ltb, arith, Bool-cases, if◌then◌else◌,
}
use cross_device_manager.Base.Int.{ℤ, pos, negsuc}

-- `std::clamp(selected, 0, rowCount - 1)`
unfoldable pub clamp : ℤ → ℕ → ℕ
clamp (negsuc n) count = 0
clamp (pos n) count = if ltb n count then n else count - 1

-- The inner loop upwards: the first selectable one of the `left` rows from `i` on.
unfoldable pub search_down : ℕ → ℕ → (ℕ → Bool) → Option ℕ
search_down zero i selectable = none
search_down (suc left) i selectable =
    let rest = search_down left (suc i) selectable in if selectable i then some i else rest

-- The inner loop downwards: the last selectable one below `i`.
unfoldable pub search_up : ℕ → (ℕ → Bool) → Option ℕ
search_up zero selectable = none
search_up (suc i) selectable =
    let rest = search_up i selectable in if selectable i then some i else rest

abbrev or_else : Option ℕ → Option ℕ → ℕ → ℕ
or_else (some i) o start = i
or_else none (some i) start = i
or_else none none start = start

unfoldable pub snap_to_selectable : ℤ → ℕ → ℤ → (ℕ → Bool) → ℕ
unfolding clamp search_down search_up
snap_to_selectable selected zero dir selectable = 0
snap_to_selectable selected (suc rows) dir selectable =
    let start = clamp selected (suc rows) in
    let below = search_down (suc rows - suc start) (suc start) selectable in
    let above = search_up start selectable in
    if selectable start
    then start
    else elim dir [ pos n ↦ or_else below above start | negsuc n ↦ or_else above below start ]

-- The loop over `i < rowCount`.
unfoldable pub any_selectable : ℕ → (ℕ → Bool) → Bool
any_selectable zero selectable = false
any_selectable (suc n) selectable = any_selectable n selectable || selectable n

clamp_inside : (selected : ℤ) (rows : ℕ) → clamp selected (suc rows) < suc rows
unfolding clamp
clamp_inside (negsuc n) rows = omega arith
clamp_inside (pos n) rows = ground arith

search_down_sound :
    (left i j : ℕ) (selectable : ℕ → Bool)
    → search_down left i selectable ≡ some j
    → (j < i + left) × (selectable j ≡ true)
unfolding search_down
search_down_sound zero i j selectable e = absurd (cc)
search_down_sound (suc left) i j selectable e = elim (Bool-cases (selectable i)) [
  | inl t ↦ let same : some i ≡ some j = ground (arith, t) in ground (arith, same, t)
  | inr f ↦
      let (lt, at) = search_down_sound left (suc i) j selectable (ground (arith, f)) in
      (omega arith, at)
]

search_up_sound :
    (i j : ℕ) (selectable : ℕ → Bool)
    → search_up i selectable ≡ some j
    → (j < i) × (selectable j ≡ true)
unfolding search_up
search_up_sound zero j selectable e = absurd (cc)
search_up_sound (suc i) j selectable e = elim (Bool-cases (selectable i)) [
  | inl t ↦ ground (arith, t)
  | inr f ↦ let (lt, at) = search_up_sound i j selectable (ground (arith, f)) in (omega arith, at)
]

search_down_complete :
    (left i j : ℕ) (selectable : ℕ → Bool)
    → search_down left i selectable ≡ none
    → i ≤ j
    → j < i + left
    → selectable j ≡ false
unfolding search_down
search_down_complete zero i j selectable e le lt = absurd (omega arith)
search_down_complete (suc left) i j selectable e le lt = elim (Bool-cases (selectable i)) [
  | inl t ↦ absurd (ground (arith, t))
  | inr f ↦ elim (Bool-cases (i == j)) [
    | inl same ↦ ap selectable (sym (eq_true i j same)) ∙ f
    | inr apart ↦
        search_down_complete left (suc i) j selectable (ground (arith, f)) (ground (arith, apart))
          (omega arith)
  ]
]

search_up_complete :
    (i j : ℕ) (selectable : ℕ → Bool) → search_up i selectable ≡ none → j < i → selectable j ≡ false
unfolding search_up
search_up_complete zero j selectable e lt = absurd (omega arith)
search_up_complete (suc i) j selectable e lt = elim (Bool-cases (selectable i)) [
  | inl t ↦ absurd (ground (arith, t))
  | inr f ↦ elim (Bool-cases (i == j)) [
    | inl same ↦ ap selectable (sym (eq_true i j same)) ∙ f
    | inr apart ↦ search_up_complete i j selectable (ground (arith, f)) (ground (arith, apart))
  ]
]

none_any_selectable :
    (n : ℕ) (selectable : ℕ → Bool)
    → ((j : ℕ) → j < n → selectable j ≡ false)
    → any_selectable n selectable ≡ false
unfolding any_selectable
none_any_selectable zero selectable h = refl
none_any_selectable (suc n) selectable h =
    ground (arith, h n (omega arith), none_any_selectable n selectable (λ j lt. h j (omega arith)))

-- Where neither search finds anything and the start cannot be selected, nothing can.
nowhere :
    (start rows : ℕ) (selectable : ℕ → Bool)
    → start < rows
    → selectable start ≡ false
    → search_down (rows - suc start) (suc start) selectable ≡ none
    → search_up start selectable ≡ none
    → any_selectable rows selectable ≡ false
nowhere start rows selectable lt here below above = none_any_selectable rows selectable (λ j inside.
    elim (Bool-cases (ltb j start)) [
      | inl b ↦ search_up_complete start j selectable above (ground arith)
      | inr b ↦ elim (Bool-cases (start == j)) [
        | inl same ↦ ap selectable (sym (eq_true start j same)) ∙ here
        | inr apart ↦
            search_down_complete (rows - suc start) (suc start) j selectable below
              (ground (arith, apart)) (omega arith)
      ]
    ])

abbrev Chosen : ℕ → (ℕ → Bool) → ℕ → Type 0
Chosen rows selectable i = (i < rows) × (selectable i ≡ true)

either :
    (rows start : ℕ) (selectable : ℕ → Bool) (o p : Option ℕ)
    → ((j : ℕ) → o ≡ some j → Chosen rows selectable j)
    → ((j : ℕ) → p ≡ some j → Chosen rows selectable j)
    → (o ≡ none → p ≡ none → ⊥)
    → Chosen rows selectable (or_else o p start)
either rows start selectable (some i) p h k n = h i refl
either rows start selectable none (some i) h k n = k i refl
either rows start selectable none none h k n = absurd (n refl refl)

down-Chosen :
    (start rows j : ℕ) (selectable : ℕ → Bool)
    → start < rows
    → search_down (rows - suc start) (suc start) selectable ≡ some j
    → Chosen rows selectable j
down-Chosen start rows j selectable lt e =
    let (inside, can) = search_down_sound (rows - suc start) (suc start) j selectable e in
    (omega arith, can)

up-Chosen :
    (start rows j : ℕ) (selectable : ℕ → Bool)
    → start < rows
    → search_up start selectable ≡ some j
    → Chosen rows selectable j
up-Chosen start rows j selectable lt e =
    let (inside, can) = search_up_sound start j selectable e in (omega arith, can)

chosen :
    (start rows : ℕ) (selectable : ℕ → Bool) (dir : ℤ)
    → start < rows
    → any_selectable rows selectable ≡ true
    → selectable start ≡ false
    → let below = search_down (rows - suc start) (suc start) selectable in
      let above = search_up start selectable in
      Chosen rows selectable
        (elim dir [ pos n ↦ or_else below above start | negsuc n ↦ or_else above below start ])
chosen start rows selectable (pos n) lt any here =
    let below = search_down (rows - suc start) (suc start) selectable in
    either rows start selectable below (search_up start selectable)
      (λ j e. down-Chosen start rows j selectable lt e)
      (λ j e. up-Chosen start rows j selectable lt e)
      (λ b a. absurd (ground (arith, nowhere start rows selectable lt here b a)))
chosen start rows selectable (negsuc n) lt any here =
    let below = search_down (rows - suc start) (suc start) selectable in
    either rows start selectable (search_up start selectable) below
      (λ j e. up-Chosen start rows j selectable lt e)
      (λ j e. down-Chosen start rows j selectable lt e)
      (λ a b. absurd (ground (arith, nowhere start rows selectable lt here b a)))

-- The row that the cursor snaps to can be selected whenever any row can, and it is a row of
-- the list.
pub snap_to_selectable-any_selectable :
    (selected : ℤ) (rows : ℕ) (dir : ℤ) (selectable : ℕ → Bool)
    → any_selectable rows selectable ≡ true
    → (snap_to_selectable selected rows dir selectable < rows)
      × (selectable (snap_to_selectable selected rows dir selectable) ≡ true)
unfolding snap_to_selectable any_selectable
snap_to_selectable-any_selectable selected zero dir selectable any = absurd (cc)
snap_to_selectable-any_selectable selected (suc rows) dir selectable any =
    let start = clamp selected (suc rows) in
    let inside = clamp_inside selected rows in
    elim (Bool-cases (selectable start)) [
      | inl e ↦ rw (e, snap_to_selectable) (inside, e)
      | inr e ↦ rw (e, snap_to_selectable) (chosen start (suc rows) selectable dir inside any e)
    ]
