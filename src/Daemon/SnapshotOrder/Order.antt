-- ===== src/Daemon/SnapshotOrder/Order.antt =====
-- What the order lists: HEAD first and alone, nothing invented, and what it hides.
use cross_device_manager.Base.{
  ◌≡◌, ◌≢◌, refl, sym, ◌⊎◌, inl, inr, true, false, none, some, List, [], ◌∷◌, ◌++◌, Text, arith,
  ◌==◌, text_eq, eq_refl, All, All-map, All-append, Elem, Elem-append-left, Elem-append-right,
  self-Elem, Bool-cases,
}
use cross_device_manager.Base.Int.{lt_int}
use cross_device_manager.Snapshot.{SnapshotMeta}
use cross_device_manager.Daemon.SnapshotOrder.{
  find_meta, is_taken, chain_of, not_taken, insert_by_time, sort_by_time, order_newest_first,
}
use cross_device_manager.Daemon.SnapshotOrder.Chain.{
  Walk, revisited, dangling, oldest, onward, find_meta-id, chain_of-Walk,
}

Walk-keeps :
    {metas ms : List SnapshotMeta} {taken ts : List Text} {id : Text} (x : Text)
    → Walk metas taken id ms ts
    → is_taken taken x ≡ true
    → is_taken ts x ≡ true
unfolding is_taken
Walk-keeps x (revisited t) h = h
Walk-keeps x (dangling free n) h = ground arith
Walk-keeps x (oldest free e alone) h = ground arith
Walk-keeps x (onward free e n walk) h = Walk-keeps x walk (ground arith)

-- The ids of the metas found were free, so none stands twice.
Walk-free :
    {metas ms : List SnapshotMeta} {taken ts : List Text} {id : Text}
    → Walk metas taken id ms ts
    → All (λ m. is_taken taken m.id ≡ false) ms
unfolding is_taken
Walk-free (revisited t) = tt
Walk-free (dangling free n) = tt
Walk-free {metas} {id = id} (oldest {m = m} free e alone) =
    (ground (arith, find_meta-id id metas m e), tt)
Walk-free {metas} {id = id} (onward {m = m} {ms = ms} free e n walk) = (
  ground (arith, find_meta-id id metas m e),
  All-map _ _ ms (λ x h. ground arith) (Walk-free walk),
)

find_meta-Elem :
    (id : Text) (metas : List SnapshotMeta) (m : SnapshotMeta)
    → find_meta id metas ≡ some m
    → Elem m metas
unfolding find_meta
find_meta-Elem id [] m h = absurd (cc)
find_meta-Elem id (x ∷ xs) m h = elim (Bool-cases (x.id == id)) [
  | inl e ↦ inl (ground arith)
  | inr e ↦ inr (find_meta-Elem id xs m (ground arith))
]

Elem-find_meta :
    (m : SnapshotMeta) (metas : List SnapshotMeta) → Elem m metas → find_meta m.id metas ≢ none
unfolding find_meta
Elem-find_meta m [] i h = elim i [ ]
Elem-find_meta m (x ∷ xs) (inl e) h = ground (arith, eq_refl m.id)
Elem-find_meta m (x ∷ xs) (inr i) h = ground (arith, Elem-find_meta m xs i)

Walk-Elem :
    {metas ms : List SnapshotMeta} {taken ts : List Text} {id : Text}
    → Walk metas taken id ms ts
    → All (λ m. Elem m metas) ms
Walk-Elem (revisited t) = tt
Walk-Elem (dangling free n) = tt
Walk-Elem {metas} {id = id} (oldest {m = m} free e alone) = (find_meta-Elem id metas m e, tt)
Walk-Elem {metas} {id = id} (onward {m = m} free e n walk) =
    (find_meta-Elem id metas m e, Walk-Elem walk)

-- A meta of this id stands in the list.
abbrev pub HasId : Text → List SnapshotMeta → Type 0
HasId id ms = (m : SnapshotMeta) × Elem m ms × (m.id ≡ id)

-- An id that the walk has taken was taken before, is that of a meta found, or has no meta.
Walk-ids :
    {metas ms : List SnapshotMeta} {taken ts : List Text} {id : Text} (x : Text)
    → Walk metas taken id ms ts
    → is_taken ts x ≡ true
    → (is_taken taken x ≡ true) ⊎ (HasId x ms ⊎ (find_meta x metas ≡ none))
unfolding is_taken
Walk-ids x (revisited t) h = inl h
Walk-ids {id = id} x (dangling free n) h = elim (Bool-cases (id == x)) [
  | inl e ↦ inr (inr (ground arith))
  | inr e ↦ inl (ground arith)
]
Walk-ids {metas} {id = id} x (oldest {m = m} free e alone) h = elim (Bool-cases (id == x)) [
  | inl same ↦ inr (inl (m, inl refl, ground (arith, find_meta-id id metas m e)))
  | inr other ↦ inl (ground arith)
]
Walk-ids {metas} {id = id} x (onward {m = m} free e n walk) h = elim (Walk-ids x walk h) [
  | inl before ↦ elim (Bool-cases (id == x)) [
    | inl same ↦ inr (inl (m, inl refl, ground (arith, find_meta-id id metas m e)))
    | inr other ↦ inl (ground arith)
  ]
  | inr (inl (y, i, same)) ↦ inr (inl (y, inr i, same))
  | inr (inr gone) ↦ inr (inr gone)
]

insert_by_time-All :
    (P : SnapshotMeta → Type 0) (m : SnapshotMeta) (xs : List SnapshotMeta)
    → P m
    → All P xs
    → All P (insert_by_time m xs)
unfolding insert_by_time
insert_by_time-All P m [] p h = (p, tt)
insert_by_time-All P m (x ∷ xs) p h = elim (Bool-cases (lt_int m.created_at_utc x.created_at_utc)) [
  | inl e ↦ rw (e, insert_by_time) (h.0, insert_by_time-All P m xs p h.1)
  | inr e ↦ rw (e, insert_by_time) (p, h)
]

sort_by_time-All :
    (P : SnapshotMeta → Type 0) (xs : List SnapshotMeta) → All P xs → All P (sort_by_time xs)
unfolding sort_by_time
sort_by_time-All P [] h = tt
sort_by_time-All P (x ∷ xs) h =
    insert_by_time-All P x (sort_by_time xs) h.0 (sort_by_time-All P xs h.1)

not_taken-All :
    (P : SnapshotMeta → Type 0) (ts : List Text) (metas : List SnapshotMeta)
    → All P metas
    → All (λ m. P m × (is_taken ts m.id ≡ false)) (not_taken ts metas)
unfolding not_taken
not_taken-All P ts [] h = tt
not_taken-All P ts (m ∷ ms) h = elim (Bool-cases (is_taken ts m.id)) [
  | inl e ↦ rw (e, not_taken) (not_taken-All P ts ms h.1)
  | inr e ↦ rw (e, not_taken) ((h.0, e), not_taken-All P ts ms h.1)
]

All-true : (metas : List SnapshotMeta) → All (λ m. Unit {0}) metas
All-true [] = tt
All-true (m ∷ ms) = (tt, All-true ms)

abbrev pub Others : Text → List SnapshotMeta → Type 0
Others id ms = All (λ m. m.id ≢ id) ms

-- What the walk from HEAD leaves for the second part has another id.
pub rest-Others :
    (id : Text) (ts : List Text) (metas : List SnapshotMeta)
    → is_taken ts id ≡ true
    → Others id (sort_by_time (not_taken ts metas))
rest-Others id ts metas h = sort_by_time-All _ (not_taken ts metas) (
    All-map _ _ (not_taken ts metas) (λ m free e. ground arith)
      (not_taken-All _ ts metas (All-true metas)))

Walk-first :
    {metas ms : List SnapshotMeta} {ts : List Text} {id : Text} (m : SnapshotMeta)
    → Walk metas [] id ms ts
    → find_meta id metas ≡ some m
    → (later : List SnapshotMeta) × (is_taken ts id ≡ true) × (ms ≡ m ∷ later) × Others id later
unfolding is_taken
Walk-first m (revisited t) h = absurd (cc)
Walk-first m (dangling free n) h = absurd (ground arith)
Walk-first {id = id} m (oldest free e alone) h = ([], ground (arith, eq_refl id), ground arith, tt)
Walk-first {id = id} m (onward {ms = ms} free e n walk) h = (
  ms,
  Walk-keeps id walk (ground (arith, eq_refl id)),
  ground arith,
  All-map _ _ ms (λ x apart same. ground (arith, eq_refl id)) (Walk-free walk),
)

-- The snapshot that HEAD names is listed first, and no other that is listed has its id.
pub order_newest_first-head :
    (metas : List SnapshotMeta) (id : Text) (m : SnapshotMeta)
    → find_meta id metas ≡ some m
    → (rest : List SnapshotMeta) × (order_newest_first metas (some id) ≡ m ∷ rest) × Others id rest
unfolding order_newest_first
order_newest_first-head metas id m h =
    let (later, taken, e, apart) = Walk-first m (chain_of-Walk metas id) h in
    let ts = (chain_of metas (some id)).1 in
    (
      later ++ sort_by_time (not_taken ts metas),
      rw e refl,
      All-append _ later _ apart (rest-Others id ts metas taken),
    )

insert_by_time-Elem :
    (x m : SnapshotMeta) (xs : List SnapshotMeta)
    → (x ≡ m) ⊎ Elem x xs
    → Elem x (insert_by_time m xs)
unfolding insert_by_time
insert_by_time-Elem x m [] h = h
insert_by_time-Elem x m (y ∷ xs) h = elim (Bool-cases (lt_int m.created_at_utc y.created_at_utc)) [
  | inr e ↦ rw (e, insert_by_time) h
  | inl e ↦
      rw (e, insert_by_time)
        (elim h [
          | inl same ↦ inr (insert_by_time-Elem x m xs (inl same))
          | inr (inl same) ↦ inl same
          | inr (inr i) ↦ inr (insert_by_time-Elem x m xs (inr i))
        ])
]

sort_by_time-Elem :
    (x : SnapshotMeta) (xs : List SnapshotMeta) → Elem x xs → Elem x (sort_by_time xs)
unfolding sort_by_time
sort_by_time-Elem x [] i = i
sort_by_time-Elem x (y ∷ xs) (inl e) = insert_by_time-Elem x y (sort_by_time xs) (inl e)
sort_by_time-Elem x (y ∷ xs) (inr i) =
    insert_by_time-Elem x y (sort_by_time xs) (inr (sort_by_time-Elem x xs i))

not_taken-Elem :
    (ts : List Text) (x : SnapshotMeta) (xs : List SnapshotMeta)
    → Elem x xs
    → is_taken ts x.id ≡ false
    → Elem x (not_taken ts xs)
unfolding not_taken
not_taken-Elem ts x [] i h = i
not_taken-Elem ts x (y ∷ xs) (inl e) h =
    let free : is_taken ts y.id ≡ false = rw (sym e) h in rw (free, not_taken) (inl e)
not_taken-Elem ts x (y ∷ xs) (inr i) h = elim (Bool-cases (is_taken ts y.id)) [
  | inl e ↦ rw (e, not_taken) (not_taken-Elem ts x xs i h)
  | inr e ↦ rw (e, not_taken) (inr (not_taken-Elem ts x xs i h))
]

-- The order lists only what was scanned. What was scanned is listed, or shares its id with a snapshot
-- that is, as a quarantined copy does with the file that took its place.
pub order_newest_first-Elem :
    (metas : List SnapshotMeta) (id : Text)
    → All (λ m. Elem m metas) (order_newest_first metas (some id))
      × All
          (λ m.
            Elem m (order_newest_first metas (some id))
            ⊎ HasId m.id (order_newest_first metas (some id)))
          metas
unfolding order_newest_first
order_newest_first-Elem metas id =
    let walk = chain_of-Walk metas id in
    let ms = (chain_of metas (some id)).0 in
    let ts = (chain_of metas (some id)).1 in
    let rest = sort_by_time (not_taken ts metas) in
    (
      All-append _ ms rest (Walk-Elem walk) (
          sort_by_time-All _ (not_taken ts metas) (
            All-map _ _ (not_taken ts metas) (λ m h. h.0)
              (not_taken-All _ ts metas (self-Elem metas)))),
      All-map _ _ metas
          (λ m i. elim (Bool-cases (is_taken ts m.id)) [
            | inr free ↦ inl (
                Elem-append-right m ms rest
                  (sort_by_time-Elem m _ (not_taken-Elem ts m metas i free)))
            | inl t ↦ elim (Walk-ids m.id walk t) [
              | inl none_taken ↦ absurd (ground arith)
              | inr (inl (y, j, same)) ↦ inr (y, Elem-append-left y ms rest j, same)
              | inr (inr gone) ↦ absurd (Elem-find_meta m metas i gone)
            ]
          ])
          (self-Elem metas),
    )
