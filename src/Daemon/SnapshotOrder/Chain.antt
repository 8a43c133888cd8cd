-- ===== src/Daemon/SnapshotOrder/Chain.antt =====
-- The order of the snapshots: the walk along the parents ends, and HEAD stands first and alone.
use cross_device_manager.Base.{
  ℕ, zero, suc, ◌≤◌, ◌<◌, ◌≡◌, inl, inr, true, false, none, some, List, [], ◌∷◌, Text, arith,
  text_eq, length, Bool-cases, Option-cases,
}
use cross_device_manager.Snapshot.{SnapshotMeta}
use cross_device_manager.Daemon.SnapshotOrder.{find_meta, is_taken, chain, chain_of, not_taken}

pub find_meta-id :
    (id : Text) (metas : List SnapshotMeta) (m : SnapshotMeta)
    → find_meta id metas ≡ some m
    → m.id ≡ id
unfolding find_meta
find_meta-id id [] m h = absurd (cc)
find_meta-id id (x ∷ xs) m h = ground (arith, find_meta-id id xs m)

-- Each id that the walk takes from the metas leaves fewer of them.
not_taken-le :
    (taken : List Text) (id : Text) (metas : List SnapshotMeta)
    → length (not_taken (id ∷ taken) metas) ≤ length (not_taken taken metas)
unfolding not_taken is_taken
not_taken-le taken id [] = omega arith
not_taken-le taken id (m ∷ ms) = ground (arith, not_taken-le taken id ms)

pub not_taken-lt :
    (taken : List Text) (id : Text) (metas : List SnapshotMeta) (m : SnapshotMeta)
    → is_taken taken id ≡ false
    → find_meta id metas ≡ some m
    → length (not_taken (id ∷ taken) metas) < length (not_taken taken metas)
unfolding not_taken is_taken find_meta
not_taken-lt taken id [] m free h = absurd (cc)
not_taken-lt taken id (x ∷ xs) m free h =
    ground (arith, not_taken-lt taken id xs m free, not_taken-le taken id xs)

-- The walk as a relation: from the ids taken so far and the next id to the metas found and the ids
-- taken at the end. It stops at an id for the second time, at one without a meta, and at a meta
-- without a parent.
pub data Walk (metas : List SnapshotMeta)
    : List Text → Text → List SnapshotMeta → List Text → Type 0 where
  revisited :
      {taken : List Text} {id : Text} → is_taken taken id ≡ true → Walk metas taken id [] taken
  dangling :
      {taken : List Text} {id : Text}
      → is_taken taken id ≡ false
      → find_meta id metas ≡ none
      → Walk metas taken id [] (id ∷ taken)
  oldest :
      {taken : List Text} {id : Text} {m : SnapshotMeta}
      → is_taken taken id ≡ false
      → find_meta id metas ≡ some m
      → m.parent ≡ none
      → Walk metas taken id (m ∷ []) (id ∷ taken)
  onward :
      {taken ts : List Text} {id p : Text} {m : SnapshotMeta} {ms : List SnapshotMeta}
      → is_taken taken id ≡ false
      → find_meta id metas ≡ some m
      → m.parent ≡ some p
      → Walk metas (id ∷ taken) p ms ts
      → Walk metas taken id (m ∷ ms) ts

-- With more fuel than there are metas left, the loop ends, and has walked.
chain-Walk :
    (fuel : ℕ) (metas : List SnapshotMeta) (taken : List Text) (id : Text)
    → length (not_taken taken metas) < fuel
    → (ms : List SnapshotMeta) × (ts : List Text) × (chain fuel metas taken id ≡ some (ms, ts))
      × Walk metas taken id ms ts
unfolding chain
chain-Walk zero metas taken id h = absurd (omega arith)
chain-Walk (suc fuel) metas taken id h = elim (Bool-cases (is_taken taken id)) [
  | inl t ↦ ([], taken, ground arith, revisited t)
  | inr free ↦ elim (Option-cases (find_meta id metas)) [
    | inl n ↦ ([], id ∷ taken, ground arith, dangling free n)
    | inr (m, e) ↦ elim (Option-cases m.parent) [
      | inl n ↦ (m ∷ [], id ∷ taken, ground arith, oldest free e n)
      | inr (p, n) ↦
          let shorter : length (not_taken (id ∷ taken) metas) < fuel =
            omega (arith, not_taken-lt taken id metas m free e) in
          let (ms, ts, rest, walk) = chain-Walk fuel metas (id ∷ taken) p shorter in
          (m ∷ ms, ts, ground arith, onward free e n walk)
    ]
  ]
]

not_taken-nil : (metas : List SnapshotMeta) → length (not_taken [] metas) ≤ length metas
unfolding not_taken is_taken
not_taken-nil [] = omega arith
not_taken-nil (m ∷ ms) = ground (arith, not_taken-nil ms)

-- The fuel is enough: from HEAD the loop ends, on every list, also a cyclic one, with the metas and
-- the ids of the walk that goes on to the parent of each meta that has one and stops at an id for the
-- second time, at one without a meta, or at a meta without a parent.
pub chain_of-Walk :
    (metas : List SnapshotMeta) (id : Text)
    → Walk metas [] id (chain_of metas (some id)).0 (chain_of metas (some id)).1
unfolding chain_of
chain_of-Walk metas id =
    let enough : length (not_taken [] metas) < suc (length metas) =
      omega (arith, not_taken-nil metas) in
    let (ms, ts, e, walk) = chain-Walk (suc (length metas)) metas [] id enough in
    rw (e, chain_of) walk
