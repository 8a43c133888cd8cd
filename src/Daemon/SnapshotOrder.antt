-- ===== src/Daemon/SnapshotOrder.antt =====
-- daemon/src/snapshot_store.cpp: `orderNewestFirst`, and which snapshots `pruneLocked` deletes.
pub mod Chain
pub mod Order
pub mod Pruning
use cross_device_manager.Base.{
  ℕ, zero, suc, ◌+◌, Bool, true, false, not, ◌||◌, ◌&&◌, Option, none, some, List, [], ◌∷◌, ◌++◌,
  Text, text_eq, ◌==◌, ltb, leb, length, any_of, find_if, if◌then◌else◌,
}
use cross_device_manager.Base.Int.{ℤ, lt_int}
use cross_device_manager.Snapshot.{
  SnapshotMeta, SnapshotTrigger, auto, trigger_eq, healthy, health_eq,
}

-- The first meta of an id (`byId` keeps the first).
unfoldable pub find_meta : Text → List SnapshotMeta → Option SnapshotMeta
find_meta id [] = none
find_meta id (m ∷ ms) = if m.id == id then some m else find_meta id ms

unfoldable pub is_taken : List Text → Text → Bool
is_taken [] id = false
is_taken (t ∷ ts) id = (t == id) || is_taken ts id

-- The loop along the parents, with the ids taken so far: the metas found, and the ids taken at the
-- end; `none` if the fuel runs out.
unfoldable pub chain :
    ℕ → List SnapshotMeta → List Text → Text → Option (List SnapshotMeta × List Text)
unfolding find_meta is_taken
chain zero metas taken id = none
chain (suc fuel) metas taken id = elim (is_taken taken id) [
  | true ↦ some ([], taken)
  | false ↦ elim (find_meta id metas) [
    | none ↦ some ([], id ∷ taken)
    | some m ↦ elim m.parent [
      | none ↦ some (m ∷ [], id ∷ taken)
      | some p ↦ elim (chain fuel metas (id ∷ taken) p) [
        | none ↦ none
        | some (ms, ts) ↦ some (m ∷ ms, ts)
      ]
    ]
  ]
]

-- One more round than there are metas is enough: each takes an id that was free.
unfoldable pub chain_of : List SnapshotMeta → Option Text → List SnapshotMeta × List Text
unfolding chain
chain_of metas none = ([], [])
chain_of metas (some id) = elim (chain (suc (length metas)) metas [] id) [
  | none ↦ ([], [])
  | some found ↦ found
]

unfoldable pub not_taken : List Text → List SnapshotMeta → List SnapshotMeta
unfolding is_taken
not_taken taken [] = []
not_taken taken (m ∷ ms) =
    let rest = not_taken taken ms in if is_taken taken m.id then rest else m ∷ rest

-- `std::ranges::stable_sort`, the latest first.
unfoldable pub insert_by_time : SnapshotMeta → List SnapshotMeta → List SnapshotMeta
insert_by_time m [] = m ∷ []
insert_by_time m (x ∷ xs) =
    let rest = insert_by_time m xs in
    if lt_int m.created_at_utc x.created_at_utc then x ∷ rest else m ∷ x ∷ xs

unfoldable pub sort_by_time : List SnapshotMeta → List SnapshotMeta
unfolding insert_by_time
sort_by_time [] = []
sort_by_time (m ∷ ms) = insert_by_time m (sort_by_time ms)

unfoldable pub order_newest_first : List SnapshotMeta → Option Text → List SnapshotMeta
unfolding chain_of not_taken sort_by_time
order_newest_first metas head =
    let (ordered, taken) = chain_of metas head in ordered ++ sort_by_time (not_taken taken metas)

abbrev pub keep_auto_snapshots : ℕ
keep_auto_snapshots = 20

unfoldable pub is_prunable : SnapshotMeta → Bool
is_prunable m = (m.health == healthy) && (m.trigger == auto)

-- The ids that the loop of `pruneLocked` deletes, after `seen` automatic snapshots.
unfoldable pub victims : ℕ → List SnapshotMeta → List Text
unfolding is_prunable
victims seen [] = []
victims seen (m ∷ ms) =
    let next = victims seen ms in
    let counted = victims (suc seen) ms in
    if not (is_prunable m)
    then next
    else if leb (suc seen) keep_auto_snapshots
    then counted
    else m.id ∷ counted
