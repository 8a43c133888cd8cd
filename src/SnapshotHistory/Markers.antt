-- ===== src/SnapshotHistory/Markers.antt =====
-- The markers of the history: one head and one last good snapshot, and depths that are well founded.
use cross_device_manager.Base.{
  ℕ, zero, suc, ◌≤◌, ◌<◌, ◌≡◌, refl, ap, inl, inr, Bool, true, false, not, ◌&&◌, ◌||◌, Option, none,
  some, List, [], ◌∷◌, Text, arith, text_eq, length, find_if, Bool-cases, Option-cases,
  if◌then◌else◌,
}
use cross_device_manager.Snapshot.{SnapshotMeta}
use cross_device_manager.Daemon.SnapshotOrder.{find_meta, is_taken, not_taken}
use cross_device_manager.Daemon.SnapshotOrder.Chain.{not_taken-lt}
use cross_device_manager.SnapshotHistory.{
  SnapshotChainRow, depth_loop, depth_of, is_tip, is_good, rows_from, build_snapshot_chain,
}

-- With more fuel than there are metas left the loop ends, at a depth that they bound.
depth_loop-total :
    (fuel : ℕ) (metas : List SnapshotMeta) (visited : List Text) (m : SnapshotMeta)
    → length (not_taken visited metas) < fuel
    → (d : ℕ) × (depth_loop fuel metas visited m ≡ some d) × (d ≤ length (not_taken visited metas))
unfolding depth_loop
depth_loop-total zero metas visited m h = absurd (omega arith)
depth_loop-total (suc fuel) metas visited m h = elim (Option-cases m.parent) [
  | inl n ↦ (0, ground arith, omega arith)
  | inr (p, n) ↦ elim (Option-cases (find_meta p metas)) [
    | inl e ↦ (0, ground arith, omega arith)
    | inr (parent, e) ↦ elim (Bool-cases (is_taken visited p)) [
      | inl t ↦ (0, ground arith, omega arith)
      | inr free ↦
          let shorter : length (not_taken (p ∷ visited) metas) < length (not_taken visited metas) =
            not_taken-lt visited p metas parent free e in
          let (d, rest, bound) = depth_loop-total fuel metas (p ∷ visited) parent (omega arith) in
          (suc d, ground arith, omega arith)
    ]
  ]
]

not_taken-all :
    (visited : List Text) (metas : List SnapshotMeta)
    → length (not_taken visited metas) ≤ length metas
unfolding not_taken
not_taken-all visited [] = omega arith
not_taken-all visited (m ∷ ms) = ground (arith, not_taken-all visited ms)

-- The fuel of the depth is enough, so the loop of the program ends on every list, also on one whose
-- parents form a cycle, at a depth of at most the length of the list.
pub depth_of-total :
    (metas : List SnapshotMeta) (m : SnapshotMeta)
    → (depth_loop (suc (length metas)) metas (m.id ∷ []) m ≡ some (depth_of metas m))
      × (depth_of metas m ≤ length metas)
unfolding depth_of
depth_of-total metas m =
    let small : length (not_taken (m.id ∷ []) metas) < suc (length metas) =
      omega (arith, not_taken-all (m.id ∷ []) metas) in
    let (d, e, bound) = depth_loop-total (suc (length metas)) metas (m.id ∷ []) m small in
    (ground arith, ground (arith, not_taken-all (m.id ∷ []) metas))

abbrev pub metas_of : List SnapshotChainRow → List SnapshotMeta
metas_of [] = []
metas_of (r ∷ rs) = r.meta ∷ metas_of rs

-- The metas of the rows that pass a test.
unfoldable pub marked : (SnapshotChainRow → Bool) → List SnapshotChainRow → List SnapshotMeta
marked p [] = []
marked p (r ∷ rs) = let rest = marked p rs in if p r then r.meta ∷ rest else rest

abbrev pub one : Option SnapshotMeta → List SnapshotMeta
one none = []
one (some m) = m ∷ []

abbrev unless : Bool → Option SnapshotMeta → Option SnapshotMeta
unless true found = none
unless false found = found

rows_from-marked :
    (metas ms : List SnapshotMeta) (head_taken good_taken : Bool)
    → (metas_of (rows_from metas head_taken good_taken ms) ≡ ms)
      × (marked (λ r. r.head) (rows_from metas head_taken good_taken ms)
          ≡ one (unless head_taken (find_if (is_tip metas) ms)))
      × (marked (λ r. r.last_good) (rows_from metas head_taken good_taken ms)
          ≡ one (unless good_taken (find_if is_good ms)))
unfolding rows_from marked find_if
rows_from-marked metas [] true true = (refl, refl, refl)
rows_from-marked metas [] true false = (refl, refl, refl)
rows_from-marked metas [] false true = (refl, refl, refl)
rows_from-marked metas [] false false = (refl, refl, refl)
rows_from-marked metas (m ∷ ms) head_taken good_taken =
    let head = not head_taken && is_tip metas m in
    let good = not good_taken && is_good m in
    let (same, heads, goods) =
      rows_from-marked metas ms (head_taken || head) (good_taken || good) in
    (ap (◌∷◌ m) same, ground (arith, heads), ground (arith, goods))

-- The rows are the list in its order. One row is marked as head, the first that no other names as its
-- parent, and one as last good, the first healthy one; none where there is no such snapshot.
pub build_snapshot_chain-marked :
    (metas : List SnapshotMeta)
    → (metas_of (build_snapshot_chain metas) ≡ metas)
      × (marked (λ r. r.head) (build_snapshot_chain metas) ≡ one (find_if (is_tip metas) metas))
      × (marked (λ r. r.last_good) (build_snapshot_chain metas) ≡ one (find_if is_good metas))
unfolding build_snapshot_chain
build_snapshot_chain-marked metas = rows_from-marked metas metas false false
