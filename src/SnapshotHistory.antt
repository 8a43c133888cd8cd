-- ===== src/SnapshotHistory.antt =====
-- core/src/snapshot_history.cpp: the rows of the history, in the order of the list.
pub mod Markers
use cross_device_manager.Base.{
  ℕ, zero, suc, Bool, true, false, not, ◌&&◌, ◌||◌, Option, none, some, List, [], ◌∷◌, Text,
  text_eq, ◌==◌, length, if◌then◌else◌,
}
use cross_device_manager.Snapshot.{SnapshotMeta, healthy, health_eq}
use cross_device_manager.Daemon.SnapshotOrder.{find_meta, is_taken}

pub record SnapshotChainRow : Type 0 where
  pub meta : SnapshotMeta
  pub chain_start : Bool
  pub head : Bool
  pub last_good : Bool
  pub depth : ℕ

-- The loop of `depthOf`, with the ids visited; `none` if the fuel runs out.
unfoldable pub depth_loop : ℕ → List SnapshotMeta → List Text → SnapshotMeta → Option ℕ
unfolding find_meta is_taken
depth_loop zero metas visited m = none
depth_loop (suc fuel) metas visited m = elim m.parent [
  | none ↦ some 0
  | some p ↦ elim (find_meta p metas) [
    | none ↦ some 0
    | some parent ↦ elim (is_taken visited p) [
      | true ↦ some 0
      | false ↦ elim (depth_loop fuel metas (p ∷ visited) parent) [
        | none ↦ none
        | some d ↦ some (suc d)
      ]
    ]
  ]
]

-- One more round than there are metas is enough: each takes an id that was free.
unfoldable pub depth_of : List SnapshotMeta → SnapshotMeta → ℕ
unfolding depth_loop
depth_of metas m = elim (depth_loop (suc (length metas)) metas (m.id ∷ []) m) [
  | none ↦ 0
  | some d ↦ d
]

-- Does a snapshot of the list name this id as its parent?
unfoldable pub is_claimed : List SnapshotMeta → Text → Bool
is_claimed [] id = false
is_claimed (m ∷ ms) id = elim m.parent [
  | none ↦ is_claimed ms id
  | some p ↦ (p == id) || is_claimed ms id
]

unfoldable pub is_chain_start : List SnapshotMeta → SnapshotMeta → Bool
unfolding find_meta
is_chain_start metas m = elim m.parent [
  | none ↦ true
  | some p ↦ elim (find_meta p metas) [ none ↦ true | some parent ↦ false ]
]

unfoldable pub is_tip : List SnapshotMeta → SnapshotMeta → Bool
unfolding is_claimed
is_tip metas m = not (is_claimed metas m.id)

unfoldable pub is_good : SnapshotMeta → Bool
is_good m = m.health == healthy

-- The loop over the list, with `headTaken` and `lastGoodTaken`.
unfoldable pub rows_from :
    List SnapshotMeta → Bool → Bool → List SnapshotMeta → List SnapshotChainRow
unfolding depth_of is_chain_start is_tip is_good
rows_from metas head_taken good_taken [] = []
rows_from metas head_taken good_taken (m ∷ ms) =
    let head = not head_taken && is_tip metas m in
    let good = not good_taken && is_good m in
    record {
      meta = m;
      chain_start = is_chain_start metas m;
      head = head;
      last_good = good;
      depth = depth_of metas m;
    }
    ∷ rows_from metas (head_taken || head) (good_taken || good) ms

unfoldable pub build_snapshot_chain : List SnapshotMeta → List SnapshotChainRow
unfolding rows_from
build_snapshot_chain metas = rows_from metas false false metas
