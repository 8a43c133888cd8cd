-- ===== src/Daemon/SnapshotOrder/Pruning.antt =====
-- Which snapshots a pruning deletes: automatic ones past the cap, and never the one that HEAD names.
use cross_device_manager.Base.{
  ℕ, suc, ◌-◌, ◌≡◌, ◌≢◌, refl, inl, inr, true, none, some, List, [], ◌∷◌, Text, arith, text_eq,
  eq_refl, length, All, Elem, self-Elem, Bool-cases, Option-cases, leb, if◌then◌else◌,
}
use cross_device_manager.Snapshot.{SnapshotMeta}
use cross_device_manager.Daemon.SnapshotOrder.{
  find_meta, is_taken, chain_of, order_newest_first, keep_auto_snapshots, is_prunable, victims,
}
use cross_device_manager.Daemon.SnapshotOrder.Chain.{
  Walk, revisited, dangling, oldest, onward, chain_of-Walk,
}
use cross_device_manager.Daemon.SnapshotOrder.Order.{Others, order_newest_first-head, rest-Others}

unfoldable pub count_prunable : List SnapshotMeta → ℕ
unfolding is_prunable
count_prunable [] = 0
count_prunable (m ∷ ms) = let rest = count_prunable ms in if is_prunable m then suc rest else rest

length-victims_from :
    (seen : ℕ) (ms : List SnapshotMeta)
    → length (victims seen ms) ≡ count_prunable ms - (keep_auto_snapshots - seen)
unfolding victims count_prunable
length-victims_from seen [] = omega arith
length-victims_from seen (m ∷ ms) =
    ground (arith, length-victims_from seen ms, length-victims_from (suc seen) ms)

victims-from :
    (seen : ℕ) (ms all : List SnapshotMeta)
    → All (λ m. Elem m all) ms
    → All
        (λ id. (m : SnapshotMeta) × Elem m all × (is_prunable m ≡ true) × (m.id ≡ id))
        (victims seen ms)
unfolding victims
victims-from seen [] all i = tt
victims-from seen (m ∷ ms) all i = elim (Bool-cases (is_prunable m)) [
  | inr e ↦ rw (e, victims) (victims-from seen ms all i.1)
  | inl e ↦ elim (Bool-cases (leb (suc seen) keep_auto_snapshots)) [
    | inl k ↦ rw (e, victims) (rw (k, victims) (victims-from (suc seen) ms all i.1))
    | inr k ↦
        rw (e, victims) (rw (k, victims) ((m, i.0, e, refl), victims-from (suc seen) ms all i.1))
  ]
]

-- A pruning deletes exactly as many snapshots as there are automatic healthy ones past twenty, and
-- only such: no manual one, and nothing corrupt or of a newer format.
pub length-victims :
    (ms : List SnapshotMeta)
    → (length (victims 0 ms) ≡ count_prunable ms - keep_auto_snapshots)
      × All
          (λ id. (m : SnapshotMeta) × Elem m ms × (is_prunable m ≡ true) × (m.id ≡ id))
          (victims 0 ms)
length-victims ms = (length-victims_from 0 ms, victims-from 0 ms ms (self-Elem ms))

victims-Others :
    (id : Text) (seen : ℕ) (ms : List SnapshotMeta)
    → Others id ms
    → All (λ v. v ≢ id) (victims seen ms)
unfolding victims
victims-Others id seen [] h = tt
victims-Others id seen (m ∷ ms) h = elim (Bool-cases (is_prunable m)) [
  | inr e ↦ rw (e, victims) (victims-Others id seen ms h.1)
  | inl e ↦ elim (Bool-cases (leb (suc seen) keep_auto_snapshots)) [
    | inl k ↦ rw (e, victims) (rw (k, victims) (victims-Others id (suc seen) ms h.1))
    | inr k ↦ rw (e, victims) (rw (k, victims) (h.0, victims-Others id (suc seen) ms h.1))
  ]
]

victims-first :
    (id : Text) (m : SnapshotMeta) (rest : List SnapshotMeta)
    → Others id rest
    → All (λ v. v ≢ id) (victims 0 (m ∷ rest))
unfolding victims
victims-first id m rest h = elim (Bool-cases (is_prunable m)) [
  | inr e ↦ rw (e, victims) (victims-Others id 0 rest h)
  | inl e ↦ rw (e, victims) (victims-Others id 1 rest h)
]

Walk-none :
    {metas ms : List SnapshotMeta} {ts : List Text} {id : Text}
    → Walk metas [] id ms ts
    → find_meta id metas ≡ none
    → (ms ≡ []) × (is_taken ts id ≡ true)
unfolding is_taken
Walk-none (revisited t) h = absurd (cc)
Walk-none {id = id} (dangling free n) h = (refl, ground (arith, eq_refl id))
Walk-none (oldest free e alone) h = absurd (ground arith)
Walk-none (onward free e n walk) h = absurd (ground arith)

order_newest_first-none :
    (metas : List SnapshotMeta) (id : Text)
    → find_meta id metas ≡ none
    → Others id (order_newest_first metas (some id))
unfolding order_newest_first
order_newest_first-none metas id h =
    let (e, taken) = Walk-none (chain_of-Walk metas id) h in
    rw e (rest-Others id (chain_of metas (some id)).1 metas taken)

-- The snapshot that HEAD names is never deleted, however many there are and whatever the files say.
pub victims-head :
    (metas : List SnapshotMeta) (id : Text)
    → All (λ v. v ≢ id) (victims 0 (order_newest_first metas (some id)))
victims-head metas id = elim (Option-cases (find_meta id metas)) [
  | inl n ↦ victims-Others id 0 _ (order_newest_first-none metas id n)
  | inr (m, e) ↦
      let (rest, first, apart) = order_newest_first-head metas id m e in
      rw first (victims-first id m rest apart)
]
