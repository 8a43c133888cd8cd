-- ===== src/Runtime/DelayedScheduler/Firing.antt =====
-- What one round of the worker takes from the queue.
use cross_device_manager.Base.{
  ℕ, ◌+◌, ◌<◌, ◌≡◌, refl, inl, inr, false, List, [], ◌∷◌, nat_eq, leb, arith, All, All-map, length,
  Bool-cases, if◌then◌else◌,
}
use cross_device_manager.Runtime.DelayedScheduler.{Timer, Scheduler, forget, collect_due, collect}
use cross_device_manager.Runtime.DelayedScheduler.Queue.{
  knows-forget, has_id, Unique, Ordered, Indexed, IsSynced,
}

module _ {A : Type 0} where
  -- The entries of a queue whose time has come, and the others.
  unfoldable pub due_by : ℕ → List (Timer A) → List A
  due_by now [] = []
  due_by now (t ∷ ts) = let rest = due_by now ts in if leb t.due now then t.fn ∷ rest else rest

  unfoldable pub due_after : ℕ → List (Timer A) → List (Timer A)
  due_after now [] = []
  due_after now (t ∷ ts) = let rest = due_after now ts in if leb t.due now then rest else t ∷ rest

  none_due :
      (now : ℕ) (ts : List (Timer A))
      → All (λ (u : Timer A). now < u.due) ts
      → (due_by now ts ≡ []) × (due_after now ts ≡ ts)
  unfolding due_by due_after
  none_due now [] h = (refl, refl)
  none_due now (t ∷ ts) h = ground (arith, none_due now ts h.1)

  collect_due-split :
      (now : ℕ) (ts : List (Timer A)) (index : List ℕ)
      → Ordered ts
      → ((collect_due now ts index).0 ≡ due_by now ts)
        × ((collect_due now ts index).1 ≡ due_after now ts)
  unfolding collect_due due_by due_after
  collect_due-split now [] index o = (refl, refl)
  collect_due-split now (t ∷ ts) index o = elim (Bool-cases (leb t.due now)) [
    | inl e ↦ ground (arith, collect_due-split now ts (forget t.id index) o.1)
    | inr e ↦
        let later : All (λ (u : Timer A). now < u.due) ts =
          All-map _ _ ts (λ u le. ground arith) o.0 in
        ground (arith, none_due now ts later)
  ]

  collect_due-index :
      (now : ℕ) (ts : List (Timer A)) (index : List ℕ)
      → Unique ts
      → Indexed ts index
      → Indexed (collect_due now ts index).1 (collect_due now ts index).2
  unfolding collect_due has_id
  collect_due-index now [] index u i h = i h
  collect_due-index now (t ∷ ts) index u i h = elim (Bool-cases (leb t.due now)) [
    | inl e ↦
        let i' : Indexed ts (forget t.id index) =
          λ k. ground (arith, knows-forget k t.id index, i k) in
        rw (e, collect_due) (collect_due-index now ts (forget t.id index) u.1 i' h)
    | inr e ↦ rw (e, collect_due) (i h)
  ]

  due_after-All :
      (P : Timer A → Type 0) (now : ℕ) (ts : List (Timer A)) → All P ts → All P (due_after now ts)
  unfolding due_after
  due_after-All P now [] h = tt
  due_after-All P now (t ∷ ts) h = elim (Bool-cases (leb t.due now)) [
    | inl e ↦ rw (e, due_after) (due_after-All P now ts h.1)
    | inr e ↦ rw (e, due_after) (h.0, due_after-All P now ts h.1)
  ]

  due_after-Ordered : (now : ℕ) (ts : List (Timer A)) → Ordered ts → Ordered (due_after now ts)
  unfolding due_after
  due_after-Ordered now [] o = tt
  due_after-Ordered now (t ∷ ts) o = elim (Bool-cases (leb t.due now)) [
    | inl e ↦ rw (e, due_after) (due_after-Ordered now ts o.1)
    | inr e ↦ rw (e, due_after) (due_after-All _ now ts o.0, due_after-Ordered now ts o.1)
  ]

  has_id-due_after :
      (h now : ℕ) (ts : List (Timer A)) → has_id h ts ≡ false → has_id h (due_after now ts) ≡ false
  unfolding due_after has_id
  has_id-due_after h now [] f = refl
  has_id-due_after h now (t ∷ ts) f = ground (arith, has_id-due_after h now ts)

  due_after-Unique : (now : ℕ) (ts : List (Timer A)) → Unique ts → Unique (due_after now ts)
  unfolding due_after
  due_after-Unique now [] u = tt
  due_after-Unique now (t ∷ ts) u = elim (Bool-cases (leb t.due now)) [
    | inl e ↦ rw (e, due_after) (due_after-Unique now ts u.1)
    | inr e ↦ rw (e, due_after) (has_id-due_after t.id now ts u.0, due_after-Unique now ts u.1)
  ]

  pub collect-IsSynced : (now : ℕ) (s : Scheduler A) → IsSynced s → IsSynced (collect now s).1
  unfolding collect
  collect-IsSynced now s v =
      let (_, later) = collect_due-split now s.queue s.index v.ordered in
      record {
        below = λ h le. rw later (has_id-due_after h now s.queue (v.below h le));
        indexed = collect_due-index now s.queue s.index v.unique v.indexed;
        unique = rw later (due_after-Unique now s.queue v.unique);
        ordered = rw later (due_after-Ordered now s.queue v.ordered);
      }

  pub length-due :
      (now : ℕ) (ts : List (Timer A))
      → length (due_by now ts) + length (due_after now ts) ≡ length ts
  unfolding due_by due_after
  length-due now [] = refl
  length-due now (t ∷ ts) = ground (arith, length-due now ts)

  -- A round of the worker runs exactly what is due, in the order of the deadlines, and leaves exactly
  -- the rest in the queue.
  pub collect-due :
      (now : ℕ) (s : Scheduler A)
      → IsSynced s
      → ((collect now s).0 ≡ due_by now s.queue)
        × ((collect now s).1.queue ≡ due_after now s.queue)
        × (length (collect now s).0 + length (collect now s).1.queue ≡ length s.queue)
  unfolding collect
  collect-due now s v =
      let (ready, later) = collect_due-split now s.queue s.index v.ordered in
      (ready, later, rw (ready, later) (length-due now s.queue))
