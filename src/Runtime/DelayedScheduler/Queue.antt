-- ===== src/Runtime/DelayedScheduler/Queue.antt =====
-- The queue and its index stay together, ordered by deadline, whatever is scheduled and cancelled.
use cross_device_manager.Base.{
  ℕ, suc, ◌+◌, ◌^◌, ◌≤◌, ◌<◌, ◌≡◌, refl, inl, inr, Bool, true, false, List, [], ◌∷◌, nat_eq, ◌==◌,
  ltb, arith, All, All-map, length, Bool-cases, if◌then◌else◌,
}
use cross_device_manager.Runtime.DelayedScheduler.{
  Timer, Scheduler, knows, forget, enqueue, dequeue, schedule, cancel,
}

pub knows-forget :
    (h i : ℕ) (is : List ℕ) → knows h (forget i is) ≡ (if h == i then false else knows h is)
unfolding knows forget
knows-forget h i [] = ground arith
knows-forget h i (x ∷ xs) = ground (arith, knows-forget h i xs)

module _ {A : Type 0} where
  unfoldable pub has_id : ℕ → List (Timer A) → Bool
  has_id h [] = false
  has_id h (t ∷ ts) = if h == t.id then true else has_id h ts

  -- No id twice.
  abbrev pub Unique : List (Timer A) → Type 0
  Unique [] = Unit
  Unique (t ∷ ts) = (has_id t.id ts ≡ false) × Unique ts

  -- The earliest deadline first.
  abbrev pub Ordered : List (Timer A) → Type 0
  Ordered [] = Unit
  Ordered (t ∷ ts) = All (λ (u : Timer A). t.due ≤ u.due) ts × Ordered ts

  has_id-enqueue :
      (h : ℕ) (t : Timer A) (ts : List (Timer A))
      → has_id h (enqueue t ts) ≡ (if h == t.id then true else has_id h ts)
  unfolding has_id enqueue
  has_id-enqueue h t [] = refl
  has_id-enqueue h t (x ∷ xs) = ground (arith, has_id-enqueue h t xs)

  has_id-dequeue :
      (h i : ℕ) (ts : List (Timer A))
      → has_id h (dequeue i ts) ≡ (if h == i then false else has_id h ts)
  unfolding has_id dequeue
  has_id-dequeue h i [] = ground arith
  has_id-dequeue h i (x ∷ xs) = ground (arith, has_id-dequeue h i xs)

  All-enqueue :
      (P : Timer A → Type 0) (t : Timer A) (ts : List (Timer A))
      → P t
      → All P ts
      → All P (enqueue t ts)
  unfolding enqueue
  All-enqueue P t [] p h = (p, tt)
  All-enqueue P t (x ∷ xs) p h = elim (Bool-cases (ltb t.due x.due)) [
    | inl e ↦ rw (e, enqueue) (p, h)
    | inr e ↦ rw (e, enqueue) (h.0, All-enqueue P t xs p h.1)
  ]

  All-dequeue :
      (P : Timer A → Type 0) (h : ℕ) (ts : List (Timer A)) → All P ts → All P (dequeue h ts)
  unfolding dequeue
  All-dequeue P h [] a = tt
  All-dequeue P h (x ∷ xs) a = elim (Bool-cases (h == x.id)) [
    | inl e ↦ rw (e, dequeue) (All-dequeue P h xs a.1)
    | inr e ↦ rw (e, dequeue) (a.0, All-dequeue P h xs a.1)
  ]

  enqueue-Ordered : (t : Timer A) (ts : List (Timer A)) → Ordered ts → Ordered (enqueue t ts)
  unfolding enqueue
  enqueue-Ordered t [] o = (tt, tt)
  enqueue-Ordered t (x ∷ xs) o = elim (Bool-cases (ltb t.due x.due)) [
    | inl e ↦ rw (e, enqueue) ((ground arith, All-map _ _ xs (λ u h. ground arith) o.0), o)
    | inr e ↦
        rw (e, enqueue)
          (All-enqueue (λ u. x.due ≤ u.due) t xs (ground arith) o.0, enqueue-Ordered t xs o.1)
  ]

  dequeue-Ordered : (h : ℕ) (ts : List (Timer A)) → Ordered ts → Ordered (dequeue h ts)
  unfolding dequeue
  dequeue-Ordered h [] o = tt
  dequeue-Ordered h (x ∷ xs) o = elim (Bool-cases (h == x.id)) [
    | inl e ↦ rw (e, dequeue) (dequeue-Ordered h xs o.1)
    | inr e ↦ rw (e, dequeue) (All-dequeue _ h xs o.0, dequeue-Ordered h xs o.1)
  ]

  enqueue-Unique :
      (t : Timer A) (ts : List (Timer A))
      → has_id t.id ts ≡ false
      → Unique ts
      → Unique (enqueue t ts)
  unfolding enqueue has_id
  enqueue-Unique t [] f u = (refl, tt)
  enqueue-Unique t (x ∷ xs) f u = elim (Bool-cases (ltb t.due x.due)) [
    | inl e ↦ rw (e, enqueue) (f, u)
    | inr e ↦
        rw (e, enqueue)
          (ground (arith, has_id-enqueue x.id t xs), enqueue-Unique t xs (ground arith) u.1)
  ]

  dequeue-Unique : (h : ℕ) (ts : List (Timer A)) → Unique ts → Unique (dequeue h ts)
  unfolding dequeue
  dequeue-Unique h [] u = tt
  dequeue-Unique h (x ∷ xs) u = elim (Bool-cases (h == x.id)) [
    | inl e ↦ rw (e, dequeue) (dequeue-Unique h xs u.1)
    | inr e ↦ rw (e, dequeue) (ground (arith, has_id-dequeue x.id h xs), dequeue-Unique h xs u.1)
  ]

  pub length-enqueue : (t : Timer A) (ts : List (Timer A)) → length (enqueue t ts) ≡ suc (length ts)
  unfolding enqueue
  length-enqueue t [] = refl
  length-enqueue t (x ∷ xs) = ground (arith, length-enqueue t xs)

  dequeue_absent : (h : ℕ) (ts : List (Timer A)) → has_id h ts ≡ false → dequeue h ts ≡ ts
  unfolding dequeue has_id
  dequeue_absent h [] f = refl
  dequeue_absent h (x ∷ xs) f = ground (arith, dequeue_absent h xs)

  length-dequeue :
      (h : ℕ) (ts : List (Timer A))
      → Unique ts
      → has_id h ts ≡ true
      → suc (length (dequeue h ts)) ≡ length ts
  unfolding dequeue has_id
  length-dequeue h [] u e = absurd (cc)
  length-dequeue h (x ∷ xs) u e = elim (Bool-cases (h == x.id)) [
    | inl same ↦ ground (arith, dequeue_absent h xs)
    | inr other ↦ ground (arith, length-dequeue h xs u.1)
  ]

  -- The index has exactly the ids of the queue.
  abbrev pub Indexed : List (Timer A) → List ℕ → Type 0
  Indexed ts is = (h : ℕ) → knows h is ≡ has_id h ts

  pub record IsSynced (s : Scheduler A) : Type 0 where
    pub below : (h : ℕ) → s.next_id ≤ h → has_id h s.queue ≡ false
    pub indexed : Indexed s.queue s.index
    pub unique : Unique s.queue
    pub ordered : Ordered s.queue

  -- As long as the handles do not wrap around, a scheduling keeps the queue and its index together.
  pub schedule-IsSynced :
      (now delay : ℕ) (fn : A) (s : Scheduler A)
      → s.next_id + 1 < 2 ^ 64
      → IsSynced s
      → IsSynced (schedule now delay fn s).1
  unfolding schedule knows
  schedule-IsSynced now delay fn s room v =
      let t : Timer A = record { due = now + delay; id = s.next_id; fn = fn } in
      let fresh = v.below s.next_id (omega arith) in
      record {
        below = λ h le. ground (arith, has_id-enqueue h t s.queue, v.below h);
        indexed = λ h. ground (arith, has_id-enqueue h t s.queue, v.indexed h);
        unique = enqueue-Unique t s.queue fresh v.unique;
        ordered = enqueue-Ordered t s.queue v.ordered;
      }

  pub cancel-IsSynced : (h : ℕ) (s : Scheduler A) → IsSynced s → IsSynced (cancel h s).1
  unfolding cancel
  cancel-IsSynced h s v = elim (Bool-cases (knows h s.index)) [
    | inr e ↦ rw (e, cancel) v
    | inl e ↦
        rw (e, cancel)
          (record {
            below = λ i le. ground (arith, has_id-dequeue i h s.queue, v.below i);
            indexed = λ i.
                ground (arith, has_id-dequeue i h s.queue, knows-forget i h s.index, v.indexed i);
            unique = dequeue-Unique h s.queue v.unique;
            ordered = dequeue-Ordered h s.queue v.ordered;
          })
  ]

  -- A cancellation says truly whether it took an entry out.
  pub cancel-length :
      (h : ℕ) (s : Scheduler A)
      → IsSynced s
      → ((cancel h s).0 ≡ has_id h s.queue)
        × (length s.queue ≡ (
            if (cancel h s).0
            then suc (length (cancel h s).1.queue)
            else length (cancel h s).1.queue))
  unfolding cancel
  cancel-length h s v =
      (ground (arith, v.indexed h), ground (arith, v.indexed h, length-dequeue h s.queue v.unique))
