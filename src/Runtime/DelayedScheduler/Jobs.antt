-- ===== src/Runtime/DelayedScheduler/Jobs.antt =====
-- Which callback a handle stands for, while the queue changes.
use cross_device_manager.Base.{
  ℕ, ◌≡◌, ◌≢◌, refl, ◌⊎◌, inl, inr, false, Option, none, some, List, [], ◌∷◌, nat_eq, ◌==◌, leb,
  arith, Elem, Bool-cases, if◌then◌else◌,
}
use cross_device_manager.Runtime.DelayedScheduler.{Timer, enqueue, dequeue}
use cross_device_manager.Runtime.DelayedScheduler.Queue.{has_id, Unique}
use cross_device_manager.Runtime.DelayedScheduler.Firing.{due_by, due_after}

module _ {A : Type 0} where
  unfoldable pub job_at : ℕ → List (Timer A) → Option A
  job_at h [] = none
  job_at h (t ∷ ts) = if h == t.id then some t.fn else job_at h ts

  pub job_at-enqueue :
      (h : ℕ) (t : Timer A) (ts : List (Timer A)) → h ≢ t.id → job_at h (enqueue t ts) ≡ job_at h ts
  unfolding job_at enqueue
  job_at-enqueue h t [] n = ground arith
  job_at-enqueue h t (x ∷ xs) n = ground (arith, job_at-enqueue h t xs)

  pub job_at-enqueue_self :
      (t : Timer A) (ts : List (Timer A))
      → has_id t.id ts ≡ false
      → job_at t.id (enqueue t ts) ≡ some t.fn
  unfolding job_at enqueue has_id
  job_at-enqueue_self t [] f = ground arith
  job_at-enqueue_self t (x ∷ xs) f = ground (arith, job_at-enqueue_self t xs)

  pub job_at-dequeue :
      (h k : ℕ) (ts : List (Timer A)) → h ≢ k → job_at h (dequeue k ts) ≡ job_at h ts
  unfolding job_at dequeue
  job_at-dequeue h k [] n = refl
  job_at-dequeue h k (x ∷ xs) n = ground (arith, job_at-dequeue h k xs)

  pub job_at-has_id : (h : ℕ) (ts : List (Timer A)) → job_at h ts ≡ none → has_id h ts ≡ false
  unfolding job_at has_id
  job_at-has_id h [] e = refl
  job_at-has_id h (x ∷ xs) e = ground (arith, job_at-has_id h xs)

  pub has_id-job_at : (h : ℕ) (ts : List (Timer A)) → has_id h ts ≡ false → job_at h ts ≡ none
  unfolding job_at has_id
  has_id-job_at h [] e = refl
  has_id-job_at h (x ∷ xs) e = ground (arith, has_id-job_at h xs)

  pub job_at-due_after :
      (h now : ℕ) (ts : List (Timer A)) → job_at h ts ≡ none → job_at h (due_after now ts) ≡ none
  unfolding job_at due_after
  job_at-due_after h now [] e = refl
  job_at-due_after h now (t ∷ ts) e = ground (arith, job_at-due_after h now ts)

  Elem-due_by :
      (fn : A) (now : ℕ) (t : Timer A) (ts : List (Timer A))
      → Elem fn (due_by now ts)
      → Elem fn (due_by now (t ∷ ts))
  unfolding due_by
  Elem-due_by fn now t ts i = elim (Bool-cases (leb t.due now)) [
    | inl e ↦ rw (e, due_by) (inr i)
    | inr e ↦ rw (e, due_by) i
  ]

  -- A callback that is queued is still queued, or it is among those that are due.
  pub job_at_due :
      (h now : ℕ) (ts : List (Timer A)) (fn : A)
      → Unique ts
      → job_at h ts ≡ some fn
      → (job_at h (due_after now ts) ≡ some fn)
        ⊎ ((job_at h (due_after now ts) ≡ none) × Elem fn (due_by now ts))
  unfolding job_at due_by due_after
  job_at_due h now [] fn u e = absurd (cc)
  job_at_due h now (t ∷ ts) fn u e = elim (Bool-cases (h == t.id)) [
    | inl same ↦ elim (Bool-cases (leb t.due now)) [
      | inl due ↦
          let gone : job_at h ts ≡ none = ground (arith, has_id-job_at h ts) in
          inr (
            rw (due, due_after) (job_at-due_after h now ts gone),
            rw (due, due_by) (inl (ground arith)),
          )
      | inr later ↦ inl (ground arith)
    ]
    | inr other ↦ elim (job_at_due h now ts fn u.1 (ground arith)) [
      | inl q ↦ inl (ground arith)
      | inr (n, i) ↦ inr (ground arith, Elem-due_by fn now t ts i)
    ]
  ]
