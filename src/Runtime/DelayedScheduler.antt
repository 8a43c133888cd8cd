-- ===== src/Runtime/DelayedScheduler.antt =====
-- core/src/delayed_scheduler.cpp: callbacks that run after a delay. A callback is a value of any type,
-- the clock's time an argument. The iterator that `index_` keeps for a handle is the entry of that id.
pub mod Queue
pub mod Firing
pub mod Jobs
use cross_device_manager.Base.{
  ℕ, ◌+◌, ◌%◌, ◌^◌, Bool, true, false, not, ◌&&◌, List, [], ◌∷◌, nat_eq, ◌==◌, ltb, leb,
  if◌then◌else◌,
}

pub record Timer (A : Type 0) : Type 0 where
  pub due : ℕ
  pub id : ℕ
  pub fn : A

pub record Scheduler (A : Type 0) : Type 0 where
  pub queue : List (Timer A)
  pub index : List ℕ
  pub next_id : ℕ
  pub stopping : Bool
  pub join_started : Bool

unfoldable pub knows : ℕ → List ℕ → Bool
knows h [] = false
knows h (i ∷ is) = if h == i then true else knows h is

unfoldable pub forget : ℕ → List ℕ → List ℕ
forget h [] = []
forget h (i ∷ is) = let rest = forget h is in if h == i then rest else i ∷ rest

module _ {A : Type 0} where
  -- `std::multimap::emplace`: behind the entries of the same deadline.
  unfoldable pub enqueue : Timer A → List (Timer A) → List (Timer A)
  enqueue t [] = t ∷ []
  enqueue t (x ∷ xs) = let rest = enqueue t xs in if ltb t.due x.due then t ∷ x ∷ xs else x ∷ rest

  unfoldable pub dequeue : ℕ → List (Timer A) → List (Timer A)
  dequeue h [] = []
  dequeue h (x ∷ xs) = let rest = dequeue h xs in if h == x.id then rest else x ∷ rest

  unfoldable pub schedule : ℕ → ℕ → A → Scheduler A → ℕ × Scheduler A
  unfolding enqueue
  schedule now delay fn s = (
    s.next_id,
    record s {
      queue = enqueue (record { due = now + delay; id = s.next_id; fn = fn }) s.queue;
      index = s.next_id ∷ s.index;
      next_id = (s.next_id + 1) % 2 ^ 64;
    },
  )

  unfoldable pub cancel : ℕ → Scheduler A → Bool × Scheduler A
  unfolding knows dequeue forget
  cancel h s =
      if knows h s.index
      then (true, record s { queue = dequeue h s.queue; index = forget h s.index })
      else (false, s)

  -- The loop that collects everything due now.
  unfoldable pub collect_due : ℕ → List (Timer A) → List ℕ → List A × List (Timer A) × List ℕ
  unfolding forget
  collect_due now [] index = ([], [], index)
  collect_due now (t ∷ ts) index =
      let (ready, later, index') = collect_due now ts (forget t.id index) in
      if leb t.due now then (t.fn ∷ ready, later, index') else ([], t ∷ ts, index)

  -- One round of `run` that finds something due.
  unfoldable pub collect : ℕ → Scheduler A → List A × Scheduler A
  unfolding collect_due
  collect now s =
      let (ready, later, index) = collect_due now s.queue s.index in
      (ready, record s { queue = later; index = index })

  -- `shutdown`, up to the join: does this caller join the worker?
  unfoldable pub shutdown : Bool → Scheduler A → Bool × Scheduler A
  shutdown self_call s =
      if not self_call && not s.join_started
      then (true, record s { stopping = true; join_started = true })
      else (false, record s { stopping = true })
