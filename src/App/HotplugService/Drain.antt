-- ===== src/App/HotplugService/Drain.antt =====
-- The worker alone ends every flush.
use cross_device_manager.Base.{
  List-cases, ℕ, zero, suc, ◌+◌, ◌*◌, ◌≤◌, ◌<◌, ◌≡◌, ◌≢◌, refl, ap, subst, ◌⊎◌, inl, inr, Option,
  none, some, List, [], ◌∷◌, Text, text_eq, nat_eq, arith, Elem, length, Option-cases,
}
use cross_device_manager.Base.Dict.{Dict, lookup}
use cross_device_manager.Models.{Device, HotplugEvent}
use cross_device_manager.Runtime.DelayedScheduler.{Timer}
use cross_device_manager.Runtime.DelayedScheduler.Firing.{collect-due, due_after, length-due}
use cross_device_manager.Runtime.DelayedScheduler.Jobs.{job_at}
use cross_device_manager.App.HotplugService.{flush_done}
use cross_device_manager.App.HotplugService.Threads.{
  Flush, outside, taken, applied, System, Work, collects, takes, applies, ends, works, dequeued,
  began, apply_taken, Reach, later,
}
use cross_device_manager.App.HotplugService.Barrier.{
  length_zero, IsCounted, Work-IsCounted, Reach-IsCounted, flush_take-timer,
}
use cross_device_manager.App.HotplugService.Served.{IsServed, Reach-IsServed}

-- Several steps of the worker, and their number.
pub data Works : System → ℕ → System → Type 0 where
  rest : {s : System} → Works s 0 s
  more : {s t u : System} {n : ℕ} → Work s t → Works t n u → Works s (suc n) u

abbrev pub flush_weight : Flush → ℕ
flush_weight outside = 0
flush_weight (taken e) = 2
flush_weight applied = 1

-- A bound on the steps that the worker has to make.
abbrev pub weight : System → ℕ
weight s = 4 * length s.service.timer.queue + 3 * length s.batch + flush_weight s.flush

Flush-cases :
    (f : Flush) → (f ≡ outside) ⊎ (((e : Option HotplugEvent) × (f ≡ taken e)) ⊎ (f ≡ applied))
Flush-cases outside = inl refl
Flush-cases (taken e) = inr (inl (e, refl))
Flush-cases applied = inr (inr refl)

-- The worker stands where no flush is queued, dequeued or running.
abbrev Drains : System → Type 0
Drains s = (n : ℕ) × (t : System) × Works s n t × (n ≤ weight s) × (weight t ≡ 0)

onward : {s t : System} → Work s t → weight t < weight s → Drains t → Drains s
onward w lower (n, t, run, bound, empty) = (suc n, t, more w run, omega arith, empty)

-- Something is due at the deadline of the first entry.
first_due :
    (t : Timer Text) (ts : List (Timer Text)) → length (due_after t.due (t ∷ ts)) < length (t ∷ ts)
unfolding due_after
first_due t ts = ground (arith, length-due t.due ts)

collects_lower :
    (s : System) (t : Timer Text) (ts : List (Timer Text))
    → IsCounted s
    → s.service.timer.queue ≡ t ∷ ts
    → s.batch ≡ []
    → s.flush ≡ outside
    → weight (dequeued t.due s) < weight s
collects_lower s t ts c q b f =
    let (ready, left, sum) = collect-due t.due s.service.timer c.synced in
    let fewer : length (due_after t.due s.service.timer.queue) < length s.service.timer.queue =
      rw q (first_due t ts) in
    ground (arith, ap length left, sum, fewer, q, b, f)

takes_lower :
    (s : System) (id : Text) (ids : List Text)
    → s.batch ≡ id ∷ ids
    → s.flush ≡ outside
    → weight (began id ids s) < weight s
takes_lower s id ids b f = ground (arith, flush_take-timer id s.service, b, f)

-- Unless all is done, the worker has a step that brings it nearer to that.
progress :
    (s : System) → IsCounted s → (weight s ≡ 0) ⊎ ((t : System) × Work s t × (weight t < weight s))
unfolding flush_done
progress s c = elim (Flush-cases s.flush) [
  | inr (inl (e, f)) ↦
      inr (
        record s { flush = applied; model = apply_taken e s.model },
        applies e f,
        ground (arith, f),
      )
  | inr (inr f) ↦
      inr (record s { service = flush_done s.service; flush = outside }, ends f, ground (arith, f))
  | inl f ↦ elim (List-cases s.batch) [
    | inr (id, ids, b) ↦ inr (began id ids s, takes id ids b f, takes_lower s id ids b f)
    | inl b ↦ elim (List-cases s.service.timer.queue) [
      | inr (t, ts, q) ↦ inr (dequeued t.due s, collects t.due b f, collects_lower s t ts c q b f)
      | inl q ↦ inl (ground (arith, q, b, f))
    ]
  ]
]

drains : (n : ℕ) (s : System) → IsCounted s → weight s ≤ n → Drains s
drains zero s c le = (0, s, rest, omega arith, omega arith)
drains (suc n) s c le = elim (progress s c) [
  | inl done ↦ (0, s, rest, omega arith, done)
  | inr (t, w, lower) ↦ onward w lower (drains n t (Work-IsCounted w c) (omega arith))
]

Works-Reach :
    {model : Dict Text Device} {s t : System} {n : ℕ} → Works s n t → Reach model s → Reach model t
Works-Reach rest r = r
Works-Reach (more w run) r = Works-Reach run (later r (works w))

idle_claims : (s : System) → IsCounted s → weight s ≡ 0 → s.service.outstanding ≡ 0
idle_claims s c done = elim (Flush-cases s.flush) [
  | inl f ↦ ground (arith, c.counted, f)
  | inr (inl (e, f)) ↦ absurd (ground (arith, f))
  | inr (inr f) ↦ absurd (ground (arith, f))
]

job_nowhere : (h : ℕ) (id : Text) → job_at h [] ≢ some id
unfolding job_at
job_nowhere h id e = absurd (cc)

idle_pending :
    (s : System)
    → IsServed s.batch s.service
    → weight s ≡ 0
    → (id : Text) → lookup id s.service.pending ≡ none
idle_pending s h done id = elim (Option-cases (lookup id s.service.pending)) [
  | inl e ↦ e
  | inr (p, e) ↦
      let no_queue = length_zero s.service.timer.queue (omega arith) in
      let no_batch = length_zero s.batch (omega arith) in
      elim (h id p e).1 [
        | inl at ↦
            absurd (job_nowhere p.handle id (subst (λ q. job_at p.handle q ≡ some id) no_queue at))
        | inr (gone, i) ↦ elim (subst (Elem id) no_batch i) [ ]
      ]
]

-- From wherever the threads stand, the worker alone gets, in at most `weight` steps, to a state in
-- which no claim is outstanding, so that the wait of `stop` returns, and no event is pending any more.
pub drain :
    {model : Dict Text Device} {s : System}
    → Reach model s
    → (n : ℕ) × (t : System) × Works s n t
      × (n ≤ weight s)
      × (t.service.outstanding ≡ 0)
      × ((id : Text) → lookup id t.service.pending ≡ none)
drain {s = s} r =
    let (n, t, run, bound, done) = drains (weight s) s (Reach-IsCounted r) (omega arith) in
    let r' = Works-Reach run r in
    (
      n,
      t,
      run,
      bound,
      idle_claims t (Reach-IsCounted r') done,
      idle_pending t (Reach-IsServed r') done,
    )
