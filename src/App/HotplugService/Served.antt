-- ===== src/App/HotplugService/Served.antt =====
-- No event is lost: each pending one has its timer in the queue, or its flush is about to run.
use cross_device_manager.Base.{
  ℕ, ◌+◌, ◌%◌, ◌^◌, ◌<◌, ◌≡◌, ◌≢◌, sym, subst, ◌∙◌, ◌⊎◌, inl, inr, true, none, some, List, [], ◌∷◌,
  Text, text_eq, nat_eq, ◌==◌, eq_true, eq_false, arith, Elem, Bool-cases, Option-cases,
  if◌then◌else◌,
}
use cross_device_manager.Base.Dict.{Dict, lookup, erase, lookup-insert, lookup-erase}
use cross_device_manager.Models.{Device, HotplugEvent}
use cross_device_manager.Runtime.DelayedScheduler.{
  Timer, knows, Scheduler, schedule, cancel, collect,
}
use cross_device_manager.Runtime.DelayedScheduler.Queue.{IsSynced, cancel-IsSynced}
use cross_device_manager.Runtime.DelayedScheduler.Firing.{collect-due}
use cross_device_manager.Runtime.DelayedScheduler.Jobs.{
  job_at, job_at-enqueue, job_at-enqueue_self, job_at-dequeue, job_at-has_id, job_at_due,
}
use cross_device_manager.App.HotplugService.{
  HotplugService, Pending, cancel_claim, cancel_old, on_event, flush_take, flush_done, stop_cancel,
}
use cross_device_manager.App.HotplugService.Threads.{
  System, Work, collects, takes, applies, ends, receives, stops, works, Reach, starts, later,
}
use cross_device_manager.App.HotplugService.Barrier.{IsCounted, Reach-IsCounted}

abbrev pub Slot : Text → Pending → List Text → Scheduler Text → Type 0
Slot id p batch timer =
    (p.handle < timer.next_id)
    × ((job_at p.handle timer.queue ≡ some id)
        ⊎ ((job_at p.handle timer.queue ≡ none) × Elem id batch))

abbrev pub IsServed : List Text → HotplugService → Type 0
IsServed batch s =
    (id : Text) (p : Pending) → lookup id s.pending ≡ some p → Slot id p batch s.timer

known_job :
    (h : ℕ) (timer : Scheduler Text)
    → IsSynced timer
    → knows h timer.index ≡ true
    → job_at h timer.queue ≢ none
known_job h timer v k e = absurd (ground (arith, job_at-has_id h timer.queue e, v.indexed h))

cancel-Slot :
    (id other : Text) (p q : Pending) (batch : List Text) (timer : Scheduler Text)
    → IsSynced timer
    → id ≢ other
    → Slot other q batch timer
    → Slot id p batch timer
    → Slot id p batch (cancel q.handle timer).1
unfolding cancel
cancel-Slot id other p q batch timer v n so si = elim (Bool-cases (knows q.handle timer.index)) [
  | inr e ↦ rw (e, cancel) si
  | inl e ↦ elim (Bool-cases (p.handle == q.handle)) [
    | inr d ↦
        rw (e, cancel, job_at-dequeue p.handle q.handle timer.queue (eq_false p.handle q.handle d))
          si
    | inl same ↦
        let h : p.handle ≡ q.handle = eq_true p.handle q.handle same in
        let k = known_job q.handle timer v e in
        elim so.1 [
          | inr (gone, i) ↦ absurd (k gone)
          | inl o ↦ elim si.1 [
            | inl m ↦ absurd (ground arith)
            | inr (gone, i) ↦ absurd (ground arith)
          ]
        ]
  ]
]

schedule-Slot :
    (id : Text) (p : Pending) (batch : List Text) (now delay : ℕ) (fn : Text)
    (timer : Scheduler Text)
    → timer.next_id + 1 < 2 ^ 64
    → Slot id p batch timer
    → Slot id p batch (schedule now delay fn timer).1
unfolding schedule
schedule-Slot id p batch now delay fn timer room s =
    let t : Timer Text = record { due = now + delay; id = timer.next_id; fn = fn } in
    let n : p.handle ≢ t.id = ground (arith, s.0) in
    let same = job_at-enqueue p.handle t timer.queue n in
    let big : (timer.next_id + 1) % 2 ^ 64 ≡ timer.next_id + 1 = omega (arith, room) in
    (omega (arith, big, s.0), rw same s.1)

scheduled-Slot :
    (event : HotplugEvent) (batch : List Text) (now delay : ℕ) (fn : Text) (timer : Scheduler Text)
    → timer.next_id + 1 < 2 ^ 64
    → IsSynced timer
    → Slot fn
        (record { event = event; handle = timer.next_id })
        batch
        (schedule now delay fn timer).1
unfolding schedule
scheduled-Slot event batch now delay fn timer room v =
    let t : Timer Text = record { due = now + delay; id = timer.next_id; fn = fn } in
    let big : (timer.next_id + 1) % 2 ^ 64 ≡ timer.next_id + 1 = omega (arith, room) in
    (
      omega (arith, big),
      inl (job_at-enqueue_self t timer.queue (v.below timer.next_id (omega arith))),
    )

cancel-next_id : (h : ℕ) (timer : Scheduler Text) → (cancel h timer).1.next_id ≡ timer.next_id
unfolding cancel
cancel-next_id h timer = ground arith

-- The event of another device keeps its slot when the old timer of this one goes.
cancel_old-Slot :
    (id other : Text) (p : Pending) (batch : List Text) (s : HotplugService)
    → IsSynced s.timer
    → id ≢ other
    → IsServed batch s
    → lookup id s.pending ≡ some p
    → Slot id p batch (cancel_old other s).timer
unfolding cancel_old cancel_claim
cancel_old-Slot id other p batch s v n h e = elim (Option-cases (lookup other s.pending)) [
  | inl none_old ↦ rw (none_old, cancel_old) (h id p e)
  | inr (q, old) ↦
      rw (old, cancel_old) (cancel-Slot id other p q batch s.timer v n (h other q old) (h id p e))
]

cancel_old-IsSynced :
    (id : Text) (s : HotplugService) → IsSynced s.timer → IsSynced (cancel_old id s).timer
unfolding cancel_old cancel_claim
cancel_old-IsSynced id s v = elim (Option-cases (lookup id s.pending)) [
  | inl e ↦ rw (e, cancel_old) v
  | inr (p, e) ↦ rw (e, cancel_old) (cancel-IsSynced p.handle s.timer v)
]

cancel_old-kept :
    (id : Text) (s : HotplugService)
    → ((cancel_old id s).timer.next_id ≡ s.timer.next_id) × ((cancel_old id s).pending ≡ s.pending)
unfolding cancel_old cancel_claim
cancel_old-kept id s = (grind (arith, cancel-next_id), ground arith)

on_event-IsServed :
    (now window : ℕ) (event : HotplugEvent) (batch : List Text) (s : HotplugService)
    → s.timer.next_id + 1 < 2 ^ 64
    → IsSynced s.timer
    → IsServed batch s
    → IsServed batch (on_event now window event s)
unfolding on_event schedule
on_event-IsServed now window event batch s room v h id p e =
    let dev = event.device.id in
    let s₁ = cancel_old dev s in
    let (same, kept) = cancel_old-kept dev s in
    let room₁ : s₁.timer.next_id + 1 < 2 ^ 64 = rw same room in
    let t : Timer Text = record { due = now + window; id = s₁.timer.next_id; fn = dev } in
    let q : Pending = record { event = event; handle = s₁.timer.next_id } in
    let at : (if id == dev then some q else lookup id s₁.pending) ≡ some p =
      sym (lookup-insert id dev q s₁.pending) ∙ e in
    elim (Bool-cases (id == dev)) [
      | inl b ↦
          let new : q ≡ p = ground arith in
          let named : dev ≡ id = sym (eq_true id dev b) in
          let slot : Slot dev q batch (on_event now window event s).timer =
            scheduled-Slot event batch now window dev s₁.timer room₁
              (cancel_old-IsSynced dev s v) in
          subst (λ k. Slot k p batch (on_event now window event s).timer) named
            (subst (λ r. Slot dev r batch (on_event now window event s).timer) new slot)
      | inr b ↦
          let old : lookup id s.pending ≡ some p = ground (arith, kept) in
          schedule-Slot id p batch now window dev s₁.timer room₁
            (cancel_old-Slot id dev p batch s v (eq_false id dev b) h old)
    ]

shrink-Slot :
    (i id : Text) (p : Pending) (rest : List Text) (timer : Scheduler Text)
    → i ≢ id
    → Slot i p (id ∷ rest) timer
    → Slot i p rest timer
shrink-Slot i id p rest timer n (below, inl q) = (below, inl q)
shrink-Slot i id p rest timer n (below, inr (gone, inl e)) = absurd (n e)
shrink-Slot i id p rest timer n (below, inr (gone, inr b)) = (below, inr (gone, b))

-- A flush takes the event of its own device only.
flush_take-IsServed :
    (id : Text) (rest : List Text) (s : HotplugService)
    → IsServed (id ∷ rest) s
    → IsServed rest (flush_take id s).1
unfolding flush_take
flush_take-IsServed id rest s h i p e = elim (Option-cases (lookup id s.pending)) [
  | inl absent ↦
      let old : lookup i s.pending ≡ some p = rw (absent, flush_take) at e in
      let n : i ≢ id = λ same. cc in
      rw (absent, flush_take) (shrink-Slot i id p rest s.timer n (h i p old))
  | inr (q, present) ↦
      let at : lookup i (erase id s.pending) ≡ some p = rw (present, flush_take) at e in
      let cases : (if i == id then none else lookup i s.pending) ≡ some p =
        sym (lookup-erase i id s.pending) ∙ at in
      let n : i ≢ id = λ same. ground arith in
      rw (present, flush_take) (shrink-Slot i id p rest s.timer n (h i p (ground arith)))
]

collect-IsServed :
    (now : ℕ) (s : HotplugService)
    → IsSynced s.timer
    → IsServed [] s
    → IsServed (collect now s.timer).0 (record s { timer = (collect now s.timer).1 })
unfolding collect
collect-IsServed now s v h id p e =
    let (below, at) = h id p e in
    let (ready, left, _) = collect-due now s.timer v in
    let queue = s.timer.queue in
    elim at [
      | inr (gone, i) ↦ elim i [ ]
      | inl q ↦ elim (job_at_due p.handle now queue id v.unique q) [
        | inl stays ↦ (below, inl (rw left stays))
        | inr (gone, i) ↦ (below, inr (rw left gone, rw ready i))
      ]
    ]

Work-IsServed :
    {s t : System}
    → Work s t
    → IsCounted s
    → IsServed s.batch s.service
    → IsServed t.batch t.service
unfolding collect flush_done
Work-IsServed {s} (collects now idle out) c h =
    collect-IsServed now s.service c.synced (subst (λ b. IsServed b s.service) idle h)
Work-IsServed {s} (takes id rest b out) c h =
    flush_take-IsServed id rest s.service (subst (λ l. IsServed l s.service) b h)
Work-IsServed (applies event f) c h = h
Work-IsServed (ends f) c h = h

-- Whatever the threads do, each pending event has its timer in the queue, or its flush is dequeued.
pub Reach-IsServed :
    {model : Dict Text Device} {s : System} → Reach model s → IsServed s.batch s.service
unfolding stop_cancel lookup
Reach-IsServed starts = λ id p e. absurd (cc)
Reach-IsServed (later {s} r (receives now window event on room)) =
    on_event-IsServed now window event s.batch s.service room (Reach-IsCounted r).synced
      (Reach-IsServed r)
Reach-IsServed (later r stops) = λ id p e. absurd (cc)
Reach-IsServed (later r (works w)) = Work-IsServed w (Reach-IsCounted r) (Reach-IsServed r)
