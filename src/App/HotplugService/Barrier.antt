-- ===== src/App/HotplugService/Barrier.antt =====
-- The claims on outstanding flushes are exactly the flushes that are still to run or running, and when
-- a stopped service has none, the model is never touched again.
use cross_device_manager.Base.{
  ℕ, ◌+◌, ◌^◌, ◌<◌, ◌≡◌, refl, ap, ◌∙◌, inl, inr, false, List, [], ◌∷◌, Text, text_eq, nat_eq,
  arith, length, Option-cases,
}
use cross_device_manager.Base.Dict.{Dict, lookup}
use cross_device_manager.Models.{Device, HotplugEvent}
use cross_device_manager.Runtime.DelayedScheduler.{knows, Timer, schedule, cancel, collect}
use cross_device_manager.Runtime.DelayedScheduler.Queue.{
  IsSynced, has_id, schedule-IsSynced, cancel-IsSynced, cancel-length, length-enqueue,
}
use cross_device_manager.Runtime.DelayedScheduler.Firing.{collect-IsSynced, collect-due}
use cross_device_manager.App.HotplugService.{
  HotplugService, Pending, cancel_claim, cancel_old, on_event, flush_take, flush_done, cancel_all,
  stop_cancel,
}
use cross_device_manager.App.HotplugService.Threads.{
  Flush, outside, taken, applied, System, Work, collects, takes, applies, ends, Step, receives,
  stops, works, start, Reach, starts, later,
}

abbrev pub running : Flush → ℕ
running outside = 0
running _ = 1

-- `extra` flushes stand outside of the queue.
pub record IsClaimed (extra : ℕ) (s : HotplugService) : Type 0 where
  pub synced : IsSynced s.timer
  pub counted : s.outstanding ≡ length s.timer.queue + extra

cancel_claim-IsClaimed :
    (h extra : ℕ) (s : HotplugService) → IsClaimed extra s → IsClaimed extra (cancel_claim h s)
unfolding cancel_claim
cancel_claim-IsClaimed h extra s c = record {
  synced = cancel-IsSynced h s.timer c.synced;
  counted = ground (arith, cancel-length h s.timer c.synced, c.counted);
}

cancel_old-IsClaimed :
    (id : Text) (extra : ℕ) (s : HotplugService)
    → IsClaimed extra s
    → IsClaimed extra (cancel_old id s)
unfolding cancel_old
cancel_old-IsClaimed id extra s c = elim (Option-cases (lookup id s.pending)) [
  | inl e ↦ rw (e, cancel_old) c
  | inr (p, e) ↦ rw (e, cancel_old) (cancel_claim-IsClaimed p.handle extra s c)
]

next_id-cancel_old :
    (id : Text) (s : HotplugService) → (cancel_old id s).timer.next_id ≡ s.timer.next_id
unfolding cancel_old cancel_claim cancel
next_id-cancel_old id s = ground arith

on_event-IsClaimed :
    (now window : ℕ) (event : HotplugEvent) (extra : ℕ) (s : HotplugService)
    → s.timer.next_id + 1 < 2 ^ 64
    → IsClaimed extra s
    → IsClaimed extra (on_event now window event s)
unfolding on_event schedule
on_event-IsClaimed now window event extra s room c =
    let id = event.device.id in
    let s₁ = cancel_old id s in
    let c₁ = cancel_old-IsClaimed id extra s c in
    let room₁ : s₁.timer.next_id + 1 < 2 ^ 64 = rw (next_id-cancel_old id s) room in
    let t : Timer Text = record { due = now + window; id = s₁.timer.next_id; fn = id } in
    record {
      synced = schedule-IsSynced now window id s₁.timer room₁ c₁.synced;
      counted = omega (arith, length-enqueue t s₁.timer.queue, c₁.counted);
    }

cancel_all-IsClaimed :
    (ps : List (Text × Pending)) (extra : ℕ) (s : HotplugService)
    → IsClaimed extra s
    → IsClaimed extra (cancel_all ps s)
unfolding cancel_all
cancel_all-IsClaimed [] extra s c = c
cancel_all-IsClaimed ((id, p) ∷ ps) extra s c =
    cancel_all-IsClaimed ps extra (cancel_claim p.handle s)
      (cancel_claim-IsClaimed p.handle extra s c)

pub flush_take-timer : (id : Text) (s : HotplugService) → (flush_take id s).1.timer ≡ s.timer
unfolding flush_take
flush_take-timer id s = ground arith

flush_take-outstanding :
    (id : Text) (s : HotplugService) → (flush_take id s).1.outstanding ≡ s.outstanding
unfolding flush_take
flush_take-outstanding id s = ground arith

-- The claims count what is queued, what is dequeued and what runs.
abbrev pub IsCounted : System → Type 0
IsCounted s = IsClaimed (length s.batch + running s.flush) s.service

pub Work-IsCounted : {s t : System} → Work s t → IsCounted s → IsCounted t
unfolding flush_done
Work-IsCounted {s} (collects now idle out) c =
    let (ready, queue, sum) = collect-due now s.service.timer c.synced in
    record { synced = collect-IsSynced now s.service.timer c.synced; counted = ground arith }
Work-IsCounted {s} (takes id rest b out) c = record {
  synced = rw (flush_take-timer id s.service) c.synced;
  counted = ground (arith, flush_take-timer id s.service, flush_take-outstanding id s.service);
}
Work-IsCounted {s} (applies event f) c = record { synced = c.synced; counted = ground arith }
Work-IsCounted {s} (ends f) c = record { synced = c.synced; counted = ground arith }

Step-IsCounted : {s t : System} → Step s t → IsCounted s → IsCounted t
unfolding stop_cancel
Step-IsCounted {s} (receives now window event on room) c =
    on_event-IsClaimed now window event (length s.batch + running s.flush) s.service room c
Step-IsCounted {s} stops c =
    let c' =
      cancel_all-IsClaimed s.service.pending (length s.batch + running s.flush) s.service c in
    record { synced = c'.synced; counted = c'.counted }
Step-IsCounted (works w) c = Work-IsCounted w c

start-IsCounted : (model : Dict Text Device) → IsCounted (start model)
unfolding has_id knows
start-IsCounted model = record {
  synced = record { below = λ h le. refl; indexed = λ h. refl; unique = tt; ordered = tt };
  counted = refl;
}

-- Whatever the threads do, the claims count exactly the flushes that are queued, dequeued or running;
-- so they are never negative, and there are none exactly if no flush is to come.
pub Reach-IsCounted : {model : Dict Text Device} {s : System} → Reach model s → IsCounted s
Reach-IsCounted {model} starts = start-IsCounted model
Reach-IsCounted (later r st) = Step-IsCounted st (Reach-IsCounted r)

-- The states after one.
pub data Later (s : System) : System → Type 0 where
  here : Later s s
  onward : {t u : System} → Later s t → Step t u → Later s u

-- No flush is left, and no event comes.
abbrev pub IsQuiet : System → Type 0
IsQuiet s =
    (s.monitoring ≡ false) × (s.service.timer.queue ≡ []) × (s.batch ≡ []) × (s.flush ≡ outside)

pub length_zero {ℓ} : {A : Type ℓ} (xs : List A) → length xs ≡ 0 → xs ≡ []
length_zero [] h = refl
length_zero (x ∷ xs) h = absurd (omega arith)

running_zero : (f : Flush) → running f ≡ 0 → f ≡ outside
running_zero outside h = refl
running_zero (taken e) h = absurd (omega arith)
running_zero applied h = absurd (omega arith)

IsQuiet-of_none :
    (s : System) → IsCounted s → s.monitoring ≡ false → s.service.outstanding ≡ 0 → IsQuiet s
IsQuiet-of_none s c m z = (
  m,
  length_zero s.service.timer.queue (omega (arith, c.counted)),
  length_zero s.batch (omega (arith, c.counted)),
  running_zero s.flush (omega (arith, c.counted)),
)

cancel_claim_empty :
    (h : ℕ) (s : HotplugService) → IsSynced s.timer → s.timer.queue ≡ [] → cancel_claim h s ≡ s
unfolding cancel_claim cancel has_id
cancel_claim_empty h s v e =
    let unknown : knows h s.timer.index ≡ false = v.indexed h ∙ ap (has_id h) e in
    rw (unknown, cancel) refl

cancel_all_empty :
    (ps : List (Text × Pending)) (s : HotplugService)
    → IsSynced s.timer
    → s.timer.queue ≡ []
    → cancel_all ps s ≡ s
unfolding cancel_all
cancel_all_empty [] s v e = refl
cancel_all_empty ((id, p) ∷ ps) s v e =
    rw (cancel_claim_empty p.handle s v e) (cancel_all_empty ps s v e)

Step-IsQuiet : {s t : System} → Step s t → IsCounted s → IsQuiet s → IsQuiet t × (t.model ≡ s.model)
unfolding stop_cancel
Step-IsQuiet (receives now window event on room) c q = absurd (cc)
Step-IsQuiet {s} stops c q =
    let same = cancel_all_empty s.service.pending s.service c.synced q.1 in
    ((refl, ap (λ v. v.timer.queue) same ∙ q.1, q.2, q.3), refl)
Step-IsQuiet {s} (works (collects now b out)) c q =
    let (ready, queue, sum) = collect-due now s.service.timer c.synced in
    (
      (
        q.0,
        length_zero (collect now s.service.timer).1.queue (omega (arith, sum, ap length q.1)),
        length_zero (collect now s.service.timer).0 (omega (arith, sum, ap length q.1)),
        q.3,
      ),
      refl,
    )
Step-IsQuiet (works (takes id rest b out)) c q = absurd (ground arith)
Step-IsQuiet (works (applies event f)) c q = absurd (ground arith)
Step-IsQuiet (works (ends f)) c q = absurd (ground arith)

Later-IsQuiet :
    {s t : System}
    → Later s t
    → IsCounted s
    → IsQuiet s
    → IsCounted t × (IsQuiet t × (t.model ≡ s.model))
Later-IsQuiet here c q = (c, (q, refl))
Later-IsQuiet (onward r st) c q =
    let (c', (q', same)) = Later-IsQuiet r c q in
    let (q'', same') = Step-IsQuiet st c' q' in (Step-IsCounted st c', (q'', same' ∙ same))

-- The barrier of `stop`: once the monitor's thread has ended and no claim is left, which is what the
-- wait of `stop` returns on, no flush is queued, dequeued or running, none ever will be, and the model
-- is never touched again.
pub stop_barrier :
    {model : Dict Text Device} {s t : System}
    → Reach model s
    → s.monitoring ≡ false
    → s.service.outstanding ≡ 0
    → Later s t
    → IsQuiet t × (t.service.outstanding ≡ 0) × (t.model ≡ s.model)
stop_barrier {s = s} r m z l =
    let c = Reach-IsCounted r in
    let (c', (q, same)) = Later-IsQuiet l c (IsQuiet-of_none s c m z) in
    (q, ground (arith, c'.counted), same)
