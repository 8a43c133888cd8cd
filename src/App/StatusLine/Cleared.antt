-- ===== src/App/StatusLine/Cleared.antt =====
-- Every message is cleared, and the destructor waits for exactly the clears that are still to run.
use cross_device_manager.Base.{
  ℕ, ◌+◌, ◌-◌, ◌%◌, ◌^◌, ◌<◌, ◌≡◌, refl, sym, ap, subst, ◌⊎◌, inl, inr, Bool, true, false, some,
  List, [], ◌∷◌, Text, nat_eq, ◌==◌, eq_false, is_empty, arith, Elem, length, Bool-cases,
}
use cross_device_manager.Runtime.DelayedScheduler.{Timer, knows, schedule, cancel, collect}
use cross_device_manager.Runtime.DelayedScheduler.Queue.{
  IsSynced, has_id, schedule-IsSynced, cancel-IsSynced, cancel-length, length-enqueue,
}
use cross_device_manager.Runtime.DelayedScheduler.Firing.{collect-IsSynced, collect-due}
use cross_device_manager.Runtime.DelayedScheduler.Jobs.{job_at, job_at-enqueue_self, job_at_due}
use cross_device_manager.App.BackendStatus.{StatusSeverity, calm}
use cross_device_manager.App.StatusLine.{
  StatusLine, cancel_clear, set_message, on_clear_fired, destroy,
}

-- The line, what the timer's thread has dequeued and not finished, and is the line destroyed?
pub record System : Type 0 where
  pub line : StatusLine
  pub batch : List ℕ
  pub dead : Bool

-- The steps of the threads; handles and generations do not wrap around.
pub data Step (s : System) : System → Type 0 where
  sets :
      (now ttl : ℕ) (message : Text) (severity : StatusSeverity)
      → s.dead ≡ false
      → s.line.timer.next_id + 1 < 2 ^ 64
      → Step s (record s { line = set_message now ttl message severity s.line })
  collects :
      (now : ℕ)
      → s.batch ≡ []
      → Step s (record s {
        line = record s.line { timer = (collect now s.line.timer).1 };
        batch = (collect now s.line.timer).0;
      })
  fires :
      (generation : ℕ) (rest : List ℕ)
      → s.batch ≡ generation ∷ rest
      → Step s (record s { line = on_clear_fired generation s.line; batch = rest })
  destroys : Step s (record s { line = destroy s.line; dead = true })

abbrev pub start : System
start = record {
  line = record {
    timer = record { queue = []; index = []; next_id = 1; stopping = false; join_started = false };
    armed = false;
    text = [];
    severity = calm;
    clear_handle = 0;
    generation = 0;
    outstanding = 0;
  };
  batch = [];
  dead = false;
}

pub data Reach : System → Type 0 where
  starts : Reach start
  later : {s t : System} → Reach s → Step s t → Reach t

-- The clear of the current generation is queued or dequeued.
abbrev pub Awaits : List ℕ → StatusLine → Type 0
Awaits batch l = (job_at l.clear_handle l.timer.queue ≡ some l.generation) ⊎ Elem l.generation batch

pub record IsCleared (s : System) : Type 0 where
  pub synced : IsSynced s.line.timer
  pub counted : s.line.outstanding ≡ length s.line.timer.queue + length s.batch
  pub awaits : s.dead ≡ false → is_empty s.line.text ≡ false → Awaits s.batch s.line

cancel_clear-IsSynced : (l : StatusLine) → IsSynced l.timer → IsSynced (cancel_clear l).timer
unfolding cancel_clear
cancel_clear-IsSynced l v = elim (Bool-cases (l.clear_handle == 0)) [
  | inl z ↦ rw (z, cancel_clear) v
  | inr z ↦ rw (z, cancel_clear) (cancel-IsSynced l.clear_handle l.timer v)
]

cancel_clear-outstanding :
    (l : StatusLine) (extra : ℕ)
    → IsSynced l.timer
    → l.outstanding ≡ length l.timer.queue + extra
    → (cancel_clear l).outstanding ≡ length (cancel_clear l).timer.queue + extra
unfolding cancel_clear
cancel_clear-outstanding l extra v c = elim (Bool-cases (l.clear_handle == 0)) [
  | inl z ↦ rw (z, cancel_clear) c
  | inr z ↦ rw (z, cancel_clear) (ground (arith, cancel-length l.clear_handle l.timer v, c))
]

cancel_clear-next_id : (l : StatusLine) → (cancel_clear l).timer.next_id ≡ l.timer.next_id
unfolding cancel_clear cancel
cancel_clear-next_id l = ground arith

set_message-IsCleared :
    (now ttl : ℕ) (message : Text) (severity : StatusSeverity) (s : System)
    → s.line.timer.next_id + 1 < 2 ^ 64
    → IsCleared s
    → IsCleared (record s { line = set_message now ttl message severity s.line })
unfolding set_message schedule
set_message-IsCleared now ttl message severity s room c =
    let l = s.line in
    let l₁ = cancel_clear l in
    let mine = (l.generation + 1) % 2 ^ 64 in
    let v₁ = cancel_clear-IsSynced l c.synced in
    let room₁ : l₁.timer.next_id + 1 < 2 ^ 64 = rw (cancel_clear-next_id l) room in
    let t : Timer ℕ = record { due = now + ttl; id = l₁.timer.next_id; fn = mine } in
    let n = cancel_clear-outstanding l (length s.batch) c.synced c.counted in
    record {
      synced = schedule-IsSynced now ttl mine l₁.timer room₁ v₁;
      counted = omega (arith, length-enqueue t l₁.timer.queue, n);
      awaits = λ alive shown.
          inl (job_at-enqueue_self t l₁.timer.queue (v₁.below l₁.timer.next_id (omega arith)));
    }

collected :
    (now : ℕ) (l : StatusLine)
    → IsSynced l.timer
    → Awaits [] l
    → Awaits (collect now l.timer).0 (record l { timer = (collect now l.timer).1 })
unfolding collect
collected now l v (inr i) = elim i [ ]
collected now l v (inl at) =
    let (ready, left, sum) = collect-due now l.timer v in
    elim (job_at_due l.clear_handle now l.timer.queue l.generation v.unique at) [
      | inl stays ↦ inl (rw left stays)
      | inr (gone, i) ↦ inr (rw ready i)
    ]

timer-on_clear_fired :
    (generation : ℕ) (l : StatusLine) → (on_clear_fired generation l).timer ≡ l.timer
unfolding on_clear_fired
timer-on_clear_fired generation l = ground arith

outstanding-on_clear_fired :
    (generation : ℕ) (l : StatusLine)
    → (on_clear_fired generation l).outstanding ≡ l.outstanding - 1
unfolding on_clear_fired
outstanding-on_clear_fired generation l = ground arith

shown_before :
    (generation : ℕ) (l : StatusLine)
    → is_empty (on_clear_fired generation l).text ≡ false
    → is_empty l.text ≡ false
unfolding on_clear_fired is_empty
shown_before generation l h = elim (Bool-cases (generation == l.generation)) [
  | inl same ↦ absurd (cc (rw (same, on_clear_fired) at h))
  | inr stale ↦ rw (stale, on_clear_fired) at h
]

fired :
    (generation : ℕ) (rest : List ℕ) (l : StatusLine)
    → Awaits (generation ∷ rest) l
    → is_empty (on_clear_fired generation l).text ≡ false
    → Awaits rest (on_clear_fired generation l)
unfolding on_clear_fired is_empty
fired generation rest l a shown = elim (Bool-cases (generation == l.generation)) [
  | inl same ↦ absurd (cc (rw (same, on_clear_fired) at shown))
  | inr stale ↦
      rw (stale, on_clear_fired)
        (elim a [
          | inl at ↦ inl at
          | inr (inl e) ↦ absurd (eq_false generation l.generation stale (sym e))
          | inr (inr i) ↦ inr i
        ])
]

Step-IsCleared : {s t : System} → Step s t → IsCleared s → IsCleared t
unfolding destroy
Step-IsCleared {s} (sets now ttl message severity alive room) c =
    set_message-IsCleared now ttl message severity s room c
Step-IsCleared {s} (collects now idle) c =
    let (ready, left, sum) = collect-due now s.line.timer c.synced in
    record {
      synced = collect-IsSynced now s.line.timer c.synced;
      counted = ground (arith, sum, c.counted, ap length idle);
      awaits = λ alive shown.
          collected now s.line c.synced (subst (λ b. Awaits b s.line) idle (c.awaits alive shown));
    }
Step-IsCleared {s} (fires generation rest b) c = record {
  synced = rw (timer-on_clear_fired generation s.line) c.synced;
  counted = ground (
    arith,
    timer-on_clear_fired generation s.line,
    outstanding-on_clear_fired generation s.line,
    c.counted,
    ap length b,
  );
  awaits = λ alive shown.
      fired generation rest s.line
        (subst (λ l. Awaits l s.line) b (c.awaits alive (shown_before generation s.line shown)))
        shown;
}
Step-IsCleared {s} destroys c = record {
  synced = cancel_clear-IsSynced s.line c.synced;
  counted = cancel_clear-outstanding s.line (length s.batch) c.synced c.counted;
  awaits = λ alive shown. absurd (cc);
}

start-IsCleared : IsCleared start
unfolding has_id knows is_empty
start-IsCleared = record {
  synced = record { below = λ h le. refl; indexed = λ h. refl; unique = tt; ordered = tt };
  counted = refl;
  awaits = λ alive shown. absurd (cc);
}

-- However messages, clears and the destructor follow each other, a message that is shown has its clear
-- queued or dequeued, until the line is destroyed; and the clears outstanding, for which the destructor
-- waits, are exactly those that are queued or dequeued.
pub Reach-IsCleared : {s : System} → Reach s → IsCleared s
Reach-IsCleared starts = start-IsCleared
Reach-IsCleared (later r st) = Step-IsCleared st (Reach-IsCleared r)
