-- ===== src/App/HotplugService.antt =====
-- app/src/hotplug_service.cpp: hotplug events, debounced per device. The monitor's thread calls
-- `on_event`, the timer's thread `flush`, the owner `stop`; each critical section is one function.
-- The timers of other users are left out: they touch entries of their own only.
pub mod Threads
pub mod Barrier
pub mod Served
pub mod Drain
use cross_device_manager.Base.{
  ℕ, ◌-◌, ◌+◌, Bool, true, false, Option, none, some, List, [], ◌∷◌, Text, text_eq, if◌then◌else◌,
}
use cross_device_manager.Base.Dict.{Dict, lookup, insert, erase}
use cross_device_manager.Models.{Device, HotplugEvent}
use cross_device_manager.Runtime.DelayedScheduler.{Scheduler, schedule, cancel}

pub record Pending : Type 0 where
  pub event : HotplugEvent
  pub handle : ℕ

-- The service and the timer that it schedules on; a callback is the id that it flushes.
-- `outstandingFlushes_` never falls below 0; that the subtraction here stops there plays no part.
pub record HotplugService : Type 0 where
  pub timer : Scheduler Text
  pub pending : Dict Text Pending
  pub outstanding : ℕ

-- `if (timer_.cancel(handle)) --outstandingFlushes_;`
unfoldable pub cancel_claim : ℕ → HotplugService → HotplugService
unfolding cancel
cancel_claim h s =
    let (hit, timer) = cancel h s.timer in
    record s { timer = timer; outstanding = if hit then s.outstanding - 1 else s.outstanding }

unfoldable pub cancel_old : Text → HotplugService → HotplugService
unfolding cancel_claim
cancel_old id s = elim (lookup id s.pending) [ none ↦ s | some p ↦ cancel_claim p.handle s ]

-- `window` is the debounce window, `now` the time of the clock.
unfoldable pub on_event : ℕ → ℕ → HotplugEvent → HotplugService → HotplugService
unfolding cancel_old schedule
on_event now window event s =
    let id = event.device.id in
    let s₁ = cancel_old id s in
    let (h, timer) = schedule now window id s₁.timer in
    record s₁ {
      timer = timer;
      outstanding = s₁.outstanding + 1;
      pending = insert id (record { event = event; handle = h }) s₁.pending;
    }

-- The first critical section of `flush`: the event to apply, if it is still pending.
unfoldable pub flush_take : Text → HotplugService → Option HotplugEvent × HotplugService
flush_take id s = elim (lookup id s.pending) [
  | none ↦ (none, s)
  | some p ↦ (some p.event, record s { pending = erase id s.pending })
]

-- Its second one.
unfoldable pub flush_done : HotplugService → HotplugService
flush_done s = record s { outstanding = s.outstanding - 1 }

unfoldable pub cancel_all : List (Text × Pending) → HotplugService → HotplugService
unfolding cancel_claim
cancel_all [] s = s
cancel_all ((id, p) ∷ ps) s = cancel_all ps (cancel_claim p.handle s)

-- `stop`, up to the wait, when the monitor's thread has ended.
unfoldable pub stop_cancel : HotplugService → HotplugService
unfolding cancel_all
stop_cancel s = record (cancel_all s.pending s) { pending = [] }
