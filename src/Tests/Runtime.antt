-- ===== src/Tests/Runtime.antt =====
-- Examples for the bus, the timer and the service of hotplug events.
use cross_device_manager.Base.{
  ℕ, zero, suc, ◌+◌, ◌≤◌, ◌≡◌, refl, Bool, true, false, Option, none, some, List, [], ◌∷◌, Text,
  bytes, nat_eq, text_eq, ◌==◌, any_of, arith, length, is_empty, if◌then◌else◌,
}
use cross_device_manager.Base.Dict.{Dict, lookup}
use cross_device_manager.Models.{
  Device, usb, active, HotplugEvent, added, removed, DeviceStatus, disabled,
}
use cross_device_manager.Runtime.DelayedScheduler.{Scheduler, schedule, collect}
use cross_device_manager.Runtime.DelayedScheduler.Queue.{IsSynced, schedule-IsSynced}
use cross_device_manager.Runtime.DelayedScheduler.Firing.{due_by, due_after, collect-due}
use cross_device_manager.Runtime.EventBus.{
  EventBus, Entry, subscribe, begin_invoke, end_invoke, take_out,
}
use cross_device_manager.Runtime.EventBus.Threads.{
  start, Later, here, onward, subscribes, begins, ends,
}
use cross_device_manager.Runtime.EventBus.Barrier.{unsubscribe_barrier}
use cross_device_manager.App.DeviceService.{device_changed, apply_enumeration, apply_delta}
use cross_device_manager.App.DeviceService.Events.{replay, find_id, apply_enumeration-replay}
use cross_device_manager.App.DeviceService.Deltas.{state_after, apply_delta-replay}
use cross_device_manager.Tests.Toy.{stick}

abbrev idle : Scheduler Text
idle = record { queue = []; index = []; next_id = 1; stopping = false; join_started = false }

idle-IsSynced : IsSynced idle
unfolding cross_device_manager.Runtime.DelayedScheduler.Queue.has_id
    cross_device_manager.Runtime.DelayedScheduler.knows
idle-IsSynced = record { below = λ h le. refl; indexed = λ h. refl; unique = tt; ordered = tt }

abbrev one_timer : Scheduler Text
one_timer = (schedule 100 20 (bytes "a") idle).1

one_timer-IsSynced : IsSynced one_timer
one_timer-IsSynced = schedule-IsSynced 100 20 (bytes "a") idle (omega arith) idle-IsSynced

collect-due_example :
    ((collect 120 one_timer).0 ≡ due_by 120 one_timer.queue)
    × ((collect 120 one_timer).1.queue ≡ due_after 120 one_timer.queue)
    × (length (collect 120 one_timer).0 + length (collect 120 one_timer).1.queue
        ≡ length one_timer.queue)
collect-due_example = collect-due 120 one_timer one_timer-IsSynced

due_now : (collect 120 one_timer).0 ≡ bytes "a" ∷ []
unfolding collect schedule
due_now = refl

not_due_yet : (collect 119 one_timer).0 ≡ []
unfolding collect schedule
not_due_yet = refl

-- One handler, which thread 1 is calling while another thread unsubscribes it.
abbrev busy : EventBus
busy = (begin_invoke 1 1 (subscribe 7 start).1).1

abbrev taken_entry : Entry
taken_entry = record { id = 1; in_flight = 1; running = 1 ∷ []; removed = true }

abbrev drained : EventBus
drained = (end_invoke 1 1 (take_out 7 1 busy).1).1

busy-Later : Later start busy
busy-Later = onward (onward here (subscribes 7 (omega arith))) (begins 1 1)

drained-Later : Later (take_out 7 1 busy).1 drained
unfolding lookup take_out begin_invoke subscribe cross_device_manager.Base.Dict.insert nat_eq any_of
drained-Later = onward here (ends 1 1 taken_entry refl refl)

unsubscribe_barrier_example :
    (x : Entry) × (lookup 1 drained.entries ≡ some x)
    × (x.in_flight ≡ length x.running)
    × (x.in_flight ≤ 1)
    × ((thread : ℕ) → begin_invoke thread 1 drained ≡ (false, drained))
unfolding take_out lookup begin_invoke subscribe cross_device_manager.Base.Dict.insert nat_eq any_of
unsubscribe_barrier_example =
    unsubscribe_barrier 7 1 1 taken_entry busy-Later refl (omega arith) drained-Later

-- The call has returned.
no_call_left : drained.entries ≡ (1, record taken_entry { in_flight = 0; running = [] }) ∷ []
unfolding end_invoke lookup take_out begin_invoke subscribe cross_device_manager.Base.Dict.insert
    nat_eq any_of
no_call_left = refl

abbrev stick_off : Device
stick_off = record (stick []) { status = disabled }

abbrev model : Dict Text Device
model = (bytes "stick", stick []) ∷ []

apply_enumeration-replay_example :
    (lookup (bytes "stick") (apply_enumeration (stick_off ∷ []) model).0
      ≡ find_id (bytes "stick") (stick_off ∷ []))
    × (lookup (bytes "stick") (replay (apply_enumeration (stick_off ∷ []) model).1 model)
        ≡ lookup (bytes "stick") (apply_enumeration (stick_off ∷ []) model).0)
unfolding find_id
apply_enumeration-replay_example =
    apply_enumeration-replay (bytes "stick") (stick_off ∷ []) model (refl, tt) (refl, tt)

changed_only : (apply_enumeration (stick_off ∷ []) model).1 ≡ device_changed stick_off ∷ []
unfolding apply_enumeration text_eq cross_device_manager.Models.device_eq any_of
changed_only = refl

abbrev unplugged : HotplugEvent
unplugged = record { action = removed; device = stick [] }

apply_delta-replay_example :
    (lookup (bytes "stick") (replay (apply_delta unplugged model).1 model)
      ≡ lookup (bytes "stick") (apply_delta unplugged model).0)
    × (lookup (bytes "stick") (apply_delta unplugged model).0 ≡ (
        if bytes "stick" == unplugged.device.id
        then state_after unplugged
        else lookup (bytes "stick") model))
apply_delta-replay_example = apply_delta-replay (bytes "stick") unplugged model (refl, tt)
