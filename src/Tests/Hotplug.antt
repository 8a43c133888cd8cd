-- ===== src/Tests/Hotplug.antt =====
-- Examples for the service of hotplug events and the status line, step by step.
use cross_device_manager.Base.{
  ℕ, zero, suc, ◌+◌, ◌≤◌, ◌≡◌, refl, Bool, true, false, Option, none, some, List, [], ◌∷◌, Text,
  bytes, nat_eq, text_eq, ◌==◌, arith, length, is_empty,
}
use cross_device_manager.Base.Dict.{Dict, lookup}
use cross_device_manager.Models.{HotplugEvent, changed}
use cross_device_manager.App.HotplugService.Threads.{
  System, receives, stops, start, Reach, starts, later,
}
use cross_device_manager.App.HotplugService.Barrier.{IsQuiet, here, stop_barrier}
use cross_device_manager.App.HotplugService.Served.{IsServed, Reach-IsServed}
use cross_device_manager.App.HotplugService.Drain.{Works, weight, drain}
use cross_device_manager.Tests.Toy.{stick}
use cross_device_manager.App.HotplugService.{on_event, stop_cancel}

abbrev event : HotplugEvent
event = record { action = changed; device = stick [] }

-- The monitor has seen an event at time 100, with a window of 20.
abbrev seen : System
seen = record (start []) { service = on_event 100 20 event (start []).service }

seen-Reach : Reach [] seen
seen-Reach = later starts (receives 100 20 event refl (omega arith))

Reach-IsServed_example : IsServed seen.batch seen.service
Reach-IsServed_example = Reach-IsServed seen-Reach

drain_example :
    (n : ℕ) × (t : System) × Works seen n t
    × (n ≤ weight seen)
    × (t.service.outstanding ≡ 0)
    × ((id : Text) → lookup id t.service.pending ≡ none)
drain_example = drain seen-Reach

weight_of_one : weight seen ≡ 4
unfolding on_event lookup
weight_of_one = refl

abbrev stopped : System
stopped = record seen { service = stop_cancel seen.service; monitoring = false }

stopped-Reach : Reach [] stopped
stopped-Reach = later seen-Reach stops

stop_barrier_example :
    IsQuiet stopped × (stopped.service.outstanding ≡ 0) × (stopped.model ≡ stopped.model)
unfolding stop_cancel on_event cross_device_manager.Base.Dict.insert lookup nat_eq
stop_barrier_example = stop_barrier stopped-Reach refl refl here
