-- ===== src/App/HotplugService/Threads.antt =====
-- The threads around the service: the monitor's, the timer's worker and the owner that stops it.
use cross_device_manager.Base.{
  ℕ, ◌+◌, ◌^◌, ◌<◌, ◌≡◌, Bool, true, false, Option, none, some, List, [], ◌∷◌, Text,
}
use cross_device_manager.Base.Dict.{Dict}
use cross_device_manager.Models.{Device, HotplugEvent}
use cross_device_manager.Runtime.DelayedScheduler.{collect}
use cross_device_manager.App.DeviceService.{apply_delta}
use cross_device_manager.App.HotplugService.{
  HotplugService, on_event, flush_take, flush_done, stop_cancel,
}

-- Where the worker stands in a `flush`: outside, with an event to apply or none, or before the end.
pub data Flush : Type 0 where
  outside : Flush
  taken : Option HotplugEvent → Flush
  applied : Flush

pub record System : Type 0 where
  pub service : HotplugService
  pub monitoring : Bool
  -- What the worker has dequeued and not begun yet.
  pub batch : List Text
  pub flush : Flush
  pub model : Dict Text Device

abbrev pub apply_taken : Option HotplugEvent → Dict Text Device → Dict Text Device
apply_taken none model = model
apply_taken (some event) model = (apply_delta event model).0

abbrev pub dequeued : ℕ → System → System
dequeued now s =
    let (ready, timer) = collect now s.service.timer in
    record s { service = record s.service { timer = timer }; batch = ready }

abbrev pub began : Text → List Text → System → System
began id rest s =
    let (event, service) = flush_take id s.service in
    record s { service = service; batch = rest; flush = taken event }

-- The steps of the timer's thread.
pub data Work (s : System) : System → Type 0 where
  collects : (now : ℕ) → s.batch ≡ [] → s.flush ≡ outside → Work s (dequeued now s)
  takes :
      (id : Text) (rest : List Text)
      → s.batch ≡ id ∷ rest
      → s.flush ≡ outside
      → Work s (began id rest s)
  applies :
      (event : Option HotplugEvent)
      → s.flush ≡ taken event
      → Work s (record s { flush = applied; model = apply_taken event s.model })
  ends : s.flush ≡ applied → Work s (record s { service = flush_done s.service; flush = outside })

-- An event comes only while the monitor's thread runs; handles do not wrap around.
pub data Step (s : System) : System → Type 0 where
  receives :
      (now window : ℕ) (event : HotplugEvent)
      → s.monitoring ≡ true
      → s.service.timer.next_id + 1 < 2 ^ 64
      → Step s (record s { service = on_event now window event s.service })
  stops : Step s (record s { service = stop_cancel s.service; monitoring = false })
  works : {t : System} → Work s t → Step s t

abbrev pub start : Dict Text Device → System
start model = record {
  service = record {
    timer = record { queue = []; index = []; next_id = 1; stopping = false; join_started = false };
    pending = [];
    outstanding = 0;
  };
  monitoring = true;
  batch = [];
  flush = outside;
  model = model;
}

pub data Reach (model : Dict Text Device) : System → Type 0 where
  starts : Reach model (start model)
  later : {s t : System} → Reach model s → Step s t → Reach model t
