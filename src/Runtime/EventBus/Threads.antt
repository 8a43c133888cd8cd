-- ===== src/Runtime/EventBus/Threads.antt =====
-- The threads around the bus, in any order: a step is one critical section.
use cross_device_manager.Base.{ℕ, ◌+◌, ◌^◌, ◌<◌, ◌≡◌, true, some, [], any_of, nat_eq, ◌==◌}
use cross_device_manager.Base.Dict.{lookup}
use cross_device_manager.Runtime.EventBus.{
  Entry, EventBus, subscribe, begin_invoke, end_invoke, take_out,
}

-- Only a thread that is in the handler leaves it, and ids do not wrap around.
pub data Step (bus : EventBus) : EventBus → Type 0 where
  subscribes : (type : ℕ) → bus.next_id + 1 < 2 ^ 64 → Step bus (subscribe type bus).1
  begins : (thread id : ℕ) → Step bus (begin_invoke thread id bus).1
  ends :
      (thread id : ℕ) (e : Entry)
      → lookup id bus.entries ≡ some e
      → any_of (λ t. t == thread) e.running ≡ true
      → Step bus (end_invoke thread id bus).1
  takes_out : (type id : ℕ) → Step bus (take_out type id bus).1

abbrev pub start : EventBus
start = record { next_id = 1; handlers = []; entries = [] }

pub data Later (bus : EventBus) : EventBus → Type 0 where
  here : Later bus bus
  onward : {b c : EventBus} → Later bus b → Step b c → Later bus c
