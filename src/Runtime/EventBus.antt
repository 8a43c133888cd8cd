-- ===== src/Runtime/EventBus.antt =====
-- core/include/devmgr/runtime/event_bus.hpp: handlers and the barrier of `unsubscribe`. A shared entry is
-- the object under its id, each critical section one function, a type or a thread a number.
pub mod Threads
pub mod Counted
pub mod Barrier
pub mod Publish
use cross_device_manager.Base.{
  ℕ, ◌+◌, ◌-◌, ◌%◌, ◌^◌, Bool, true, false, Option, none, some, List, [], ◌∷◌, ◌++◌, nat_eq, ◌==◌,
  any_of, not, ◌&&◌, if◌then◌else◌,
}
use cross_device_manager.Base.Dict.{Dict, lookup, insert, erase}

pub record Entry : Type 0 where
  pub id : ℕ
  pub in_flight : ℕ
  pub running : List ℕ
  pub removed : Bool

-- `handlers` has the ids of a type's entries, in the order of subscription, `entries` the objects.
pub record EventBus : Type 0 where
  pub next_id : ℕ
  pub handlers : Dict ℕ (List ℕ)
  pub entries : Dict ℕ Entry

unfoldable pub handlers_of : ℕ → EventBus → List ℕ
handlers_of type bus = elim (lookup type bus.handlers) [ none ↦ [] | some ids ↦ ids ]

-- The id of the new subscription, and the bus.
unfoldable pub subscribe : ℕ → EventBus → ℕ × EventBus
unfolding handlers_of
subscribe type bus =
    let id = bus.next_id in
    let entry : Entry = record { id = id; in_flight = 0; running = []; removed = false } in
    (
      id,
      record {
        next_id = (id + 1) % 2 ^ 64;
        handlers = insert type (handlers_of type bus ++ id ∷ []) bus.handlers;
        entries = insert id entry bus.entries;
      },
    )

-- May the handler be called? If so the call is counted.
unfoldable pub begin_invoke : ℕ → ℕ → EventBus → Bool × EventBus
begin_invoke thread id bus = elim (lookup id bus.entries) [
  | none ↦ (false, bus)
  | some e ↦ if e.removed then (false, bus) else (
    true,
    record bus {
      entries =
          insert id (record e { in_flight = e.in_flight + 1; running = e.running ++ thread ∷ [] })
            bus.entries;
    },
  )
]

-- `run.erase(std::ranges::find(run, ...))`: the first one only.
unfoldable pub erase_first : ℕ → List ℕ → List ℕ
erase_first t [] = []
erase_first t (x ∷ xs) = let rest = erase_first t xs in if t == x then xs else x ∷ rest

-- The second value: does it wake the waiting `unsubscribe` up?
unfoldable pub end_invoke : ℕ → ℕ → EventBus → Bool × EventBus
unfolding erase_first
end_invoke thread id bus = elim (lookup id bus.entries) [
  | none ↦ (false, bus)
  | some e ↦
      let left = e.in_flight - 1 in
      (
        e.removed && (left == 0),
        record bus {
          entries =
              insert id (record e { in_flight = left; running = erase_first thread e.running })
                bus.entries;
        },
      )
]

-- A type without handlers has no entry.
unfoldable pub set_handlers : ℕ → List ℕ → Dict ℕ (List ℕ) → Dict ℕ (List ℕ)
set_handlers type [] d = erase type d
set_handlers type (i ∷ is) d = insert type (i ∷ is) d

-- The part of `unsubscribe` before the wait: the entry that it took out, unless there is none.
unfoldable pub take_out : ℕ → ℕ → EventBus → Option Entry × EventBus
unfolding erase_first handlers_of set_handlers
take_out type id bus =
    let ids = handlers_of type bus in
    elim (lookup id bus.entries) [
      | none ↦ (none, bus)
      | some e ↦
          if any_of (λ i. i == id) ids
          then (let gone = record e { removed = true } in
              let left = erase_first id ids in
              (
                some gone,
                record bus {
                  handlers = set_handlers type left bus.handlers;
                  entries = insert id gone bus.entries;
                },
              ))
          else (none, bus)
    ]

-- The unsubscribing thread does not wait for itself.
unfoldable pub waits : ℕ → Entry → Bool
waits self e = not (any_of (λ t. t == self) e.running)

-- `publish` from its snapshot on, while no other thread comes between: the handlers that it calls.
unfoldable pub call_all : ℕ → List ℕ → EventBus → List ℕ × EventBus
unfolding begin_invoke end_invoke
call_all thread [] bus = ([], bus)
call_all thread (id ∷ ids) bus =
    let (may, bus₁) = begin_invoke thread id bus in
    let (_, bus₂) = end_invoke thread id bus₁ in
    let (called, bus₃) = call_all thread ids (if may then bus₂ else bus₁) in
    (if may then id ∷ called else called, bus₃)

unfoldable pub publish : ℕ → ℕ → EventBus → List ℕ × EventBus
unfolding handlers_of call_all
publish thread type bus = call_all thread (handlers_of type bus) bus
