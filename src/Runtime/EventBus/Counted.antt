-- ===== src/Runtime/EventBus/Counted.antt =====
-- The calls under way are counted: `inFlight` against `running`.
use cross_device_manager.Base.{
  ℕ, suc, ◌+◌, ◌-◌, ◌^◌, ◌≤◌, ◌<◌, ◌≡◌, refl, ap, inl, inr, true, false, none, some, List, [], ◌∷◌,
  ◌++◌, nat_eq, ◌==◌, arith, any_of, length, length-append, Bool-cases, Option-cases,
}
use cross_device_manager.Base.Dict.{lookup, insert, lookup-insert}
use cross_device_manager.Runtime.EventBus.{
  Entry, EventBus, subscribe, begin_invoke, end_invoke, erase_first, handlers_of, take_out,
}
use cross_device_manager.Runtime.EventBus.Threads.{
  Step, subscribes, begins, ends, takes_out, start, Later, here, onward,
}

-- The calls under way are counted, and ids not given yet are free.
pub record IsCounted (bus : EventBus) : Type 0 where
  pub fresh : (h : ℕ) → bus.next_id ≤ h → lookup h bus.entries ≡ none
  pub counted :
      (id : ℕ) (e : Entry) → lookup id bus.entries ≡ some e → e.in_flight ≡ length e.running

pub length-erase_first :
    (t : ℕ) (xs : List ℕ)
    → any_of (λ x. x == t) xs ≡ true
    → suc (length (erase_first t xs)) ≡ length xs
unfolding erase_first any_of
length-erase_first t [] h = absurd (cc)
length-erase_first t (x ∷ xs) h = ground (arith, length-erase_first t xs)

-- An entry is replaced by another that counts its calls as well.
put-IsCounted :
    (id : ℕ) (old e : Entry) (bus other : EventBus)
    → IsCounted bus
    → lookup id bus.entries ≡ some old
    → e.in_flight ≡ length e.running
    → other.next_id ≡ bus.next_id
    → other.entries ≡ insert id e bus.entries
    → IsCounted other
put-IsCounted id old e bus other c at good same new = record {
  fresh = λ h le.
      ground (arith, ap (lookup h) new, lookup-insert h id e bus.entries, c.fresh h, c.fresh id);
  counted = λ i x held.
      ground (arith, ap (lookup i) new, lookup-insert i id e bus.entries, c.counted i x);
}

subscribe-IsCounted :
    (type : ℕ) (bus : EventBus)
    → bus.next_id + 1 < 2 ^ 64
    → IsCounted bus
    → IsCounted (subscribe type bus).1
unfolding subscribe
subscribe-IsCounted type bus room c =
    let id = bus.next_id in
    let e : Entry = record { id = id; in_flight = 0; running = []; removed = false } in
    record {
      fresh = λ h le. ground (arith, lookup-insert h id e bus.entries, c.fresh h);
      counted = λ i x at. ground (arith, lookup-insert i id e bus.entries, c.counted i x);
    }

begin_invoke-IsCounted :
    (thread id : ℕ) (bus : EventBus) → IsCounted bus → IsCounted (begin_invoke thread id bus).1
unfolding begin_invoke
begin_invoke-IsCounted thread id bus c = elim (Option-cases (lookup id bus.entries)) [
  | inl n ↦ rw (n, begin_invoke) c
  | inr (e, at) ↦ elim (Bool-cases e.removed) [
    | inl r ↦ rw (at, begin_invoke, r) c
    | inr r ↦
        let more = length-append e.running (thread ∷ []) in
        rw (at, begin_invoke, r)
          (put-IsCounted id e
            (record {
              id = e.id;
              in_flight = e.in_flight + 1;
              running = e.running ++ thread ∷ [];
              removed = false;
            })
            bus _ c at (ground (arith, more, c.counted id e at)) refl refl)
  ]
]

end_invoke-IsCounted :
    (thread id : ℕ) (bus : EventBus) (e : Entry)
    → lookup id bus.entries ≡ some e
    → any_of (λ t. t == thread) e.running ≡ true
    → IsCounted bus
    → IsCounted (end_invoke thread id bus).1
unfolding end_invoke
end_invoke-IsCounted thread id bus e at inside c =
    let less = length-erase_first thread e.running inside in
    rw (at, end_invoke)
      (put-IsCounted id e
        (record e { in_flight = e.in_flight - 1; running = erase_first thread e.running }) bus _ c
        at (ground (arith, less, c.counted id e at)) refl refl)

pub take_out-IsCounted :
    (type id : ℕ) (bus : EventBus) → IsCounted bus → IsCounted (take_out type id bus).1
unfolding take_out
take_out-IsCounted type id bus c = elim (Option-cases (lookup id bus.entries)) [
  | inl n ↦ rw (n, take_out) c
  | inr (e, at) ↦ elim (Bool-cases (any_of (λ i. i == id) (handlers_of type bus))) [
    | inr r ↦ rw (at, take_out, r) c
    | inl r ↦
        rw (at, take_out, r)
          (put-IsCounted id e (record e { removed = true }) bus _ c at (c.counted id e at) refl
            refl)
  ]
]

Step-IsCounted : {a b : EventBus} → Step a b → IsCounted a → IsCounted b
Step-IsCounted {a} (subscribes type room) c = subscribe-IsCounted type a room c
Step-IsCounted {a} (begins thread id) c = begin_invoke-IsCounted thread id a c
Step-IsCounted {a} (ends thread id e at inside) c = end_invoke-IsCounted thread id a e at inside c
Step-IsCounted {a} (takes_out type id) c = take_out-IsCounted type id a c

pub start-IsCounted : IsCounted start
unfolding lookup
start-IsCounted = record { fresh = λ h le. refl; counted = λ id e at. absurd (cc) }

pub Later-IsCounted : {a b : EventBus} → Later a b → IsCounted a → IsCounted b
Later-IsCounted here c = c
Later-IsCounted (onward l st) c = Step-IsCounted st (Later-IsCounted l c)
