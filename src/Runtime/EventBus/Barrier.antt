-- ===== src/Runtime/EventBus/Barrier.antt =====
-- The barrier of `unsubscribe`.
use cross_device_manager.Base.{
  ℕ, ◌+◌, ◌-◌, ◌≤◌, ◌≡◌, refl, sym, ap, subst, ◌∙◌, inl, inr, true, false, Option, some, [], ◌∷◌,
  ◌++◌, nat_eq, ◌==◌, eq_true, arith, any_of, length, Bool-cases, Option-cases, if◌then◌else◌,
}
use mathlib.Core.Option.{some-injective}
use cross_device_manager.Base.Dict.{Dict, lookup, insert, lookup-insert}
use cross_device_manager.Runtime.EventBus.{
  Entry, EventBus, subscribe, begin_invoke, end_invoke, erase_first, handlers_of, take_out,
}
use cross_device_manager.Runtime.EventBus.Threads.{
  Step, subscribes, begins, ends, takes_out, start, Later, here, onward,
}
use cross_device_manager.Runtime.EventBus.Counted.{
  IsCounted, length-erase_first, take_out-IsCounted, start-IsCounted, Later-IsCounted,
}

-- The handler is unsubscribed, and at most `n` calls of it are under way.
abbrev pub Gone : ℕ → ℕ → Dict ℕ Entry → Type 0
Gone id n entries =
    (e : Entry) × (lookup id entries ≡ some e) × (e.removed ≡ true) × (length e.running ≤ n)

same_entry :
    (id other : ℕ) (e x : Entry) (bus : EventBus)
    → lookup id bus.entries ≡ some e
    → lookup other bus.entries ≡ some x
    → (id == other) ≡ true
    → e ≡ x
same_entry id other e x bus at there same =
    let i : id ≡ other = eq_true id other same in
    some-injective e x (sym at ∙ ap (λ k. lookup k bus.entries) i ∙ there)

removed_apart :
    (id other : ℕ) (e x : Entry) (bus : EventBus)
    → lookup id bus.entries ≡ some e
    → lookup other bus.entries ≡ some x
    → e.removed ≡ true
    → x.removed ≡ false
    → (id == other) ≡ false
removed_apart id other e x bus at there r free = elim (Bool-cases (id == other)) [
  | inr d ↦ d
  | inl same ↦
      let one : e.removed ≡ x.removed =
        ap (λ v. v.removed) (same_entry id other e x bus at there same) in
      absurd (cc)
]

begin_invoke-Gone :
    (thread other id n : ℕ) (bus : EventBus)
    → Gone id n bus.entries
    → Gone id n (begin_invoke thread other bus).1.entries
unfolding begin_invoke
begin_invoke-Gone thread other id n bus (e, at, r, le) =
    elim (Option-cases (lookup other bus.entries)) [
      | inl none_there ↦ rw (none_there, begin_invoke) (e, at, r, le)
      | inr (x, there) ↦ elim (Bool-cases x.removed) [
        | inl gone ↦ rw (there, begin_invoke, gone) (e, at, r, le)
        | inr free ↦
            let new : Entry = record {
              id = x.id;
              in_flight = x.in_flight + 1;
              running = x.running ++ thread ∷ [];
              removed = false;
            } in
            let apart : (id == other) ≡ false = removed_apart id other e x bus at there r free in
            rw (there, begin_invoke, free)
              (e, ground (arith, lookup-insert id other new bus.entries), r, le)
      ]
    ]

-- What replaces an entry under `id` calls no more and is removed as well.
put-Gone :
    (id other n : ℕ) (e x new : Entry) (bus : EventBus)
    → lookup id bus.entries ≡ some e
    → lookup other bus.entries ≡ some x
    → e.removed ≡ true
    → length e.running ≤ n
    → (x.removed ≡ true → new.removed ≡ true)
    → length new.running ≤ length x.running
    → Gone id n (insert other new bus.entries)
put-Gone id other n e x new bus at there r le keeps fewer = elim (Bool-cases (id == other)) [
  | inr d ↦ (e, ground (arith, lookup-insert id other new bus.entries), r, le)
  | inl same ↦
      let one = same_entry id other e x bus at there same in
      let rx : x.removed ≡ true = ap (λ v. v.removed) (sym one) ∙ r in
      let lx : length x.running ≤ n = subst (λ v. length v.running ≤ n) one le in
      (new, ground (arith, lookup-insert id other new bus.entries), keeps rx, omega arith)
]

end_invoke-Gone :
    (thread other id n : ℕ) (bus : EventBus) (x : Entry)
    → lookup other bus.entries ≡ some x
    → any_of (λ t. t == thread) x.running ≡ true
    → Gone id n bus.entries
    → Gone id n (end_invoke thread other bus).1.entries
unfolding end_invoke
end_invoke-Gone thread other id n bus x there inside (e, at, r, le) =
    let new : Entry = record x {
      in_flight = x.in_flight - 1;
      running = erase_first thread x.running;
    } in
    let less = length-erase_first thread x.running inside in
    rw (there, end_invoke)
      (put-Gone id other n e x new bus at there r le (λ h. h) (omega (arith, less)))

take_out-Gone :
    (type other id n : ℕ) (bus : EventBus)
    → Gone id n bus.entries
    → Gone id n (take_out type other bus).1.entries
unfolding take_out
take_out-Gone type other id n bus (e, at, r, le) = elim (Option-cases (lookup other bus.entries)) [
  | inl none_there ↦ rw (none_there, take_out) (e, at, r, le)
  | inr (x, there) ↦ elim (Bool-cases (any_of (λ i. i == other) (handlers_of type bus))) [
    | inr absent ↦ rw (there, take_out, absent) (e, at, r, le)
    | inl present ↦
        rw (there, take_out, present)
          (put-Gone id other n e x (record x { removed = true }) bus at there r le (λ h. refl)
            (omega arith))
  ]
]

if_self :
    (id : ℕ) (gone : Entry) (o : Option Entry) → (if id == id then some gone else o) ≡ some gone
if_self id gone o = ground arith

-- What it takes out is removed.
take_out-Gone' :
    (type id n : ℕ) (e : Entry) (bus : EventBus)
    → (take_out type id bus).0 ≡ some e
    → length e.running ≤ n
    → Gone id n (take_out type id bus).1.entries
unfolding take_out
take_out-Gone' type id n e bus out le = elim (Option-cases (lookup id bus.entries)) [
  | inl n ↦ absurd (ground (arith, n))
  | inr (x, at) ↦ elim (Bool-cases (any_of (λ i. i == id) (handlers_of type bus))) [
    | inr absent ↦ absurd (ground (arith, at))
    | inl present ↦
        let gone : Entry = record x { removed = true } in
        let same : gone ≡ e = some-injective gone e (ground (arith, at, present)) in
        let found =
          lookup-insert id id gone bus.entries ∙ if_self id gone (lookup id bus.entries) in
        rw (at, take_out, present)
          (gone, found, refl, subst (λ v. length v.running ≤ n) (sym same) le)
  ]
]

subscribe-Gone :
    (type id n : ℕ) (bus : EventBus)
    → IsCounted bus
    → Gone id n bus.entries
    → Gone id n (subscribe type bus).1.entries
unfolding subscribe
subscribe-Gone type id n bus c (e, at, r, le) =
    let new : Entry = record { id = bus.next_id; in_flight = 0; running = []; removed = false } in
    (
      e,
      ground
          (arith, c.fresh bus.next_id (omega arith), lookup-insert id bus.next_id new bus.entries),
      r,
      le,
    )

Step-Gone :
    {a b : EventBus} (id n : ℕ) → Step a b → IsCounted a → Gone id n a.entries → Gone id n b.entries
Step-Gone {a} id n (subscribes type room) c g = subscribe-Gone type id n a c g
Step-Gone {a} id n (begins thread other) c g = begin_invoke-Gone thread other id n a g
Step-Gone {a} id n (ends thread other x there inside) c g =
    end_invoke-Gone thread other id n a x there inside g
Step-Gone {a} id n (takes_out type other) c g = take_out-Gone type other id n a g

Later-Gone :
    {a b : EventBus} (id n : ℕ)
    → Later a b
    → IsCounted a
    → Gone id n a.entries
    → Gone id n b.entries
Later-Gone id n here c g = g
Later-Gone id n (onward l st) c g = Step-Gone id n st (Later-IsCounted l c) (Later-Gone id n l c g)

begin_invoke_removed :
    (thread id : ℕ) (e : Entry) (bus : EventBus)
    → lookup id bus.entries ≡ some e
    → e.removed ≡ true
    → begin_invoke thread id bus ≡ (false, bus)
unfolding begin_invoke
begin_invoke_removed thread id e bus at r = ground arith

-- After `unsubscribe` has taken a handler out, while `n` calls of it are under way, as many at most are
-- under way at any later time, each of them is counted, and no thread can begin another one. With
-- `n = 0`, where the wait returns, the handler is not running and never runs again.
pub unsubscribe_barrier :
    {bus after : EventBus} (type id n : ℕ) (e : Entry)
    → Later start bus
    → (take_out type id bus).0 ≡ some e
    → length e.running ≤ n
    → Later (take_out type id bus).1 after
    → (x : Entry) × (lookup id after.entries ≡ some x)
      × (x.in_flight ≡ length x.running)
      × (x.in_flight ≤ n)
      × ((thread : ℕ) → begin_invoke thread id after ≡ (false, after))
unsubscribe_barrier {bus} type id n e l out le l' =
    let c = Later-IsCounted l start-IsCounted in
    let c' = take_out-IsCounted type id bus c in
    let (x, at, r, few) = Later-Gone id n l' c' (take_out-Gone' type id n e bus out le) in
    let counted = (Later-IsCounted l' c').counted id x at in
    (x, at, counted, omega arith, λ thread. begin_invoke_removed thread id x _ at r)
