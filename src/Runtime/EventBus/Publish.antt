-- ===== src/Runtime/EventBus/Publish.antt =====
-- Which handlers a `publish` calls.
use cross_device_manager.Base.{
  ℕ, ◌+◌, ◌-◌, ◌≡◌, refl, ◌∙◌, inl, inr, Bool, false, not, none, some, List, [], ◌∷◌, ◌++◌, nat_eq,
  arith, Option-cases, if◌then◌else◌,
}
use cross_device_manager.Base.Dict.{Dict, lookup, lookup-insert}
use cross_device_manager.Runtime.EventBus.{
  Entry, EventBus, begin_invoke, end_invoke, erase_first, handlers_of, call_all, publish,
}

unfoldable pub is_live : ℕ → Dict ℕ Entry → Bool
is_live id entries = elim (lookup id entries) [ none ↦ false | some e ↦ not e.removed ]

-- Those of the ids that stand for handlers that are not unsubscribed.
unfoldable pub live_of : List ℕ → Dict ℕ Entry → List ℕ
unfolding is_live
live_of [] entries = []
live_of (id ∷ ids) entries =
    let rest = live_of ids entries in if is_live id entries then id ∷ rest else rest

is_live-begin_invoke :
    (thread id : ℕ) (bus : EventBus)
    → ((begin_invoke thread id bus).0 ≡ is_live id bus.entries)
      × ((k : ℕ) → is_live k (begin_invoke thread id bus).1.entries ≡ is_live k bus.entries)
unfolding is_live begin_invoke
is_live-begin_invoke thread id bus = elim (Option-cases (lookup id bus.entries)) [
  | inl e ↦ (ground (arith, e), λ k. ground (arith, e))
  | inr (x, e) ↦ (
    ground (arith, e),
    λ k. ground (
      arith,
      e,
      lookup-insert k id
          (record x { in_flight = x.in_flight + 1; running = x.running ++ thread ∷ [] })
          bus.entries,
    ),
  )
]

is_live-end_invoke :
    (thread id k : ℕ) (bus : EventBus)
    → is_live k (end_invoke thread id bus).1.entries ≡ is_live k bus.entries
unfolding is_live end_invoke
is_live-end_invoke thread id k bus = elim (Option-cases (lookup id bus.entries)) [
  | inl e ↦ ground (arith, e)
  | inr (x, e) ↦ ground (
    arith,
    e,
    lookup-insert k id
        (record x { in_flight = x.in_flight - 1; running = erase_first thread x.running })
        bus.entries,
  )
]

live_of_ext :
    (ids : List ℕ) (a b : Dict ℕ Entry)
    → ((k : ℕ) → is_live k a ≡ is_live k b)
    → live_of ids a ≡ live_of ids b
unfolding live_of
live_of_ext [] a b same = refl
live_of_ext (id ∷ ids) a b same = ground (arith, same id, live_of_ext ids a b same)

call_all-live_of :
    (thread : ℕ) (ids : List ℕ) (bus : EventBus)
    → (call_all thread ids bus).0 ≡ live_of ids bus.entries
unfolding call_all live_of
call_all-live_of thread [] bus = refl
call_all-live_of thread (id ∷ ids) bus =
    let bus₁ = (begin_invoke thread id bus).1 in
    let bus₂ = (end_invoke thread id bus₁).1 in
    let (may, kept) = is_live-begin_invoke thread id bus in
    let kept₂ : (k : ℕ) → is_live k bus₂.entries ≡ is_live k bus.entries =
      λ k. is_live-end_invoke thread id k bus₁ ∙ kept k in
    ground (
      arith,
      may,
      call_all-live_of thread ids bus₁,
      call_all-live_of thread ids bus₂,
      live_of_ext ids bus₁.entries bus.entries kept,
      live_of_ext ids bus₂.entries bus.entries kept₂,
    )

-- While nothing else touches the bus, `publish` calls exactly the handlers of the type that are not
-- unsubscribed, each once per subscription and in the order of subscription.
pub publish-live_of :
    (thread type : ℕ) (bus : EventBus)
    → (publish thread type bus).0 ≡ live_of (handlers_of type bus) bus.entries
unfolding publish
publish-live_of thread type bus = call_all-live_of thread (handlers_of type bus) bus
