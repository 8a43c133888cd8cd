-- ===== src/App/DeviceService/Deltas.antt =====
-- What an observer of the bus knows after one hotplug event.
use cross_device_manager.Base.{
  ◌≡◌, inl, inr, Option, none, some, [], ◌∷◌, Text, text_eq, ◌==◌, arith, Option-cases,
  if◌then◌else◌,
}
use cross_device_manager.Base.Dict.{Dict, lookup, lookup-insert, lookup-erase}
use cross_device_manager.Models.{Device, device_eq, HotplugEvent, added, removed, changed}
use cross_device_manager.App.DeviceService.{apply_removed, apply_present, apply_delta}
use cross_device_manager.App.DeviceService.Events.{observe, replay, Keyed, lookup-emplace}

lookup-Keyed :
    (k : Text) (model : Dict Text Device) (d : Device)
    → Keyed model
    → lookup k model ≡ some d
    → d.id ≡ k
unfolding lookup
lookup-Keyed k [] d keyed h = absurd (cc)
lookup-Keyed k ((j, e) ∷ model) d keyed h = ground (arith, lookup-Keyed k model d keyed.1)

-- What an event leaves under its device's id.
abbrev pub state_after : HotplugEvent → Option Device
state_after event = elim event.action [
  | removed ↦ none
  | added ↦ some event.device
  | changed ↦ some event.device
]

apply_removed-replay :
    (k : Text) (event : HotplugEvent) (model : Dict Text Device)
    → Keyed model
    → (lookup k (replay (apply_removed event model).1 model)
        ≡ lookup k (apply_removed event model).0)
      × (lookup k (apply_removed event model).0
          ≡ (if k == event.device.id then none else lookup k model))
unfolding apply_removed replay observe
apply_removed-replay k event model keyed = elim (Option-cases (lookup event.device.id model)) [
  | inl gone ↦ (ground arith, ground arith)
  | inr (prev, e) ↦
      let same = lookup-Keyed event.device.id model prev keyed e in
      (ground arith, ground (arith, lookup-erase k event.device.id model))
]

apply_present-replay :
    (k : Text) (event : HotplugEvent) (model : Dict Text Device)
    → (lookup k (replay (apply_present event model).1 model)
        ≡ lookup k (apply_present event model).0)
      × (lookup k (apply_present event model).0
          ≡ (if k == event.device.id then some event.device else lookup k model))
unfolding apply_present replay observe
apply_present-replay k event model =
    let id = event.device.id in
    elim (Option-cases (lookup id model)) [
      | inl free ↦ (
        ground
            (arith, lookup-emplace k id event.device model, lookup-insert k id event.device model),
        ground (arith, lookup-emplace k id event.device model),
      )
      | inr (prev, e) ↦ (ground arith, ground (arith, lookup-insert k id event.device model))
    ]

-- The same for one hotplug event: the observer follows, the device of the event is afterwards as the
-- event has it, or gone, and the others are as they were.
pub apply_delta-replay :
    (k : Text) (event : HotplugEvent) (model : Dict Text Device)
    → Keyed model
    → (lookup k (replay (apply_delta event model).1 model) ≡ lookup k (apply_delta event model).0)
      × (lookup k (apply_delta event model).0
          ≡ (if k == event.device.id then state_after event else lookup k model))
unfolding apply_delta
apply_delta-replay k event model keyed =
    ground (arith, apply_removed-replay k event model keyed, apply_present-replay k event model)
