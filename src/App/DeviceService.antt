-- ===== src/App/DeviceService.antt =====
-- app/src/device_service.cpp: the model of the devices that the clients show, and the events that it
-- publishes. A `std::unordered_map` is the list of its entries.
pub mod Events
pub mod Deltas
use cross_device_manager.Base.{
  Bool, true, false, not, Option, none, some, List, [], ◌∷◌, ◌++◌, Text, text_eq, ◌==◌, map,
  if◌then◌else◌,
}
use cross_device_manager.Base.Dict.{Dict, lookup, insert, erase, contains}
use cross_device_manager.Models.{Device, device_eq, HotplugEvent, added, removed, changed}

pub data DeviceEvent : Type 0 where
  device_added : Device → DeviceEvent
  device_removed : Text → DeviceEvent
  device_changed : Device → DeviceEvent

-- `emplace`: a key that is there keeps its value.
unfoldable pub emplace : Text → Device → Dict Text Device → Dict Text Device
unfolding contains
emplace k d m = if contains k m then m else m ++ ((k, d) ∷ [])

-- What the loop over the snapshot collects.
pub record Reconciled : Type 0 where
  pub added : List Device
  pub changed : List Device
  pub next : Dict Text Device

unfoldable pub reconcile : Dict Text Device → List Device → Dict Text Device → Reconciled
unfolding emplace
reconcile model [] next = record { added = []; changed = []; next = next }
reconcile model (d ∷ ds) next =
    let rest = reconcile model ds (emplace d.id d next) in
    elim (lookup d.id model) [
      | none ↦ record rest { added = d ∷ rest.added }
      | some prev ↦ if prev == d then rest else record rest { changed = d ∷ rest.changed }
    ]

-- The ids of the devices that are gone.
unfoldable pub removed_ids : Dict Text Device → Dict Text Device → List Text
unfolding contains
removed_ids [] next = []
removed_ids ((k, d) ∷ model) next =
    let rest = removed_ids model next in if contains k next then rest else d.id ∷ rest

-- The new model, and what is published after the lock is released.
unfoldable pub apply_enumeration :
    List Device → Dict Text Device → Dict Text Device × List DeviceEvent
unfolding reconcile removed_ids
apply_enumeration snapshot model =
    let r = reconcile model snapshot [] in
    (
      r.next,
      map device_removed (removed_ids model r.next)
          ++ (map device_added r.added ++ map device_changed r.changed),
    )

unfoldable pub apply_removed : HotplugEvent → Dict Text Device → Dict Text Device × List DeviceEvent
apply_removed event model = elim (lookup event.device.id model) [
  | none ↦ (model, [])
  | some prev ↦ (erase event.device.id model, device_removed prev.id ∷ [])
]

-- Added or changed, whatever the monitor calls it.
unfoldable pub apply_present : HotplugEvent → Dict Text Device → Dict Text Device × List DeviceEvent
unfolding emplace
apply_present event model = elim (lookup event.device.id model) [
  | none ↦ (emplace event.device.id event.device model, device_added event.device ∷ [])
  | some prev ↦
      if prev == event.device
      then (model, [])
      else (insert event.device.id event.device model, device_changed event.device ∷ [])
]

unfoldable pub apply_delta : HotplugEvent → Dict Text Device → Dict Text Device × List DeviceEvent
unfolding apply_removed apply_present
apply_delta event model = elim event.action [
  | removed ↦ apply_removed event model
  | added ↦ apply_present event model
  | changed ↦ apply_present event model
]

unfoldable pub devices : Dict Text Device → List Device
devices [] = []
devices ((k, d) ∷ model) = d ∷ devices model

unfoldable pub find_by_id : Text → Dict Text Device → Option Device
find_by_id id model = lookup id model
