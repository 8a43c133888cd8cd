-- ===== src/App/DeviceService/Events.antt =====
-- What an observer learns from the events.
use cross_device_manager.Base.{
  ◌≡◌, refl, inl, inr, Bool, true, false, not, ◌&&◌, Option, none, some, List, [], ◌∷◌, ◌++◌, Text,
  text_eq, ◌==◌, map, arith, All, Option-cases, if◌then◌else◌,
}
use cross_device_manager.Base.Dict.{
  Dict, lookup, insert, erase, contains, lookup-insert, lookup-erase,
}
use cross_device_manager.Models.{Device, device_eq}
use cross_device_manager.App.DeviceService.{
  DeviceEvent, device_added, device_removed, device_changed, emplace, reconcile, removed_ids,
  apply_enumeration,
}

-- An observer that keeps its own copy.
unfoldable pub observe : DeviceEvent → Dict Text Device → Dict Text Device
observe (device_added d) m = insert d.id d m
observe (device_removed id) m = erase id m
observe (device_changed d) m = insert d.id d m

unfoldable pub replay : List DeviceEvent → Dict Text Device → Dict Text Device
unfolding observe
replay [] m = m
replay (e ∷ es) m = replay es (observe e m)

-- The last device of an id.
unfoldable pub find_id : Text → List Device → Option Device
find_id k [] = none
find_id k (d ∷ ds) = elim (find_id k ds) [
  | some x ↦ some x
  | none ↦ if k == d.id then some d else none
]

-- No id twice.
abbrev pub Unique : List Device → Type 0
Unique [] = Unit
Unique (d ∷ ds) = (find_id d.id ds ≡ none) × Unique ds

-- A device stands under its id.
abbrev pub Keyed : Dict Text Device → Type 0
Keyed model = All (λ (e : Text × Device). e.0 ≡ e.1.id) model

abbrev or_else : Option Device → Option Device → Option Device
or_else none o = o
or_else (some d) o = some d

replay-append :
    (es fs : List DeviceEvent) (m : Dict Text Device)
    → replay (es ++ fs) m ≡ replay fs (replay es m)
unfolding replay
replay-append [] fs m = refl
replay-append (e ∷ es) fs m = replay-append es fs (observe e m)

lookup-replay_added :
    (k : Text) (ds : List Device) (m : Dict Text Device)
    → lookup k (replay (map device_added ds) m) ≡ or_else (find_id k ds) (lookup k m)
unfolding replay find_id
lookup-replay_added k [] m = refl
lookup-replay_added k (d ∷ ds) m =
    ground (arith, lookup-replay_added k ds (insert d.id d m), lookup-insert k d.id d m)

lookup-replay_changed :
    (k : Text) (ds : List Device) (m : Dict Text Device)
    → lookup k (replay (map device_changed ds) m) ≡ or_else (find_id k ds) (lookup k m)
unfolding replay find_id
lookup-replay_changed k [] m = refl
lookup-replay_changed k (d ∷ ds) m =
    ground (arith, lookup-replay_changed k ds (insert d.id d m), lookup-insert k d.id d m)

unfoldable pub listed : Text → List Text → Bool
listed k [] = false
listed k (id ∷ ids) = if k == id then true else listed k ids

lookup-replay_removed :
    (k : Text) (ids : List Text) (m : Dict Text Device)
    → lookup k (replay (map device_removed ids) m) ≡ (if listed k ids then none else lookup k m)
unfolding replay listed
lookup-replay_removed k [] m = refl
lookup-replay_removed k (id ∷ ids) m =
    ground (arith, lookup-replay_removed k ids (erase id m), lookup-erase k id m)

lookup-append :
    (k j : Text) (d : Device) (m : Dict Text Device)
    → lookup k (m ++ ((j, d) ∷ [])) ≡ or_else (lookup k m) (if k == j then some d else none)
unfolding lookup
lookup-append k j d [] = refl
lookup-append k j d ((i, e) ∷ m) = ground (arith, lookup-append k j d m)

emplace_free :
    (j : Text) (d : Device) (m : Dict Text Device)
    → lookup j m ≡ none
    → emplace j d m ≡ m ++ ((j, d) ∷ [])
unfolding emplace contains
emplace_free j d m h = ground arith

emplace_there :
    (j : Text) (d old : Device) (m : Dict Text Device) → lookup j m ≡ some old → emplace j d m ≡ m
unfolding emplace contains
emplace_there j d old m h = ground arith

pub lookup-emplace :
    (k j : Text) (d : Device) (m : Dict Text Device)
    → lookup k (emplace j d m) ≡ or_else (lookup k m) (if k == j then some d else none)
lookup-emplace k j d m = elim (Option-cases (lookup j m)) [
  | inl free ↦ rw (emplace_free j d m free) (lookup-append k j d m)
  | inr (old, e) ↦ rw (emplace_there j d old m e) (ground arith)
]

-- The three results of the loop, for one id.
reconcile-next :
    (k : Text) (model : Dict Text Device) (ds : List Device) (next : Dict Text Device)
    → Unique ds
    → lookup k (reconcile model ds next).next ≡ or_else (lookup k next) (find_id k ds)
unfolding reconcile find_id
reconcile-next k model [] next u = ground arith
reconcile-next k model (d ∷ ds) next u =
    ground
      (arith, reconcile-next k model ds (emplace d.id d next) u.1, lookup-emplace k d.id d next)

reconcile_new :
    (k : Text) (model : Dict Text Device) (ds : List Device) (next : Dict Text Device)
    → lookup k model ≡ none
    → (find_id k (reconcile model ds next).added ≡ find_id k ds)
      × (find_id k (reconcile model ds next).changed ≡ none)
unfolding reconcile find_id
reconcile_new k model [] next h = (refl, refl)
reconcile_new k model (d ∷ ds) next h =
    ground (arith, reconcile_new k model ds (emplace d.id d next) h)

abbrev unless_same : Device → Option Device → Option Device
unless_same prev none = none
unless_same prev (some d) = if prev == d then none else some d

reconcile_old :
    (k : Text) (model : Dict Text Device) (ds : List Device) (next : Dict Text Device)
    (prev : Device)
    → Unique ds
    → lookup k model ≡ some prev
    → (find_id k (reconcile model ds next).added ≡ none)
      × (find_id k (reconcile model ds next).changed ≡ unless_same prev (find_id k ds))
unfolding reconcile find_id
reconcile_old k model [] next prev u h = (refl, refl)
reconcile_old k model (d ∷ ds) next prev u h =
    ground (arith, reconcile_old k model ds (emplace d.id d next) prev u.1 h)

listed-removed_ids :
    (k : Text) (model next : Dict Text Device)
    → Keyed model
    → listed k (removed_ids model next) ≡ (contains k model && not (contains k next))
unfolding listed removed_ids contains lookup
listed-removed_ids k [] next h = refl
listed-removed_ids k ((j, d) ∷ model) next h = ground (arith, listed-removed_ids k model next h.1)

settled :
    (k : Text) (model : Dict Text Device) (snapshot : List Device)
    → Unique snapshot
    → let r = reconcile model snapshot [] in
      or_else (find_id k r.changed) (
        or_else
          (find_id k r.added)
          (if contains k model && not (contains k r.next) then none else lookup k model))
      ≡ find_id k snapshot
unfolding contains
settled k model snapshot u = elim (Option-cases (lookup k model)) [
  | inl new ↦ ground (arith, reconcile_new k model snapshot [] new)
  | inr (prev, e) ↦
      ground
        (arith, reconcile_old k model snapshot [] prev u e, reconcile-next k model snapshot [] u)
]

-- A model that is up to date stands for the snapshot, and an observer that agreed with the old model
-- and plays the events agrees with the new one. No id may stand twice in a snapshot.
pub apply_enumeration-replay :
    (k : Text) (snapshot : List Device) (model : Dict Text Device)
    → Unique snapshot
    → Keyed model
    → (lookup k (apply_enumeration snapshot model).0 ≡ find_id k snapshot)
      × (lookup k (replay (apply_enumeration snapshot model).1 model)
          ≡ lookup k (apply_enumeration snapshot model).0)
unfolding apply_enumeration
apply_enumeration-replay k snapshot model u keyed =
    let r = reconcile model snapshot [] in
    let gone = removed_ids model r.next in
    let next = reconcile-next k model snapshot [] u in
    let agree : or_else (find_id k r.changed) (
          or_else (find_id k r.added)
            (if contains k model && not (contains k r.next) then none else lookup k model))
        ≡ find_id k snapshot =
      settled k model snapshot u in
    let after_removed = replay (map device_removed gone) model in
    let after_added = replay (map device_added r.added) after_removed in
    (
      next,
      rw
          (
            replay-append (map device_removed gone)
                (map device_added r.added ++ map device_changed r.changed) model,
            replay-append (map device_added r.added) (map device_changed r.changed) after_removed,
            lookup-replay_changed k r.changed after_added,
            lookup-replay_added k r.added after_removed,
            lookup-replay_removed k gone model,
            listed-removed_ids k model r.next keyed,
            next,
          )
          agree,
    )
