-- ===== src/Base/OrderedMap.antt =====
-- `std::map` and `std::set` over texts: lists in the order of the keys, each key once.
use mathlib.Core.Path.{◌≡◌, refl}
use mathlib.Core.Option.{some}
use mathlib.Core.List.{List, [], ◌∷◌}
use native.Mathlib.Omega.{arith}
use cross_device_manager.Base.Tests.{◌==◌, if◌then◌else◌}
use cross_device_manager.Base.Strings.{Text, text_eq, text_lt}
use cross_device_manager.Base.Dict.{lookup}

-- `map[k] = v`
unfoldable pub assign : Text → Text → List (Text × Text) → List (Text × Text)
unfolding text_lt
assign k v [] = (k, v) ∷ []
assign k v ((j, w) ∷ m) =
    let rest = assign k v m in
    if text_lt k j then (k, v) ∷ (j, w) ∷ m else if k == j then (k, v) ∷ m else (j, w) ∷ rest

-- `set.insert(k)`
unfoldable pub insert_key : Text → List Text → List Text
unfolding text_lt
insert_key k [] = k ∷ []
insert_key k (j ∷ ks) =
    let rest = insert_key k ks in
    if text_lt k j then k ∷ j ∷ ks else if k == j then j ∷ ks else j ∷ rest

pub lookup-assign :
    (j k v : Text) (m : List (Text × Text))
    → lookup j (assign k v m) ≡ (if j == k then some v else lookup j m)
unfolding assign lookup
lookup-assign j k v [] = refl
lookup-assign j k v ((i, w) ∷ m) = ground (arith, lookup-assign j k v m)
