-- ===== src/DevicePresentation/Names.antt =====
-- Every device has a name, and a short one.
use cross_device_manager.Base.{
  ◌≡◌, refl, true, false, not, [], ◌∷◌, ◌++◌, Text, bytes, text_eq, nat_eq, is_empty, arith,
  if_cases, if◌then◌else◌,
}
use cross_device_manager.Base.Dict.{lookup}
use cross_device_manager.Models.{Device, BusType}
use cross_device_manager.DevicePresentation.{
  property, trimmed, short_vendor, clean_self_reported_model, display_bus, name_is_positional,
  with_vendor, category_of, display_device_name, display_device_identity,
}

display_bus_device : (b : BusType) → is_empty (display_bus b ++ bytes " device") ≡ false
unfolding display_bus is_empty
display_bus_device b = ground arith

with_vendor-is_empty :
    (vendor rest : Text) → is_empty rest ≡ false → is_empty (with_vendor vendor rest) ≡ false
unfolding with_vendor is_empty
with_vendor-is_empty [] rest h = ground arith
with_vendor-is_empty (c ∷ vendor) rest h = ground arith

append-is_empty : (v : Text) → is_empty v ≡ false → is_empty (v ++ bytes " device") ≡ false
unfolding is_empty
append-is_empty [] h = refl
append-is_empty (c ∷ v) h = refl

not_positional-is_empty : (d : Device) → name_is_positional d ≡ false → is_empty d.name ≡ false
unfolding name_is_positional
not_positional-is_empty d h = ground arith

abbrev Labels : Text → Type 0
Labels label = is_empty label ≡ false

unnamed : (name : Text) → Labels (if is_empty name then bytes "(unknown device)" else name)
unfolding is_empty
unnamed [] = refl
unnamed (c ∷ name) = refl

-- A text that is tried before the next choice.
tried :
    (t label next : Text)
    → (is_empty t ≡ false → Labels label)
    → Labels next
    → Labels (if not (is_empty t) then label else next)
tried t label next h k =
    if_cases Labels (not (is_empty t)) label next (λ e. h (ground arith)) (λ _. k)

-- Every device has a label that is not empty.
pub display_device_name-is_empty : (d : Device) → is_empty (display_device_name d) ≡ false
unfolding display_device_name
display_device_name-is_empty d =
    let catalogued = trimmed (property d (bytes "ID_MODEL_FROM_DATABASE")) in
    let self = clean_self_reported_model (property d (bytes "ID_MODEL")) d.product_id in
    let vendor = short_vendor (property d (bytes "ID_VENDOR_FROM_DATABASE")) in
    let category = category_of d in
    if_cases Labels (not (name_is_positional d)) d.name _
      (λ t. not_positional-is_empty d (ground arith))
      (λ _.
        tried catalogued catalogued _ (λ e. e)
          (tried self self _ (λ e. e)
            (tried category (with_vendor vendor category) _ (with_vendor-is_empty vendor category) (
              tried vendor (vendor ++ bytes " device") _ (append-is_empty vendor) (
                tried (display_device_identity d) (display_bus d.bus ++ bytes " device") _
                  (λ _. display_bus_device d.bus) (unnamed d.name))))))

property_none : (d : Device) (key : Text) → d.properties ≡ [] → property d key ≡ []
unfolding property lookup
property_none d key e = ground (arith, e)

no_vendor : short_vendor [] ≡ []
unfolding short_vendor
no_vendor = refl

no_model : (id : Text) → clean_self_reported_model [] id ≡ []
unfolding clean_self_reported_model
no_model id = refl

no_text : trimmed [] ≡ []
unfolding trimmed
no_text = refl

no_category : (d : Device) → d.properties ≡ [] → category_of d ≡ []
unfolding category_of is_empty
no_category d e =
    let a = property_none d (bytes "ID_PCI_SUBCLASS_FROM_DATABASE") e in
    let b = property_none d (bytes "ID_PCI_CLASS_FROM_DATABASE") e in rw (a, b, no_text) refl

-- A device that no database knows, and whose name is a mere position, is called by its bus as long as
-- there is an id or a path.
pub display_device_name_positional :
    (d : Device)
    → name_is_positional d ≡ true
    → d.properties ≡ []
    → is_empty (display_device_identity d) ≡ false
    → display_device_name d ≡ display_bus d.bus ++ bytes " device"
unfolding display_device_name is_empty
display_device_name_positional d p e i =
    let a = property_none d (bytes "ID_MODEL_FROM_DATABASE") e in
    let b = property_none d (bytes "ID_MODEL") e in
    let c = property_none d (bytes "ID_VENDOR_FROM_DATABASE") e in
    rw (p, a, b, c, no_category d e, no_vendor, no_model d.product_id, no_text, i) refl
