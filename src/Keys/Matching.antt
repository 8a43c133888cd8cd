-- ===== src/Keys/Matching.antt =====
-- Which devices a key finds again.
use cross_device_manager.Base.{
  ◌≡◌, ◌≢◌, ◌↔◌, refl, sym, Bool, true, false, Elem, ◌⊎◌, inl, inr, List, [], ◌∷◌, arith, is_empty,
  any_of, text_eq, Bool-cases, is_empty_nil,
}
use cross_device_manager.Models.{Device, DeviceKey}
use cross_device_manager.Keys.{
  key_bus_string, position_for, plain_device_key, is_clone, downgrade, make_device_key,
  matches_device,
}

-- A key made from a device, whatever else is present, finds that device again.
pub matches_device-make_device_key :
    (d : Device) (present : List Device) → matches_device (make_device_key d present) d ≡ true
unfolding matches_device make_device_key downgrade plain_device_key is_empty
matches_device-make_device_key d present = ground arith

-- A key finds a device exactly when the bus, vendor and product agree, and the serial number does
-- if the key has one, or else the position.
abbrev pub SameDevice : DeviceKey → Device → Type 0
SameDevice key d =
    (key_bus_string d.bus ≡ key.bus)
    × (d.vendor_id ≡ key.vendor_id)
    × (d.product_id ≡ key.product_id)
    × (((key.serial ≢ []) × (d.serial ≡ key.serial))
        ⊎ ((key.serial ≡ []) × (position_for d.bus d.sysfs_path ≡ key.position)))

-- A key finds a device exactly if bus, vendor and product agree, and the serial number does if the key
-- has one, or else the position.
pub matches_device_iff :
    (key : DeviceKey) (d : Device) → (matches_device key d ≡ true) ↔ SameDevice key d
unfolding matches_device is_empty
matches_device_iff key d = (
  λ h. elim (Bool-cases (is_empty key.serial)) [
    | inl e ↦ let none_kept = is_empty_nil key.serial e in ground arith
    | inr e ↦ ground arith
  ],
  λ h. ground arith,
)

any_of-Elem :
    (p : Device → Bool) (x : Device) (xs : List Device)
    → Elem x xs
    → p x ≡ true
    → any_of p xs ≡ true
unfolding any_of
any_of-Elem p x [] i h = elim i [ ]
any_of-Elem p x (y ∷ xs) (inl e) h = rw (sym e, h) refl
any_of-Elem p x (y ∷ xs) (inr i) h = ground (arith, any_of-Elem p x xs i h)

-- A key made from a device finds no other device that is present and sits at another position, also
-- where both show the same serial number.
pub make_device_key_separates :
    (d x : Device) (present : List Device)
    → Elem x present
    → position_for x.bus x.sysfs_path ≢ position_for d.bus d.sysfs_path
    → matches_device (make_device_key d present) x ≡ false
unfolding matches_device make_device_key downgrade plain_device_key is_empty position_for is_clone
make_device_key_separates d x present i apart =
    ground (arith, any_of-Elem (is_clone d (plain_device_key d)) x present i)
