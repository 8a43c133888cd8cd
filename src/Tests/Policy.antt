-- ===== src/Tests/Policy.antt =====
-- Examples for the guard, the tiers, the keys and the validators.
use cross_device_manager.Base.{
  ◌≡◌, ◌≢◌, refl, ◌↔◌, inl, inr, true, false, [], ◌∷◌, bytes, ◌≤◌, length, all_bytes, after_last,
  nat_eq, text_eq,
}
use cross_device_manager.Base.Int.{pos}
use cross_device_manager.Base.Result.{ok, Error, invalid_args}
use cross_device_manager.Models.{Device}
use cross_device_manager.Guard.{evaluate_disable, ModuleUnloadFacts}
use cross_device_manager.Guard.Policy.{MayDisable, evaluate_disable_iff}
use cross_device_manager.Keys.{last_segment, position_for, make_device_key, matches_device}
use cross_device_manager.Keys.Matching.{make_device_key_separates}
use cross_device_manager.Validation.{name, is_name_byte}
use cross_device_manager.Validation.Charset.{name_iff}
use cross_device_manager.Tests.Toy.{toy_facts, stick, stick_path}

evaluate_disable_iff_example :
    ((evaluate_disable toy_facts stick_path).allowed ≡ true) ↔ MayDisable toy_facts stick_path
evaluate_disable_iff_example = evaluate_disable_iff toy_facts stick_path

-- A driver that the stick uses, and that nothing holds.
abbrev idle_driver : ModuleUnloadFacts
idle_driver = record { affected_device_paths = stick_path ∷ []; holders = []; ref_count = pos 0 }

-- A second stick that shows the same serial number.
abbrev clone : Device
clone = record (stick []) { sysfs_path = bytes "/sys/devices/usb1/1-3" }

make_device_key_separates_example :
    matches_device (make_device_key (stick []) (stick [] ∷ clone ∷ [])) clone ≡ false
unfolding position_for last_segment after_last nat_eq
make_device_key_separates_example =
    make_device_key_separates (stick []) clone (stick [] ∷ clone ∷ []) (inr (inl refl)) (λ e. cc)

name_iff_example : (name (bytes "snd_hda-intel") (bytes "module") ≡ ok tt) ↔ (
    (bytes "snd_hda-intel" ≢ [])
    × (length (bytes "snd_hda-intel") ≤ 63)
    × (all_bytes is_name_byte (bytes "snd_hda-intel") ≡ true))
name_iff_example = name_iff (bytes "snd_hda-intel") (bytes "module")

abbrev bad_name : Error
bad_name = record { code = invalid_args; message = bytes "invalid module name" }
