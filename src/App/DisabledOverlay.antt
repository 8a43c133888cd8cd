-- ===== src/App/DisabledOverlay.antt =====
-- app/src/disabled_overlay.cpp: the daemon's disabled entries over the devices of sysfs.
use cross_device_manager.Base.{
  ◌≡◌, refl, Bool, ◌||◌, none, some, List, [], ◌∷◌, ◌++◌, Text, bytes, text_eq, ◌==◌, find_if, map,
  Bool-cases, inl, inr, if◌then◌else◌,
}
use cross_device_manager.Models.{Device, disabled, DisabledDeviceEntry}
use cross_device_manager.Keys.{matches_device}

-- The bytes of U+2014 between the two parts.
abbrev suspended_note : Text
suspended_note =
    bytes "disabled " ++ (226 ∷ 128 ∷ 148 ∷ bytes " enforcement suspended (guard refused re-apply)")

unfoldable pub covers : Device → DisabledDeviceEntry → Bool
unfolding matches_device
covers d entry = matches_device entry.key d || (entry.last_sysfs_path == d.sysfs_path)

-- The inner loop, up to its `break`.
unfoldable pub overlay : List DisabledDeviceEntry → Device → Device
unfolding covers
overlay [] d = d
overlay (entry ∷ entries) d =
    let rest = overlay entries d in
    if covers d entry
    then (if entry.guard_suspended
        then record d { status = disabled; error_note = some suspended_note }
        else record d { status = disabled })
    else rest

unfoldable pub apply_disabled_overlay : List DisabledDeviceEntry → List Device → List Device
unfolding overlay
apply_disabled_overlay entries devices = map (overlay entries) devices

-- An overlay changes the status and the note only, and only where an entry covers the device; of
-- several entries the first one decides on the note.
pub overlay-covers :
    (entries : List DisabledDeviceEntry) (d : Device)
    → overlay entries d ≡ elim (find_if (covers d) entries) [
      | none ↦ d
      | some entry ↦ record d {
        status = disabled;
        error_note = if entry.guard_suspended then some suspended_note else d.error_note;
      }
    ]
unfolding overlay find_if
overlay-covers [] d = refl
overlay-covers (entry ∷ entries) d = elim (Bool-cases (covers d entry)) [
  | inl e ↦ elim (Bool-cases entry.guard_suspended) [
    | inl g ↦ rw (e, g, overlay, find_if) refl
    | inr g ↦ rw (e, g, overlay, find_if) refl
  ]
  | inr e ↦ rw (e, overlay, find_if) (overlay-covers entries d)
]
