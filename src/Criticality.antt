-- ===== src/Criticality.antt =====
-- core/src/criticality.cpp: the tier that a row of the lists shows.
pub mod Agreement
use cross_device_manager.Base.{
  Bool, true, false, ◌||◌, not, List, [], ◌∷◌, String, Text, bytes, text_eq, ◌==◌, is_empty, map,
  any_of, if◌then◌else◌,
}
use cross_device_manager.Base.Int.{ℤ, is_positive}
use cross_device_manager.Models.{CriticalityFacts}
use cross_device_manager.Guard.{evaluate_disable}

pub data Criticality : Type 0 where
  ordinary important essential : Criticality

abbrev pub essential_modules : List String
essential_modules =
    "ahci" ∷ "btrfs" ∷ "dm-crypt" ∷ "dm-mod" ∷ "ext4" ∷ "f2fs" ∷ "libata" ∷ "md-mod" ∷ "nvme"
    ∷ "scsi_mod" ∷ "sd_mod" ∷ "xfs" ∷ "atkbd" ∷ "evdev" ∷ "hid" ∷ "i8042" ∷ "usbhid" ∷ "amdgpu"
    ∷ "drm" ∷ "drm_kms_helper" ∷ "i915" ∷ "nouveau" ∷ "ehci_hcd" ∷ "ohci_hcd" ∷ "pci" ∷ "pcieport"
    ∷ "usbcore" ∷ "xhci_hcd" ∷ []

abbrev pub security_modules : List String
security_modules = "apparmor" ∷ "ima" ∷ "integrity" ∷ "lockdown" ∷ "selinux" ∷ []

unfoldable pub listed : List String → Text → Bool
unfolding any_of
listed names name = any_of (λ n. bytes n == name) names

unfoldable pub display_criticality : Criticality → Text
display_criticality essential = bytes "essential"
display_criticality important = bytes "important"
display_criticality ordinary = bytes ""

unfoldable pub classify_device : CriticalityFacts → Text → Criticality
classify_device facts path = if (evaluate_disable facts path).allowed then ordinary else essential

abbrev has_holder : List Text → Bool
has_holder [] = false
has_holder (h ∷ hs) = true

unfoldable pub classify_module : Text → ℤ → List Text → Criticality
classify_module name ref_count holders =
    if listed essential_modules name
    then essential
    else if has_holder holders || is_positive ref_count
    then important
    else if listed security_modules name
    then important
    else ordinary
