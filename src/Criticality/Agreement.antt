-- ===== src/Criticality/Agreement.antt =====
-- What a module that is shown as ordinary is.
use cross_device_manager.Base.{◌≡◌, false, Text, arith}
use cross_device_manager.Models.{CriticalityFacts}
use cross_device_manager.Guard.{evaluate_module_unload, ModuleUnloadFacts, check_devices}
use cross_device_manager.Criticality.{
  ordinary, classify_module, essential_modules, security_modules, listed,
}

-- A module shown as ordinary is on neither list, and the guard refuses its unload only for the
-- sake of a device that it drives.
pub classify_module_ordinary :
    (facts : CriticalityFacts) (name : Text) (m : ModuleUnloadFacts)
    → classify_module name m.ref_count m.holders ≡ ordinary
    → (listed essential_modules name ≡ false)
      × (listed security_modules name ≡ false)
      × (evaluate_module_unload facts m ≡ check_devices facts m.affected_device_paths)
unfolding classify_module evaluate_module_unload
classify_module_ordinary facts name m h = ground arith
