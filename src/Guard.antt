-- ===== src/Guard.antt =====
-- core/src/critical_device_guard.cpp: may a device be disabled, or a module be unloaded?
pub mod Paths
pub mod Policy
use cross_device_manager.Base.{
  Bool, true, false, ◌&&◌, ◌||◌, not, Option, none, some, List, [], ◌∷◌, ◌++◌, ◌≤◌, Text, bytes,
  is_empty, starts_with, any_of, all_of, length, ltb, leb, nat_eq, ◌==◌, if◌then◌else◌, ℕ,
}
use cross_device_manager.Base.Int.{ℤ, is_positive, to_string}
use cross_device_manager.Models.{CriticalityFacts}

pub record GuardVerdict : Type 0 where
  pub allowed : Bool
  pub reason : Text

pub record ModuleUnloadFacts : Type 0 where
  pub affected_device_paths : List Text
  pub holders : List Text
  pub ref_count : ℤ

-- `path[i] == c` where `i` is in range.
unfoldable pub byte_at_is : Text → Text → ℕ → Bool
byte_at_is [] skipped c = false
byte_at_is (x ∷ s) [] c = x == c
byte_at_is (x ∷ s) (_ ∷ skipped) c = byte_at_is s skipped c

-- Is the path the prefix, or inside it, at a `/`?
unfoldable pub is_under : Text → Text → Bool
is_under path prefix =
    if is_empty prefix || ltb (length path) (length prefix)
    then false
    else if not (starts_with path prefix)
    then false
    else (length path == length prefix) || byte_at_is path prefix b'/'

unfoldable pub any_under : List Text → Text → Bool
any_under paths target = any_of (λ p. is_under p target) paths

unfoldable pub would_remove_all : List Text → Text → Bool
would_remove_all [] target = false
would_remove_all paths target = all_of (λ p. is_under p target) paths

abbrev pub allow : GuardVerdict
allow = record { allowed = true; reason = bytes "" }

abbrev pub refuse : Text → GuardVerdict
refuse why = record { allowed = false; reason = why }

unfoldable pub evaluate_disable : CriticalityFacts → Text → GuardVerdict
evaluate_disable facts target =
    if any_under facts.root_backing_paths target
    then refuse (bytes "backs the root filesystem")
    else if any_under facts.boot_backing_paths target
    then refuse (bytes "backs the boot filesystem")
    else if would_remove_all facts.keyboard_paths target
    then refuse (bytes "would disable the only keyboard")
    else if would_remove_all facts.pointer_paths target
    then refuse (bytes "would disable the only pointer")
    else allow

-- The names of the holders, with ", " between them.
unfoldable pub join_names : Text → List Text → Text
join_names names [] = names
join_names names (h ∷ hs) =
    join_names ((if is_empty names then names else names ++ bytes ", ") ++ h) hs

-- The loop over the devices that the module drives.
unfoldable pub check_devices : CriticalityFacts → List Text → GuardVerdict
check_devices facts [] = allow
check_devices facts (path ∷ paths) =
    let verdict = evaluate_disable facts path in
    if not verdict.allowed
    then refuse (bytes "module backs a critical device: " ++ verdict.reason)
    else check_devices facts paths

unfoldable pub evaluate_module_unload : CriticalityFacts → ModuleUnloadFacts → GuardVerdict
evaluate_module_unload facts m = elim m.holders [
  | h ∷ hs ↦ refuse (bytes "in use by " ++ join_names [] (h ∷ hs))
  | [] ↦
      if is_positive m.ref_count
      then refuse (bytes "in use (refcount " ++ (to_string m.ref_count ++ bytes ")"))
      else check_devices facts m.affected_device_paths
]
