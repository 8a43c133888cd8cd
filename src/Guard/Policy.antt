-- ===== src/Guard/Policy.antt =====
-- What the two verdicts allow, exactly, and that a refusal extends to all that lies above.
use cross_device_manager.Base.{
  ◌≡◌, refl, ◌↔◌, ◌⊎◌, inl, inr, true, false, List, [], ◌∷◌, Text, arith, All, all_of, any_of_none,
  none_any_of, any_of_mono, all_of_mono,
}
use cross_device_manager.Base.Int.{is_positive}
use cross_device_manager.Models.{CriticalityFacts}
use cross_device_manager.Guard.{
  is_under, any_under, would_remove_all, evaluate_disable, check_devices, evaluate_module_unload,
  ModuleUnloadFacts,
}
use cross_device_manager.Guard.Paths.{is_under_trans}

-- Some path of a kind survives when all under the target goes, or there was none.
abbrev pub Survives : List Text → Text → Type 0
Survives paths target = (paths ≡ []) ⊎ (all_of (λ p. is_under p target) paths ≡ false)

would_remove_all_iff :
    (paths : List Text) (t : Text) → (would_remove_all paths t ≡ false) ↔ Survives paths t
unfolding would_remove_all
would_remove_all_iff [] t = (λ h. inl refl, λ h. refl)
would_remove_all_iff (p ∷ ps) t = (λ h. inr h, λ h. ground arith)

-- All that the guard asks before a device goes.
pub record MayDisable (facts : CriticalityFacts) (target : Text) : Type 0 where
  pub root : All (λ p. is_under p target ≡ false) facts.root_backing_paths
  pub boot : All (λ p. is_under p target ≡ false) facts.boot_backing_paths
  pub keyboard : Survives facts.keyboard_paths target
  pub pointer : Survives facts.pointer_paths target

-- The verdict allows exactly what takes no path of the root or boot file system with it, and
-- leaves a keyboard and a pointer where there was one.
pub evaluate_disable_iff :
    (facts : CriticalityFacts) (target : Text)
    → ((evaluate_disable facts target).allowed ≡ true) ↔ MayDisable facts target
unfolding evaluate_disable any_under
evaluate_disable_iff facts t = (
  λ h. record {
    root = any_of_none _ facts.root_backing_paths (ground arith);
    boot = any_of_none _ facts.boot_backing_paths (ground arith);
    keyboard = (would_remove_all_iff facts.keyboard_paths t).0 (ground arith);
    pointer = (would_remove_all_iff facts.pointer_paths t).0 (ground arith);
  },
  λ m. rw (
    none_any_of _ facts.root_backing_paths m.root,
    none_any_of _ facts.boot_backing_paths m.boot,
    (would_remove_all_iff facts.keyboard_paths t).1 m.keyboard,
    (would_remove_all_iff facts.pointer_paths t).1 m.pointer,
  ),
)

any_under_mono :
    (ps : List Text) (t u : Text)
    → is_under t u ≡ true
    → any_under ps t ≡ true
    → any_under ps u ≡ true
unfolding any_under
any_under_mono ps t u h = any_of_mono _ _ ps (λ p e. is_under_trans p t u e h)

would_remove_all_mono :
    (ps : List Text) (t u : Text)
    → is_under t u ≡ true
    → would_remove_all ps t ≡ true
    → would_remove_all ps u ≡ true
unfolding would_remove_all
would_remove_all_mono [] t u h e = e
would_remove_all_mono (p ∷ ps) t u h e =
    all_of_mono _ _ (p ∷ ps) (λ q k. is_under_trans q t u k h) e

-- Where the guard refuses a device, it refuses every device above it.
pub evaluate_disable_above :
    (facts : CriticalityFacts) (t u : Text)
    → is_under t u ≡ true
    → (evaluate_disable facts t).allowed ≡ false
    → (evaluate_disable facts u).allowed ≡ false
unfolding evaluate_disable
evaluate_disable_above facts t u h e = ground (
  arith,
  any_under_mono facts.root_backing_paths t u h,
  any_under_mono facts.boot_backing_paths t u h,
  would_remove_all_mono facts.keyboard_paths t u h,
  would_remove_all_mono facts.pointer_paths t u h,
)

check_devices_iff :
    (facts : CriticalityFacts) (ps : List Text)
    → ((check_devices facts ps).allowed ≡ true)
      ↔ All (λ p. (evaluate_disable facts p).allowed ≡ true) ps
unfolding check_devices
check_devices_iff facts [] = (λ h. tt, λ h. refl)
check_devices_iff facts (p ∷ ps) = (
  λ h. (ground arith, (check_devices_iff facts ps).0 (ground arith)),
  λ h. ground (arith, (check_devices_iff facts ps).1 h.1),
)

-- A module may go exactly when nothing holds it, its count is not positive, and each of its
-- devices may be disabled.
pub evaluate_module_unload_iff :
    (facts : CriticalityFacts) (m : ModuleUnloadFacts)
    → ((evaluate_module_unload facts m).allowed ≡ true) ↔ (
        (m.holders ≡ [])
        × (is_positive m.ref_count ≡ false)
        × All (λ p. (evaluate_disable facts p).allowed ≡ true) m.affected_device_paths)
unfolding evaluate_module_unload
evaluate_module_unload_iff facts m = (
  λ h. (
    ground arith,
    ground arith,
    (check_devices_iff facts m.affected_device_paths).0 (ground arith),
  ),
  λ (none_held, idle, free).
      ground (arith, (check_devices_iff facts m.affected_device_paths).1 free),
)
