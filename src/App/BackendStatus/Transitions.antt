-- ===== src/App/BackendStatus/Transitions.antt =====
-- Polling a backend again and again logs its outages once.
use cross_device_manager.Base.{
  ◌≡◌, refl, ap, ◌∙◌, inl, inr, Bool, true, false, not, ◌&&◌, Option, none, some, option_eq, ◌==◌,
  eq_true, arith, Bool-cases,
}
use cross_device_manager.Base.Result.{Error}
use cross_device_manager.BackendWording.{
  BackendId, backend_eq, UnavailabilityKind, kind_eq, kind_for,
}
use cross_device_manager.App.BackendStatus.{BackendStatus, Entry, set_slot, observe, start}

abbrev pub kind_of : Option Entry → Option UnavailabilityKind
kind_of none = none
kind_of (some e) = some e.kind

abbrev pub error_kind : Option Error → Option UnavailabilityKind
error_kind none = none
error_kind (some e) = some (kind_for e.code)

-- The states after some observations.
pub data Reach : BackendStatus → Type 0 where
  starts : Reach start
  observes :
      {s : BackendStatus} (backend : BackendId) (error : Option Error)
      → Reach s
      → Reach (observe backend error s).1

-- What is logged of a backend is what is noted of it.
IsLogged : BackendStatus → Type 0
IsLogged s = (b : BackendId) → s.logged b ≡ kind_of (s.entries b)

slot_same :
    (backend b : BackendId) (e : Entry) (logged : BackendId → Option UnavailabilityKind)
    (entries : BackendId → Option Entry)
    → logged backend ≡ some e.kind
    → ((c : BackendId) → logged c ≡ kind_of (entries c))
    → logged b ≡ kind_of (set_slot backend (some e) entries b)
unfolding set_slot
slot_same backend b e logged entries same h = elim (Bool-cases (b == backend)) [
  | inl here ↦ rw (here, set_slot) (ap logged (eq_true b backend here) ∙ same)
  | inr other ↦ rw (other, set_slot) (h b)
]

slots_set :
    (backend b : BackendId) (e : Entry) (logged : BackendId → Option UnavailabilityKind)
    (entries : BackendId → Option Entry)
    → ((c : BackendId) → logged c ≡ kind_of (entries c))
    → set_slot backend (some e.kind) logged b ≡ kind_of (set_slot backend (some e) entries b)
unfolding set_slot
slots_set backend b e logged entries h = elim (Bool-cases (b == backend)) [
  | inl here ↦ rw (here, set_slot) refl
  | inr other ↦ rw (other, set_slot) (h b)
]

observe-IsLogged :
    (backend : BackendId) (error : Option Error) (s : BackendStatus)
    → IsLogged s
    → IsLogged (observe backend error s).1
unfolding observe set_slot IsLogged
observe-IsLogged backend none s h b = ground (arith, h b)
observe-IsLogged backend (some error) s h b =
    elim (Bool-cases (s.logged backend == some (kind_for error.code))) [
      | inl same ↦
          let logged : s.logged backend ≡ some (kind_for error.code) =
            eq_true (s.logged backend) (some (kind_for error.code)) same in
          rw (same, observe) (slot_same backend b _ s.logged s.entries logged h)
      | inr new ↦ rw (new, observe) (slots_set backend b _ s.logged s.entries h)
    ]

Reach-IsLogged : {s : BackendStatus} → Reach s → IsLogged s
unfolding IsLogged
Reach-IsLogged starts b = refl
Reach-IsLogged (observes backend error r) b = observe-IsLogged backend error _ (Reach-IsLogged r) b

abbrev pub is_some : {A : Type 0} → Option A → Bool
is_some none = false
is_some (some a) = true

set_slot_self :
    {A : Type 0} (backend : BackendId) (a : A) (slots : BackendId → A)
    → set_slot backend a slots backend ≡ a
unfolding set_slot
set_slot_self backend a slots = ground arith

set_slot_other :
    {A : Type 0} (backend other : BackendId) (a : A) (slots : BackendId → A)
    → (other == backend) ≡ false
    → set_slot backend a slots other ≡ slots other
unfolding set_slot
set_slot_other backend other a slots h = ground arith

observe_kind :
    (backend : BackendId) (error : Option Error) (s : BackendStatus)
    → kind_of ((observe backend error s).1.entries backend) ≡ error_kind error
unfolding observe
observe_kind backend none s = ap kind_of (set_slot_self backend none s.entries)
observe_kind backend (some error) s =
    elim (Bool-cases (s.logged backend == some (kind_for error.code))) [
      | inl same ↦ rw (same, observe) (ap kind_of (set_slot_self backend _ s.entries))
      | inr new ↦ rw (new, observe) (ap kind_of (set_slot_self backend _ s.entries))
    ]

observe_other :
    (backend other : BackendId) (error : Option Error) (s : BackendStatus)
    → (other == backend) ≡ false
    → (observe backend error s).1.entries other ≡ s.entries other
unfolding observe
observe_other backend other none s d = set_slot_other backend other none s.entries d
observe_other backend other (some error) s d =
    elim (Bool-cases (s.logged backend == some (kind_for error.code))) [
      | inl same ↦ rw (same, observe) (set_slot_other backend other _ s.entries d)
      | inr new ↦ rw (new, observe) (set_slot_other backend other _ s.entries d)
    ]

observe_logs :
    (backend : BackendId) (error : Option Error) (s : BackendStatus)
    → IsLogged s
    → is_some (observe backend error s).0
      ≡ (is_some error && not (kind_of (s.entries backend) == error_kind error))
unfolding observe IsLogged
observe_logs backend none s h = refl
observe_logs backend (some error) s h = ground (arith, h backend)

-- After any observations, the next one notes the kind of the error, or none, for its backend, leaves
-- the notes of the others, and is logged exactly if it is an error of another kind than is noted.
pub Reach-observe :
    {s : BackendStatus} (backend other : BackendId) (error : Option Error)
    → Reach s
    → (other == backend) ≡ false
    → (kind_of ((observe backend error s).1.entries backend) ≡ error_kind error)
      × ((observe backend error s).1.entries other ≡ s.entries other)
      × (is_some (observe backend error s).0
          ≡ (is_some error && not (kind_of (s.entries backend) == error_kind error)))
Reach-observe {s} backend other error r d = (
  observe_kind backend error s,
  observe_other backend other error s d,
  observe_logs backend error s (Reach-IsLogged r),
)
