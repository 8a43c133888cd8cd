-- ===== src/App/BackendStatus.antt =====
-- app/src/backend_status_vm.cpp: which backends do not serve, and when that is logged. The slots of an
-- array are a function of the backend; the mutex makes each method one step.
pub mod Transitions
use cross_device_manager.Base.{
  Bool, true, false, not, ◌||◌, Option, none, some, List, [], ◌∷◌, ◌++◌, Text, bytes, option_eq,
  ◌==◌, is_empty, concat, if◌then◌else◌,
}
use cross_device_manager.Base.Result.{Error}
use cross_device_manager.BackendWording.{
  BackendId, devmgrd, fwupd, dkms, backend_eq, UnavailabilityKind, absent, unreachable,
  not_permitted, unsupported, kind_eq, kind_for, backend_name, unavailability_text,
}

-- app/include/devmgr/app/status_line_vm.hpp
pub data StatusSeverity : Type 0 where
  calm info success warning danger : StatusSeverity

pub record BackendNote : Type 0 where
  pub backend : BackendId
  pub kind : UnavailabilityKind
  pub text : Text
  pub diagnostic : Text
  pub role : StatusSeverity

pub record Entry : Type 0 where
  pub kind : UnavailabilityKind
  pub diagnostic : Text

pub record BackendStatus : Type 0 where
  pub entries : BackendId → Option Entry
  pub logged : BackendId → Option UnavailabilityKind

unfoldable pub log_name : BackendId → Text
log_name devmgrd = bytes "devmgrd"
log_name fwupd = bytes "fwupd"
log_name dkms = bytes "dkms"

unfoldable pub kind_label : UnavailabilityKind → Text
kind_label absent = bytes "absent"
kind_label unreachable = bytes "unreachable"
kind_label not_permitted = bytes "not permitted"
kind_label unsupported = bytes "unsupported"

unfoldable pub note_role : UnavailabilityKind → Bool → StatusSeverity
note_role kind true = warning
note_role unreachable false = warning
note_role not_permitted false = warning
note_role absent false = info
note_role unsupported false = info

unfoldable pub make_note : BackendId → UnavailabilityKind → Text → Bool → BackendNote
unfolding unavailability_text note_role
make_note backend kind diagnostic blocks = record {
  backend = backend;
  kind = kind;
  text = unavailability_text backend kind;
  diagnostic = diagnostic;
  role = note_role kind blocks;
}

unfoldable pub diagnostic_lines : List BackendNote → List Text
unfolding backend_name is_empty
diagnostic_lines [] = []
diagnostic_lines (note ∷ notes) =
    concat (
      backend_name note.backend
      ∷ bytes ": "
      ∷ (if is_empty note.diagnostic then bytes "no detail reported" else note.diagnostic)
      ∷ [])
    ∷ diagnostic_lines notes

-- The array with another value in the slot.
unfoldable pub set_slot : {A : Type 0} → BackendId → A → (BackendId → A) → BackendId → A
set_slot backend a slots b = if b == backend then a else slots b

-- The line that goes to the log, if any, and the status.
unfoldable pub observe : BackendId → Option Error → BackendStatus → Option Text × BackendStatus
unfolding set_slot kind_for log_name kind_label
observe backend none s = (
  none,
  record { entries = set_slot backend none s.entries; logged = set_slot backend none s.logged },
)
observe backend (some error) s =
    let kind = kind_for error.code in
    let entries =
      set_slot backend (some (record { kind = kind; diagnostic = error.message })) s.entries in
    if s.logged backend == some kind then (none, record s { entries = entries }) else (
      some (
          concat (
            log_name backend
            ∷ bytes " unavailable ("
            ∷ kind_label kind
            ∷ bytes "): "
            ∷ error.message
            ∷ [])),
      record { entries = entries; logged = set_slot backend (some kind) s.logged },
    )

unfoldable pub note_for : BackendId → Bool → BackendStatus → Option BackendNote
unfolding make_note
note_for backend blocks s = elim (s.entries backend) [
  | none ↦ none
  | some e ↦ some (make_note backend e.kind e.diagnostic blocks)
]

abbrev note_cons : Option BackendNote → List BackendNote → List BackendNote
note_cons none ns = ns
note_cons (some n) ns = n ∷ ns

unfoldable pub notes : BackendStatus → List BackendNote
unfolding note_for
notes s =
    note_cons (note_for devmgrd false s)
      (note_cons (note_for fwupd false s) (note_cons (note_for dkms false s) []))

abbrev pub start : BackendStatus
start = record { entries = λ b. none; logged = λ b. none }
