-- ===== src/App/StatusLine.antt =====
-- app/src/status_line_vm.cpp: a message that clears itself after a while. A callback of the timer is the
-- generation that it was scheduled under; the posts that only wake the front end up are left out.
pub mod Cleared
use cross_device_manager.Base.{
  ℕ, ◌+◌, ◌-◌, ◌%◌, ◌^◌, Bool, true, false, not, ◌&&◌, List, [], ◌∷◌, ◌++◌, Text, bytes, nat_eq,
  ◌==◌, is_empty, to_lower, concat, if◌then◌else◌,
}
use cross_device_manager.Models.{Device}
use cross_device_manager.DevicePresentation.{display_bus}
use cross_device_manager.Runtime.DelayedScheduler.{Scheduler, schedule, cancel}
use cross_device_manager.App.BackendStatus.{StatusSeverity, calm, info, success, danger}

-- `outstandingClears_` never falls below 0; that the subtraction here stops there plays no part.
pub record StatusLine : Type 0 where
  pub timer : Scheduler ℕ
  pub armed : Bool
  pub text : Text
  pub severity : StatusSeverity
  pub clear_handle : ℕ
  pub generation : ℕ
  pub outstanding : ℕ

unfoldable pub describe : Device → Text → Text
unfolding to_lower display_bus
describe d verb =
    concat (to_lower (display_bus d.bus) ∷ bytes " device " ∷ verb ∷ bytes ": " ∷ d.name ∷ [])

-- `if (clearHandle_ != 0 && timer_.cancel(clearHandle_)) --outstandingClears_;`
unfoldable pub cancel_clear : StatusLine → StatusLine
unfolding cancel
cancel_clear s =
    let (hit, timer) = cancel s.clear_handle s.timer in
    if s.clear_handle == 0
    then s
    else record s { timer = timer; outstanding = if hit then s.outstanding - 1 else s.outstanding }

-- `now` is the time of the clock, `ttl` how long a message stays.
unfoldable pub set_message : ℕ → ℕ → Text → StatusSeverity → StatusLine → StatusLine
unfolding cancel_clear schedule
set_message now ttl message severity s =
    let s₁ = cancel_clear s in
    let mine = (s.generation + 1) % 2 ^ 64 in
    let (h, timer) = schedule now ttl mine s₁.timer in
    record s₁ {
      timer = timer;
      text = message;
      severity = severity;
      clear_handle = h;
      generation = mine;
      outstanding = s₁.outstanding + 1;
    }

unfoldable pub on_clear_fired : ℕ → StatusLine → StatusLine
on_clear_fired generation s =
    if generation == s.generation
    then record s { text = []; severity = calm; clear_handle = 0; outstanding = s.outstanding - 1 }
    else record s { outstanding = s.outstanding - 1 }

-- The destructor, up to its wait for `outstandingClears_ == 0`.
unfoldable pub destroy : StatusLine → StatusLine
unfolding cancel_clear
destroy s = record (cancel_clear s) { generation = (s.generation + 1) % 2 ^ 64 }

-- The handlers of the four events.
unfoldable pub on_added : ℕ → ℕ → Device → StatusLine → StatusLine
unfolding set_message describe
on_added now ttl d s =
    if s.armed then set_message now ttl (describe d (bytes "added")) info s else s

unfoldable pub on_changed : ℕ → ℕ → Device → StatusLine → StatusLine
unfolding set_message describe
on_changed now ttl d s =
    if s.armed then set_message now ttl (describe d (bytes "changed")) info s else s

unfoldable pub on_removed : ℕ → ℕ → StatusLine → StatusLine
unfolding set_message
on_removed now ttl s = if s.armed then set_message now ttl (bytes "device removed") info s else s

unfoldable pub on_task_completed : ℕ → ℕ → Text → Bool → StatusLine → StatusLine
unfolding set_message
on_task_completed now ttl message good s =
    if s.armed then set_message now ttl message (if good then success else danger) s else s

-- The public `severity`: an empty line is in its steady state.
unfoldable pub shown_severity : StatusLine → StatusSeverity
unfolding is_empty
shown_severity s = if is_empty s.text then calm else s.severity
