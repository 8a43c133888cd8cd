-- ===== src/Cli/Errors.antt =====
-- cli/src/cli.cpp, cli/src/cli.hpp: exit codes, and which errors mean that the daemon does not answer.
use cross_device_manager.Base.{
  ℕ, Bool, true, false, List, [], ◌∷◌, Text, bytes, any_of, to_lower, has_sub, if◌then◌else◌,
}
use cross_device_manager.Base.Result.{Error, permission, not_found, busy, io, invalid_args}

abbrev pub ok_code : ℕ
ok_code = 0

abbrev pub usage_code : ℕ
usage_code = 1

abbrev pub not_found_code : ℕ
not_found_code = 2

abbrev pub not_authorized_code : ℕ
not_authorized_code = 3

abbrev pub unreachable_code : ℕ
unreachable_code = 4

abbrev pub failed_code : ℕ
failed_code = 5

unfoldable pub unreachable_markers : List Text
unreachable_markers =
    bytes "systemd1.unitmasked"
    ∷ bytes "systemd1.nosuchunit"
    ∷ bytes "systemd1.unitinactive"
    ∷ bytes "dbus.error.serviceunknown"
    ∷ bytes "dbus.error.namehasnoowner"
    ∷ bytes "dbus.error.noreply"
    ∷ bytes "dbus.error.spawn."
    ∷ bytes "dbus.error.noserver"
    ∷ bytes "dbus.error.disconnected"
    ∷ bytes "helper devmgrd is not available"
    ∷ bytes "is masked"
    ∷ bytes "devmgrd.service not found"
    ∷ bytes "activation via systemd failed"
    ∷ bytes "failed to activate service"
    ∷ bytes "was not provided by any .service files"
    ∷ bytes "disconnected from message bus without replying"
    ∷ bytes "failed to connect to socket"
    ∷ bytes "could not connect to bus"
    ∷ []

unfoldable pub is_daemon_unavailable_error : Error → Bool
unfolding unreachable_markers to_lower has_sub
is_daemon_unavailable_error e = elim e.code [
  | busy ↦ true
  | io ↦ any_of (λ marker. has_sub marker (to_lower e.message)) unreachable_markers
  | _ ↦ false
]

unfoldable pub exit_code_for : Error → ℕ
unfolding is_daemon_unavailable_error
exit_code_for e = elim e.code [
  | permission ↦ not_authorized_code
  | not_found ↦ not_found_code
  | invalid_args ↦ usage_code
  | busy ↦ if is_daemon_unavailable_error e then unreachable_code else failed_code
  | io ↦ if is_daemon_unavailable_error e then unreachable_code else failed_code
  | _ ↦ failed_code
]
