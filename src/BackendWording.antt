-- ===== src/BackendWording.antt =====
-- core/src/backend_wording.cpp: the sentences about a backend that does not serve.
use cross_device_manager.Base.{
  Option, none, some, [], ◌∷◌, ◌++◌, Text, bytes, text_eq, ◌==◌, Eq, if◌then◌else◌,
}
use cross_device_manager.Base.Result.{
  Code, permission, not_found, busy, io, network, conflict, invalid_args,
}

pub data BackendId : Type 0 where
  devmgrd fwupd dkms : BackendId

pub data UnavailabilityKind : Type 0 where
  absent unreachable not_permitted unsupported : UnavailabilityKind

Backend_dec : Discrete BackendId
Backend_dec = hlevel

instance unfoldable pub backend_eq : Eq BackendId
unfolding Backend_dec
backend_eq = record { dec = Backend_dec }

Kind_dec : Discrete UnavailabilityKind
Kind_dec = hlevel

instance unfoldable pub kind_eq : Eq UnavailabilityKind
unfolding Kind_dec
kind_eq = record { dec = Kind_dec }

unfoldable pub kind_for : Code → UnavailabilityKind
kind_for not_found = absent
kind_for permission = not_permitted
kind_for Code.unsupported = unsupported
kind_for io = unreachable
kind_for network = unreachable
kind_for busy = unreachable
kind_for conflict = unreachable
kind_for invalid_args = unreachable

unfoldable pub backend_name : BackendId → Text
backend_name devmgrd = bytes "Device service"
backend_name fwupd = bytes "Firmware updates"
backend_name dkms = bytes "DKMS status"

-- The bytes of U+2014 between blanks.
abbrev dash : Text
dash = 32 ∷ 226 ∷ 128 ∷ 148 ∷ 32 ∷ []

unfoldable pub unavailability_text : BackendId → UnavailabilityKind → Text
unfolding backend_name
unavailability_text devmgrd unreachable =
    bytes "Device service unavailable" ++ (dash ++ bytes "showing read-only system state.")
unavailability_text fwupd unreachable =
    bytes "Firmware updates unavailable" ++ (dash ++ bytes "the fwupd service is not responding.")
unavailability_text dkms absent =
    bytes "DKMS status unavailable" ++ (dash ++ bytes "DKMS is not installed on this system.")
unavailability_text backend kind =
    backend_name backend
    ++ (bytes " unavailable" ++ (dash ++ bytes "this cannot be read right now."))

unfoldable pub backend_for_provider : Text → Option BackendId
backend_for_provider id =
    if id == bytes "fwupd" then some fwupd else if id == bytes "dkms" then some dkms else none
