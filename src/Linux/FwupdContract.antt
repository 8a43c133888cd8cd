-- ===== src/Linux/FwupdContract.antt =====
-- platform/linux/src/fwupd_contract.cpp: what the dictionaries of fwupd say. A variant of another type
-- than those that are read is `other_value`; the debug lines of the log are left out.
use cross_device_manager.Base.{
  ℕ, zero, suc, ◌/◌, ◌%◌, ◌^◌, Bool, false, not, ◌&&◌, ◌||◌, Option, none, some, List, [], ◌∷◌,
  ◌++◌, Text, bytes, text_eq, nat_eq, ◌==◌, is_empty, if◌then◌else◌,
}
use cross_device_manager.Base.Dict.{Dict, lookup}
use cross_device_manager.Base.Result.{Error, permission, conflict, busy, io}

pub data Variant : Type 0 where
  string_value : Text → Variant
  u64_value : ℕ → Variant
  u32_value : ℕ → Variant
  strings_value : List Text → Variant
  other_value : Variant

-- core/include/devmgr/core/update_models.hpp
pub data InstallDisposition : Type 0 where
  completed scheduled needs_reboot needs_user_action : InstallDisposition

pub record DeviceUpdateFacts : Type 0 where
  pub updatable : Bool
  pub supported : Bool
  pub needs_reboot_after_update : Bool

pub record ReleaseInfo : Type 0 where
  pub version : Text
  pub summary : Text
  pub remote_id : Text
  pub checksum : Text
  pub locations : List Text
  pub local_cab : Bool
  pub size_bytes : ℕ
  pub is_upgrade : Bool
  pub install_duration_sec : Option ℕ

pub record PendingAction : Type 0 where
  pub provider_id : Text
  pub device_id : Text
  pub device_name : Text
  pub disposition : InstallDisposition
  pub version : Text

pub record ParsedDevice : Type 0 where
  pub device_id : Text
  pub name : Text
  pub vendor : Text
  pub version : Text
  pub facts : DeviceUpdateFacts

abbrev pub as_string : Variant → Option Text
as_string (string_value s) = some s
as_string _ = none

abbrev pub as_u64 : Variant → Option ℕ
as_u64 (u64_value n) = some n
as_u64 _ = none

abbrev pub as_u32 : Variant → Option ℕ
as_u32 (u32_value n) = some n
as_u32 _ = none

abbrev pub as_strings : Variant → Option (List Text)
as_strings (strings_value ss) = some ss
as_strings _ = none

-- A known key with a variant of the wrong type counts as absent.
unfoldable pub get : {A : Type 0} → (Variant → Option A) → Dict Text Variant → Text → Option A
unfolding lookup
get reader d key = elim (lookup key d) [ none ↦ none | some v ↦ reader v ]

abbrev pub or_default : {A : Type 0} → Option A → A → A
or_default none d = d
or_default (some a) d = a

-- `(flags & (1 << bit)) != 0`
unfoldable pub has_flag : ℕ → ℕ → Bool
has_flag flags bit = (flags / 2 ^ bit) % 2 == 1

unfoldable pub parse_device : Dict Text Variant → Option ParsedDevice
unfolding get has_flag is_empty
parse_device d =
    let id = or_default (get as_string d (bytes "DeviceId")) [] in
    let flags = or_default (get as_u64 d (bytes "Flags")) 0 in
    elim (get as_string d (bytes "Version")) [
      | none ↦ none
      | some version ↦
          if is_empty id
          then none
          else some (record {
            device_id = id;
            name = or_default (get as_string d (bytes "Name")) (bytes "(unnamed device)");
            vendor = or_default (get as_string d (bytes "Vendor")) [];
            version = version;
            facts = record {
              updatable = has_flag flags 1;
              supported = has_flag flags 5;
              needs_reboot_after_update = has_flag flags 8;
            };
          })
    ]

-- The key of older daemons, if it says anything.
abbrev uri_location : Option Text → List Text
uri_location none = []
uri_location (some uri) = if is_empty uri then [] else uri ∷ []

abbrev locations_or : Option (List Text) → Option Text → List Text
locations_or none uri = uri_location uri
locations_or (some []) uri = uri_location uri
locations_or (some (l ∷ ls)) uri = l ∷ ls

unfoldable pub parse_release : Dict Text Variant → Option ReleaseInfo
unfolding get has_flag is_empty
parse_release d = elim (get as_string d (bytes "Version")) [
  | none ↦ none
  | some version ↦ some (record {
    version = version;
    summary = or_default (get as_string d (bytes "Summary")) [];
    remote_id = or_default (get as_string d (bytes "RemoteId")) [];
    checksum = or_default (get as_string d (bytes "Checksum")) [];
    locations = locations_or (get as_strings d (bytes "Locations")) (get as_string d (bytes "Uri"));
    local_cab = false;
    size_bytes = or_default (get as_u64 d (bytes "Size")) 0;
    is_upgrade = has_flag (or_default (get as_u64 d (bytes "Flags")) 0) 2;
    install_duration_sec = get as_u32 d (bytes "InstallDuration");
  })
]

unfoldable pub is_nothing_to_do : Text → Bool
is_nothing_to_do name = name == bytes "org.freedesktop.fwupd.NothingToDo"

unfoldable pub map_error : Text → Text → Error
unfolding is_empty
map_error name message =
    let text =
      (if is_empty name then bytes "fwupd" else name)
      ++ (if is_empty message then bytes ": unknown error" else bytes ": " ++ message) in
    if name == bytes "org.freedesktop.fwupd.AuthFailed"
    then record { code = permission; message = text }
    else if (name == bytes "org.freedesktop.fwupd.NothingToDo")
        || (name == bytes "org.freedesktop.fwupd.VersionNewer")
    then record { code = conflict; message = text }
    else if name == bytes "org.freedesktop.fwupd.NeedsUserAction"
    then record { code = busy; message = text }
    else record { code = io; message = text }

abbrev update_state_pending : ℕ
update_state_pending = 1

abbrev update_state_needs_reboot : ℕ
update_state_needs_reboot = 4

unfoldable pub disposition_from_update_state : ℕ → InstallDisposition
disposition_from_update_state state =
    if state == update_state_needs_reboot
    then needs_reboot
    else if state == update_state_pending
    then scheduled
    else completed

unfoldable pub parse_history_entry : Dict Text Variant → Option PendingAction
unfolding get disposition_from_update_state
parse_history_entry d =
    let state = or_default (get as_u32 d (bytes "UpdateState")) 0 in
    if not (state == update_state_pending) && not (state == update_state_needs_reboot)
    then none
    else some (record {
      provider_id = bytes "fwupd";
      device_id = or_default (get as_string d (bytes "DeviceId")) [];
      device_name = or_default (get as_string d (bytes "Name")) [];
      disposition = disposition_from_update_state state;
      version = or_default (get as_string d (bytes "Version")) [];
    })

abbrev status_names : List Text
status_names =
    bytes "unknown"
    ∷ bytes "idle"
    ∷ bytes "loading"
    ∷ bytes "decompressing"
    ∷ bytes "device-restart"
    ∷ bytes "device-write"
    ∷ bytes "device-verify"
    ∷ bytes "scheduling"
    ∷ bytes "downloading"
    ∷ bytes "device-read"
    ∷ bytes "device-erase"
    ∷ bytes "waiting-for-auth"
    ∷ bytes "device-busy"
    ∷ bytes "shutdown"
    ∷ bytes "waiting-for-user"
    ∷ []

abbrev name_at : ℕ → List Text → Text
name_at n [] = bytes "unknown"
name_at zero (s ∷ ss) = s
name_at (suc n) (s ∷ ss) = name_at n ss

unfoldable pub status_name : ℕ → Text
status_name status = name_at status status_names
