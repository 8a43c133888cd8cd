-- ===== src/Snapshot.antt =====
-- core/include/devmgr/core/snapshot_models.hpp: the data of snapshots and of a restore.
use cross_device_manager.Base.{
  ℕ, Option, none, some, List, Text, bytes, text_eq, ◌==◌, take, Eq, if◌then◌else◌,
}
use cross_device_manager.Base.Int.{ℤ}
use cross_device_manager.Models.{DisabledDeviceEntry}

pub data SnapshotTrigger : Type 0 where
  manual auto : SnapshotTrigger

pub data SnapshotHealth : Type 0 where
  healthy corrupt unsupported : SnapshotHealth

-- `to_string(SnapshotTrigger)` and `snapshotTriggerFrom` (core/src/snapshot_models.cpp).
unfoldable pub trigger_to_string : SnapshotTrigger → Text
trigger_to_string manual = bytes "manual"
trigger_to_string auto = bytes "auto"

unfoldable pub snapshot_trigger_from : Text → Option SnapshotTrigger
snapshot_trigger_from text =
    if text == bytes "manual" then some manual else if text == bytes "auto" then some auto else none

unfoldable pub health_to_string : SnapshotHealth → Text
health_to_string healthy = bytes "ok"
health_to_string corrupt = bytes "corrupt"
health_to_string unsupported = bytes "unsupported"

pub record SnapshotReason : Type 0 where
  pub verb : Text
  pub subject : Text

-- The files are a `std::map`: a list in the order of the names.
pub record SnapshotPayload : Type 0 where
  pub entries : List DisabledDeviceEntry
  pub modprobe_files : List (Text × Text)

pub record SnapshotMeta : Type 0 where
  pub id : Text
  pub parent : Option Text
  pub created_at_utc : ℤ
  pub trigger : SnapshotTrigger
  pub reason : SnapshotReason
  pub health : SnapshotHealth
  pub entry_count : ℕ
  pub modprobe_file_count : ℕ

pub record Snapshot : Type 0 where
  pub meta : SnapshotMeta
  pub payload : SnapshotPayload

pub record RestoreItemOutcome : Type 0 where
  pub subject : Text
  pub action : Text
  pub status : Text
  pub detail : Text

pub record RestoreOutcome : Type 0 where
  pub snapshot_id : Text
  pub safety_snapshot_id : Text
  pub items : List RestoreItemOutcome

abbrev pub snapshot_short_id_length : ℕ
snapshot_short_id_length = 12

unfoldable pub snapshot_short_id : Text → Text
snapshot_short_id id = take snapshot_short_id_length id

Health_dec : Discrete SnapshotHealth
Health_dec = hlevel

instance unfoldable pub health_eq : Eq SnapshotHealth
unfolding Health_dec
health_eq = record { dec = Health_dec }

Trigger_dec : Discrete SnapshotTrigger
Trigger_dec = hlevel

instance unfoldable pub trigger_eq : Eq SnapshotTrigger
unfolding Trigger_dec
trigger_eq = record { dec = Trigger_dec }
