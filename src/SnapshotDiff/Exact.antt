-- ===== src/SnapshotDiff/Exact.antt =====
-- The rows of a comparison are exactly the differences of the two payloads.
use cross_device_manager.Base.{◌≡◌, ◌≢◌, Option, none, some, Text, text_eq, nat_eq}
use cross_device_manager.Base.Dict.{lookup}
use cross_device_manager.Snapshot.{SnapshotPayload}
use cross_device_manager.SnapshotDiff.{
  SnapshotDiffEntry, states_eq, state_or, device_states, module_states, file_module_states,
  diff_kind_device, diff_kind_module, diff_kind_modprobe, diff_state_enabled, diff_state_absent,
  diff_state_present, diff_state_edited,
}
use cross_device_manager.SnapshotDiff.Rows.{state_row}

abbrev modprobe_row : Text → Text → Text → SnapshotDiffEntry
modprobe_row name before after = record {
  kind = diff_kind_modprobe;
  key = name;
  before = before;
  after = after;
}

-- A file that only one side has, or an edit that moves no directive of a module.
pub data FileChange (name : Text) : Option Text → Option Text → SnapshotDiffEntry → Type 0 where
  created :
      {a : Text}
      → FileChange name none (some a) (modprobe_row name diff_state_absent diff_state_present)
  deleted :
      {b : Text}
      → FileChange name (some b) none (modprobe_row name diff_state_present diff_state_absent)
  edited :
      {b a : Text}
      → b ≢ a
      → file_module_states b ≡ file_module_states a
      → FileChange name (some b) (some a) (modprobe_row name diff_state_present diff_state_edited)

-- What a row can say of two payloads.
pub data Difference (base target : SnapshotPayload) : SnapshotDiffEntry → Type 0 where
  of_device :
      {k : Text}
      → state_or (device_states base.entries) k diff_state_enabled
        ≢ state_or (device_states target.entries) k diff_state_enabled
      → Difference base target (
          state_row diff_kind_device diff_state_enabled
            (device_states base.entries)
            (device_states target.entries)
            k)
  of_module :
      {k : Text}
      → state_or (module_states base.modprobe_files) k diff_state_absent
        ≢ state_or (module_states target.modprobe_files) k diff_state_absent
      → Difference base target (
          state_row diff_kind_module diff_state_absent
            (module_states base.modprobe_files)
            (module_states target.modprobe_files)
            k)
  of_file :
      {name : Text} {e : SnapshotDiffEntry}
      → FileChange name (lookup name base.modprobe_files) (lookup name target.modprobe_files) e
      → Difference base target e
