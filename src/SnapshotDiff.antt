-- ===== src/SnapshotDiff.antt =====
-- core/src/snapshot_diff.cpp: what differs between two snapshots, in rows.
pub mod Rows
pub mod Exact
use cross_device_manager.Base.{
  ℕ, Bool, true, false, not, ◌&&◌, ◌||◌, Option, none, some, List, [], ◌∷◌, ◌++◌, Text, bytes,
  text_eq, nat_eq, ◌==◌, Eq, ℕ_discrete, is_empty, before_sub, is_blank, drop, if◌then◌else◌,
}
use cross_device_manager.Base.Dict.{lookup, contains}
use cross_device_manager.Base.OrderedMap.{assign, insert_key}
use cross_device_manager.Models.{DeviceKey, DisabledDeviceEntry}
use cross_device_manager.Snapshot.{SnapshotPayload}

pub record SnapshotDiffEntry : Type 0 where
  pub kind : Text
  pub key : Text
  pub before : Text
  pub after : Text

pub record SnapshotDiff : Type 0 where
  pub base_id : Text
  pub target_id : Text
  pub entries : List SnapshotDiffEntry

abbrev pub diff_kind_device : Text
diff_kind_device = bytes "device"

abbrev pub diff_kind_module : Text
diff_kind_module = bytes "module"

abbrev pub diff_kind_modprobe : Text
diff_kind_modprobe = bytes "modprobe"

abbrev pub diff_state_enabled : Text
diff_state_enabled = bytes "enabled"

abbrev pub diff_state_absent : Text
diff_state_absent = bytes "absent"

abbrev pub diff_state_present : Text
diff_state_present = bytes "present"

abbrev pub diff_state_blacklisted : Text
diff_state_blacklisted = bytes "blacklisted"

abbrev pub diff_state_edited : Text
diff_state_edited = bytes "present, contents differ"

-- A `std::map` of texts.
abbrev pub States : Type 0
States = List (Text × Text)

States_dec : Discrete States
States_dec = hlevel ℕ_discrete

instance unfoldable pub states_eq : Eq States
unfolding States_dec ℕ_discrete
states_eq = record { dec = States_dec }

abbrev flush : Text → List Text → List Text
flush current rest = if is_empty current then rest else current ∷ rest

-- The words of a text, after the bytes of one that has begun.
unfoldable pub words : Text → Text → List Text
unfolding is_blank is_empty
words current [] = flush current []
words current (c ∷ s) =
    let apart = words [] s in
    let longer = words (current ++ (c ∷ [])) s in if is_blank c then flush current apart else longer

unfoldable pub tokenize : Text → List Text
unfolding words before_sub
tokenize line = elim (before_sub (bytes "#") line) [
  | none ↦ words [] line
  | some rest ↦ words [] rest
]

-- The lines that `std::getline` gives: the last one needs no end.
unfoldable pub lines : Text → Text → List Text
unfolding is_empty
lines current [] = flush current []
lines current (c ∷ s) =
    let ended = lines [] s in
    let longer = lines (current ++ (c ∷ [])) s in if c == b'\n' then current ∷ ended else longer

unfoldable pub append_state : Text → Text → Text
append_state state part = if is_empty state then part else state ++ (bytes ", " ++ part)

-- The words with blanks between them, after what is joined already.
unfoldable pub join_words : Text → List Text → Text
join_words joined [] = joined
join_words joined (t ∷ ts) =
    join_words (if is_empty joined then t else joined ++ (bytes " " ++ t)) ts

unfoldable pub state_or : States → Text → Text → Text
state_or states key fallback = elim (lookup key states) [ none ↦ fallback | some s ↦ s ]

-- `appendState(states[module], part)`
unfoldable pub add_state : Text → Text → States → States
unfolding append_state state_or assign
add_state key part states = assign key (append_state (state_or states key []) part) states

-- One line: a blacklist, or options or an install command with something behind the name.
unfoldable pub directive : List Text → States → States
unfolding add_state join_words
directive [] states = states
directive (keyword ∷ []) states = states
directive (keyword ∷ name ∷ []) states =
    if keyword == bytes "blacklist" then add_state name diff_state_blacklisted states else states
directive (keyword ∷ name ∷ more ∷ rest) states =
    if keyword == bytes "blacklist"
    then add_state name diff_state_blacklisted states
    else if keyword == bytes "options"
    then add_state name (bytes "options: " ++ join_words [] (more ∷ rest)) states
    else if keyword == bytes "install"
    then add_state name (bytes "install: " ++ join_words [] (more ∷ rest)) states
    else states

unfoldable pub collect_lines : List Text → States → States
unfolding directive tokenize
collect_lines [] states = states
collect_lines (line ∷ rest) states = collect_lines rest (directive (tokenize line) states)

unfoldable pub collect_directives : Text → States → States
unfolding collect_lines lines
collect_directives content states = collect_lines (lines [] content) states

-- The directives of all files, from what is collected already.
unfoldable pub collect_files : List (Text × Text) → States → States
unfolding collect_directives
collect_files [] states = states
collect_files ((name, content) ∷ files) states =
    collect_files files (collect_directives content states)

unfoldable pub module_states : List (Text × Text) → States
unfolding collect_files
module_states files = collect_files files []

unfoldable pub file_module_states : Text → States
unfolding collect_directives
file_module_states content = collect_directives content []

unfoldable pub keys_into : States → List Text → List Text
unfolding insert_key
keys_into [] keys = keys
keys_into ((k, v) ∷ m) keys = keys_into m (insert_key k keys)

unfoldable pub union_keys : States → States → List Text
unfolding keys_into
union_keys lhs rhs = keys_into rhs (keys_into lhs [])

unfoldable pub device_entry_label : DisabledDeviceEntry → Text
device_entry_label entry =
    let key = entry.key in
    if is_empty key.position && (is_empty key.vendor_id && is_empty key.product_id)
    then if is_empty entry.last_sysfs_path then bytes "unknown device" else entry.last_sysfs_path
    else let bus = if is_empty key.bus then bytes "device" else key.bus in
      let ids =
        if not (is_empty key.vendor_id) || not (is_empty key.product_id)
        then bytes " " ++ (key.vendor_id ++ (bytes ":" ++ key.product_id))
        else [] in
      let place =
        if not (is_empty key.position)
        then bytes " @" ++ key.position
        else if not (is_empty entry.last_sysfs_path)
        then bytes " @" ++ entry.last_sysfs_path
        else [] in
      let serial = if not (is_empty key.serial) then bytes " #" ++ key.serial else [] in
      bus ++ (ids ++ (place ++ serial))

unfoldable pub device_entry_state : DisabledDeviceEntry → Text
device_entry_state entry =
    if is_empty entry.mechanism
    then bytes "disabled"
    else bytes "disabled (" ++ (entry.mechanism ++ bytes ")")

-- The states by label; a later entry of a label replaces an earlier one.
unfoldable pub device_states_into : List DisabledDeviceEntry → States → States
unfolding assign device_entry_label device_entry_state
device_states_into [] states = states
device_states_into (e ∷ es) states =
    device_states_into es (assign (device_entry_label e) (device_entry_state e) states)

unfoldable pub device_states : List DisabledDeviceEntry → States
unfolding device_states_into
device_states entries = device_states_into entries []

abbrev row : Text → Text → Text → Text → SnapshotDiffEntry
row kind key before after = record { kind = kind; key = key; before = before; after = after }

-- The loops of `diffDevices` and `diffModules`: a row for each key whose states differ.
unfoldable pub state_rows : Text → Text → States → States → List Text → List SnapshotDiffEntry
unfolding state_or
state_rows kind fallback before after [] = []
state_rows kind fallback before after (key ∷ keys) =
    let rest = state_rows kind fallback before after keys in
    let b = state_or before key fallback in
    let a = state_or after key fallback in if b == a then rest else row kind key b a ∷ rest

unfoldable pub diff_devices : SnapshotPayload → SnapshotPayload → List SnapshotDiffEntry
unfolding state_rows device_states union_keys
diff_devices base target =
    let before = device_states base.entries in
    let after = device_states target.entries in
    state_rows diff_kind_device diff_state_enabled before after (union_keys before after)

unfoldable pub diff_modules : SnapshotPayload → SnapshotPayload → List SnapshotDiffEntry
unfolding state_rows module_states union_keys
diff_modules base target =
    let before = module_states base.modprobe_files in
    let after = module_states target.modprobe_files in
    state_rows diff_kind_module diff_state_absent before after (union_keys before after)

abbrev presence : Option Text → Text
presence none = diff_state_absent
presence (some content) = diff_state_present

-- The row of one file. An edit that moves a directive is a module row already.
unfoldable pub file_row : Text → Option Text → Option Text → List SnapshotDiffEntry
unfolding file_module_states states_eq
file_row name (some b) (some a) =
    if b == a
    then []
    else if not (file_module_states b == file_module_states a)
    then []
    else row diff_kind_modprobe name diff_state_present diff_state_edited ∷ []
file_row name b a = row diff_kind_modprobe name (presence b) (presence a) ∷ []

unfoldable pub file_rows : States → States → List Text → List SnapshotDiffEntry
unfolding file_row
file_rows before after [] = []
file_rows before after (name ∷ names) =
    file_row name (lookup name before) (lookup name after) ++ file_rows before after names

unfoldable pub diff_modprobe_files : SnapshotPayload → SnapshotPayload → List SnapshotDiffEntry
unfolding file_rows union_keys
diff_modprobe_files base target =
    file_rows base.modprobe_files target.modprobe_files
      (union_keys base.modprobe_files target.modprobe_files)

unfoldable pub diff_payloads : SnapshotPayload → SnapshotPayload → SnapshotDiff
unfolding diff_devices diff_modules diff_modprobe_files
diff_payloads base target = record {
  base_id = [];
  target_id = [];
  entries =
      diff_devices base target ++ (diff_modules base target ++ diff_modprobe_files base target);
}
