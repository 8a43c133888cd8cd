-- ===== src/Daemon/JsonStore.antt =====
-- daemon/src/snapshot_store.cpp: `JsonSnapshotStore`, over a directory. The hash is an argument here;
-- the program's is in Sha256. A file that can be listed can be read.
pub mod Reading
pub mod Keeping
pub mod Putting
use cross_device_manager.Base.{
  ℕ, ◌-◌, ◌%◌, ◌^◌, Bool, true, false, not, ◌||◌, Option, none, some, List, [], ◌∷◌, ◌++◌, Text,
  bytes, text_eq, option_eq, ◌==◌, ltb, length, is_empty, starts_with, ends_with, before_sub,
  skip_blanks, take_token, map, if◌then◌else◌,
}
use cross_device_manager.Base.Int.{ℤ, pos, negsuc, lt_int}
use cross_device_manager.Base.Result.{
  Result, ok, err, Error, Code, make_error, io, not_found, unsupported,
}
use cross_device_manager.Base.Op.{Op, bind}
use cross_device_manager.Base.Dict.{lookup, contains}
use cross_device_manager.Json.{Json, null, integer, at, Library}
use cross_device_manager.Snapshot.{
  Snapshot, SnapshotMeta, SnapshotPayload, SnapshotReason, SnapshotTrigger, healthy, corrupt,
}
use cross_device_manager.Snapshot
use cross_device_manager.Daemon.AtomicFile.{Files, quarantine_file}
use cross_device_manager.Daemon.Disk.{Disk, write_file, remove_file, next_faults, later_faults}
use cross_device_manager.Daemon.SnapshotFile.{
  snapshot_format_version, payload_from_json, snapshot_file_name, id_from_file_name, integer_field,
  best_effort_meta, document, canonical_payload, parse_file, or_else,
}
use cross_device_manager.Daemon.SnapshotOrder.{order_newest_first, victims}
use cross_device_manager.Daemon.World.{SnapshotStore}

abbrev pub head_file : Text
head_file = bytes "HEAD"

-- The directory, and the time that a quarantine stamps.
pub record JsonStore : Type 0 where
  pub disk : Disk
  pub now : ℕ

-- The conversion of an integer to `int`.
unfoldable pub to_int32 : ℤ → ℤ
to_int32 (pos n) = let r = n % 2 ^ 32 in if ltb r (2 ^ 31) then pos r else negsuc (2 ^ 32 - 1 - r)
to_int32 (negsuc n) =
    let r = n % 2 ^ 32 in if ltb r (2 ^ 31) then negsuc r else pos (2 ^ 32 - 1 - r)

-- `headLocked`
unfoldable pub head_of : Disk → Option Text
head_of disk = elim (lookup head_file disk.files) [
  | none ↦ none
  | some content ↦
      let id = take_token (skip_blanks content) in if is_empty id then none else some id
]

-- `quarantineFile`, the name of the evidence and what is left.
unfoldable pub quarantine : Text → JsonStore → Text × JsonStore
unfolding next_faults later_faults
quarantine name store =
    let failed = (next_faults store.disk.coming).rename_error in
    elim (quarantine_file failed store.now name store.disk.files) [
      | none ↦ (name, store)
      | some (bad, files) ↦ (
        bad,
        record store {
          disk = record store.disk { files = files; coming = later_faults store.disk.coming };
        },
      )
    ]

abbrev message : Text → Text → Text → Text
message id what rest = bytes "snapshot " ++ (id ++ (what ++ rest))

unfoldable pub quarantine_and_fail : Text → Text → Text → Op JsonStore Snapshot
unfolding quarantine
quarantine_and_fail id name what store =
    let (bad, store') = quarantine name store in
    (make_error io (message id (bytes " " ++ what) (bytes ", quarantined as " ++ bad)), store')

-- The first name of a directory with a prefix.
unfoldable pub first_with_prefix : Text → Files → Option Text
first_with_prefix p [] = none
first_with_prefix p ((name, content) ∷ files) =
    let rest = first_with_prefix p files in if starts_with name p then some name else rest

unfoldable pub missing_snapshot_error : Text → Text → Files → Result Snapshot
unfolding first_with_prefix
missing_snapshot_error id name files = elim (first_with_prefix (name ++ bytes ".bad-") files) [
  | some bad ↦ make_error io (message id (bytes " is corrupt, quarantined as ") bad)
  | none ↦ make_error not_found (bytes "no snapshot " ++ id)
]

unfoldable pub names_of : Files → List Text
names_of [] = []
names_of ((name, content) ∷ files) = name ∷ names_of files

unfoldable pub delete_all : List Text → Disk → Disk
delete_all [] disk = disk
delete_all (id ∷ ids) disk = delete_all ids (remove_file (snapshot_file_name id) disk).1

module _ (L : Library) (hash : Text → Text) where
  abbrev counted : SnapshotMeta → SnapshotPayload → Snapshot
  counted meta payload = record {
    meta = record meta {
      health = healthy;
      entry_count = length payload.entries;
      modprobe_file_count = length payload.modprobe_files;
    };
    payload = payload;
  }

  -- The end of `readLocked`, for a payload that parses.
  unfoldable pub verify : Text → Text → Json → SnapshotPayload → Op JsonStore Snapshot
  unfolding quarantine_and_fail best_effort_meta canonical_payload
  verify id name doc payload store =
      let meta = best_effort_meta doc id in
      if not (hash (canonical_payload L payload) == id) || not (meta.id == id)
      then quarantine_and_fail id name (bytes "failed its integrity check") store
      else (ok (counted meta payload), store)

  -- From the format version on.
  unfoldable pub read_document : Text → Text → Json → ℤ → Op JsonStore Snapshot
  unfolding verify payload_from_json to_int32
  read_document id name doc version store =
      if lt_int snapshot_format_version (to_int32 version)
      then (
        make_error unsupported
            (message id (bytes " has a newer formatVersion; not touching it") []),
        store,
      )
      else elim (at (bytes "payload") doc) [
        | none ↦ quarantine_and_fail id name (bytes "is corrupt") store
        | some j ↦ elim (payload_from_json j) [
          | none ↦ quarantine_and_fail id name (bytes "is corrupt") store
          | some payload ↦ verify id name doc payload store
        ]
      ]

  -- `readLocked`
  unfoldable pub read : Text → Op JsonStore Snapshot
  unfolding read_document missing_snapshot_error integer_field parse_file
  read id store =
      let name = snapshot_file_name id in
      elim (lookup name store.disk.files) [
        | none ↦ (missing_snapshot_error id name store.disk.files, store)
        | some content ↦ elim (parse_file L content) [
          | none ↦ quarantine_and_fail id name (bytes "is corrupt") store
          | some doc ↦ elim (integer_field doc (bytes "formatVersion")) [
            | none ↦ quarantine_and_fail id name (bytes "is corrupt") store
            | some version ↦ read_document id name doc version store
          ]
        ]
      ]

  abbrev parsed : Text → Disk → Json
  parsed name disk = elim (lookup name disk.files) [
    | none ↦ null
    | some content ↦ or_else (parse_file L content) null
  ]

  abbrev scan_error : Text → Error → Disk → SnapshotMeta
  scan_error id e disk = elim e.code [
    | unsupported ↦ record (best_effort_meta (parsed (snapshot_file_name id) disk) id) {
      health = Snapshot.unsupported;
    }
    | _ ↦ record (best_effort_meta null id) { health = corrupt }
  ]

  unfoldable pub scan_one : Text → JsonStore → SnapshotMeta × JsonStore
  unfolding read
  scan_one id store =
      let (snap, store') = read id store in
      elim snap [ ok s ↦ (s.meta, store') | err e ↦ (scan_error id e store'.disk, store') ]

  abbrev contains_sub : Text → Text → Bool
  contains_sub p s = elim (before_sub p s) [ none ↦ false | some r ↦ true ]

  -- One round of `scanLocked`: the meta of a name, if it has one.
  unfoldable pub scan_name : Text → JsonStore → Option SnapshotMeta × JsonStore
  unfolding scan_one
  scan_name name store =
      if (name == head_file) || ends_with name (bytes ".tmp")
      then (none, store)
      else if contains_sub (bytes ".bad-") name
      then (
        some (record (best_effort_meta (parsed name store.disk) (id_from_file_name name)) {
          health = corrupt;
        }),
        store,
      )
      else if not (ends_with name (bytes ".json"))
      then (none, store)
      else (
        some (scan_one (id_from_file_name name) store).0,
        (scan_one (id_from_file_name name) store).1,
      )

  abbrev with_meta : Option SnapshotMeta → List SnapshotMeta → List SnapshotMeta
  with_meta none metas = metas
  with_meta (some m) metas = m ∷ metas

  unfoldable pub scan_names : List Text → JsonStore → List SnapshotMeta × JsonStore
  unfolding scan_name
  scan_names [] store = ([], store)
  scan_names (name ∷ names) store =
      let (meta, store') = scan_name name store in
      let (metas, store'') = scan_names names store' in (with_meta meta metas, store'')

  -- `scanLocked`: over the names that the directory has at first.
  unfoldable pub scan : JsonStore → List SnapshotMeta × JsonStore
  unfolding scan_names names_of
  scan store = scan_names (names_of store.disk.files) store

  -- `pruneLocked`
  unfoldable pub prune : JsonStore → JsonStore
  unfolding scan delete_all
  prune store =
      let head = head_of store.disk in
      let (metas, store') = scan store in
      let ids = victims 0 (order_newest_first metas head) in
      record store' { disk = delete_all ids store'.disk }

  abbrev on_disk : {A : Type 0} → Op Disk A → Op JsonStore A
  on_disk f store = let (r, disk) = f store.disk in (r, record store { disk = disk })

  -- The rest of `put`, where HEAD does not name the id yet.
  unfoldable pub put_new :
      Text → SnapshotPayload → SnapshotTrigger → SnapshotReason → ℤ → Op JsonStore Text
  unfolding prune document
  put_new id payload trigger reason created_at_utc store =
      let head = head_of store.disk in
      let exists = contains (snapshot_file_name id) store.disk.files in
      let text = L.dump_pretty (document id head created_at_utc trigger reason payload) in
      bind
        (if exists then (ok tt, store) else on_disk (write_file (snapshot_file_name id) text) store)
        λ _ written.
          bind (on_disk (write_file head_file (id ++ bytes "\n")) written)
            λ _ moved. (ok id, if exists then moved else prune moved)

  unfoldable pub put : SnapshotPayload → SnapshotTrigger → SnapshotReason → ℤ → Op JsonStore Text
  unfolding put_new canonical_payload
  put payload trigger reason created_at_utc store =
      let id = hash (canonical_payload L payload) in
      if head_of store.disk == some id
      then (ok id, store)
      else put_new id payload trigger reason created_at_utc store

  unfoldable pub list : Op JsonStore (List SnapshotMeta)
  unfolding scan
  list store =
      let (metas, store') = scan store in
      (ok (order_newest_first metas (head_of store'.disk)), store')

  -- What HEAD holds after its snapshot goes.
  abbrev head_after : Option Text → Text
  head_after none = []
  head_after (some next) = if is_empty next then [] else next ++ bytes "\n"

  abbrev deleted : Option Text → Result (Unit {0})
  deleted none = ok tt
  deleted (some why) = make_error io (bytes "delete failed: " ++ why)

  unfoldable pub remove : Text → Op JsonStore (Unit {0})
  unfolding read
  remove id store = bind (read id store) λ snap found.
      bind
        (if head_of found.disk == some id
          then on_disk (write_file head_file (head_after snap.meta.parent)) found
          else (ok tt, found))
        λ _ moved.
          let (why, disk) = remove_file (snapshot_file_name id) moved.disk in
          (deleted why, record moved { disk = disk })

  -- `JsonSnapshotStore` as an implementation of the interface.
  abbrev pub json_snapshot_store : SnapshotStore
  json_snapshot_store = record {
    Store = JsonStore;
    put = put;
    list = list;
    read = read;
    remove = remove;
  }
