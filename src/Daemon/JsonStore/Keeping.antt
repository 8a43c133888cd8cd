-- ===== src/Daemon/JsonStore/Keeping.antt =====
-- A good snapshot stays good: neither a scan nor a pruning takes away the file of the one that HEAD
-- names, nor a scan that of any other.
use mathlib.Core.List.{append_cancel_right}
use cross_device_manager.Base.{
  ◌≡◌, ◌≢◌, refl, sym, ◌∙◌, inl, inr, some, List, [], ◌∷◌, Text, bytes, arith, ◌==◌, text_eq, All,
  Bool-cases, Option-cases,
}
use cross_device_manager.Base.Result.{ok}
use cross_device_manager.Base.Dict.{lookup, contains, lookup-erase}
use cross_device_manager.Json.{Library}
use cross_device_manager.Snapshot.{Snapshot}
use cross_device_manager.Daemon.Disk.{Disk, remove_file, next_faults}
use cross_device_manager.Daemon.AtomicFile.Quarantine.{
  quarantine_file_total, quarantine_file_failed,
}
use cross_device_manager.Daemon.SnapshotFile.{snapshot_file_name, id_from_file_name}
use cross_device_manager.Daemon.SnapshotOrder.Pruning.{victims-head}
use cross_device_manager.Daemon.JsonStore.{
  JsonStore, head_of, quarantine, quarantine_and_fail, missing_snapshot_error, verify,
  read_document, read, scan_name, scan_names, names_of, scan, delete_all, prune,
}
use cross_device_manager.Daemon.JsonStore.Reading.{read-store, scan_name-store, read_verified}

snapshot_file_name-injective : (i j : Text) → snapshot_file_name i ≡ snapshot_file_name j → i ≡ j
unfolding snapshot_file_name
snapshot_file_name-injective i j e = append_cancel_right i j (bytes ".json") e

delete_all-lookup :
    (id : Text) (ids : List Text) (disk : Disk)
    → All (λ v. v ≢ id) ids
    → lookup (snapshot_file_name id) (delete_all ids disk).files
      ≡ lookup (snapshot_file_name id) disk.files
unfolding delete_all remove_file
delete_all-lookup id [] disk h = refl
delete_all-lookup id (v ∷ ids) disk h =
    delete_all-lookup id ids (remove_file (snapshot_file_name v) disk).1 h.1
    ∙ ground (
      arith,
      lookup-erase (snapshot_file_name id) (snapshot_file_name v) disk.files,
      snapshot_file_name-injective v id,
    )

quarantine-lookup :
    (name content j text : Text) (store : JsonStore)
    → lookup name store.disk.files ≡ some content
    → lookup j store.disk.files ≡ some text
    → j ≢ name
    → lookup j (quarantine name store).1.disk.files ≡ some text
unfolding quarantine contains
quarantine-lookup name content j text store found h apart =
    elim (Option-cases (next_faults store.disk.coming).rename_error) [
      | inr (message, f) ↦
          let (bad, q) = quarantine_file_failed store.now message name store.disk.files in
          rw (f, q, quarantine) h
      | inl f ↦
          let (bad, after, q, _, free, kept, _, elsewhere) =
            quarantine_file_total store.now name content j store.disk.files found in
          rw (f, q, quarantine)
            (elim elsewhere [
              | inl e ↦ absurd (ground arith)
              | inr (inl e) ↦ absurd (apart e)
              | inr (inr e) ↦ e ∙ h
            ])
    ]

module _ (L : Library) (hash : Text → Text) where
  -- The pruning leaves the file of HEAD's snapshot as the scan left it.
  pub prune-head :
      (id : Text) (store : JsonStore)
      → head_of store.disk ≡ some id
      → lookup (snapshot_file_name id) (prune L hash store).disk.files
        ≡ lookup (snapshot_file_name id) (scan L hash store).1.disk.files
  unfolding prune
  prune-head id store h =
      rw h
        (delete_all-lookup id _ (scan L hash store).1.disk (victims-head (scan L hash store).0 id))

  -- What a read gives depends on the file of the id alone.
  pub read-local :
      (id : Text) (store other : JsonStore) (snap : Snapshot)
      → (read L hash id store).0 ≡ ok snap
      → lookup (snapshot_file_name id) other.disk.files
        ≡ lookup (snapshot_file_name id) store.disk.files
      → (read L hash id other).0 ≡ ok snap
  unfolding read read_document verify quarantine_and_fail missing_snapshot_error
  read-local id store other snap h e = ground arith

  read_found :
      (id : Text) (store : JsonStore) (snap : Snapshot)
      → (read L hash id store).0 ≡ ok snap
      → (text : Text) × (lookup (snapshot_file_name id) store.disk.files ≡ some text)
  unfolding read missing_snapshot_error
  read_found id store snap h =
      elim (Option-cases (lookup (snapshot_file_name id) store.disk.files)) [
        | inr found ↦ found
        | inl n ↦ absurd (ground arith)
      ]

  read_other :
      (id other text : Text) (store : JsonStore) (snap : Snapshot)
      → (read L hash id store).0 ≡ ok snap
      → lookup (snapshot_file_name id) store.disk.files ≡ some text
      → lookup (snapshot_file_name id) (read L hash other store).1.disk.files ≡ some text
  read_other id other text store snap good h = elim (read-store L hash other store) [
    | inl e ↦ rw e h
    | inr (content, found, e) ↦ elim (Bool-cases (other == id)) [
      | inl same ↦
          let twice : other ≡ id = ground arith in
          let (_, _, _, kept) = read_verified L hash id store snap good in rw (twice, kept) h
      | inr differ ↦ rw e (
          quarantine-lookup (snapshot_file_name other) content (snapshot_file_name id) text store
            found h (λ f. ground (arith, snapshot_file_name-injective id other f)))
    ]
  ]

  scan_name-lookup :
      (name id text : Text) (store : JsonStore) (snap : Snapshot)
      → (read L hash id store).0 ≡ ok snap
      → lookup (snapshot_file_name id) store.disk.files ≡ some text
      → lookup (snapshot_file_name id) (scan_name L hash name store).1.disk.files ≡ some text
  scan_name-lookup name id text store snap good h = elim (scan_name-store L hash name store) [
    | inl e ↦ rw e h
    | inr e ↦ rw e (read_other id (id_from_file_name name) text store snap good h)
  ]

  scan_names-lookup :
      (names : List Text) (id text : Text) (store : JsonStore) (snap : Snapshot)
      → (read L hash id store).0 ≡ ok snap
      → lookup (snapshot_file_name id) store.disk.files ≡ some text
      → lookup (snapshot_file_name id) (scan_names L hash names store).1.disk.files ≡ some text
  unfolding scan_names
  scan_names-lookup [] id text store snap good h = h
  scan_names-lookup (name ∷ names) id text store snap good h =
      let next = (scan_name L hash name store).1 in
      let here = scan_name-lookup name id text store snap good h in
      scan_names-lookup names id text next snap (read-local id store next snap good (here ∙ sym h))
        here

  -- A snapshot that could be read can be read after a scan, with the same answer.
  pub read-scan :
      (id : Text) (store : JsonStore) (snap : Snapshot)
      → (read L hash id store).0 ≡ ok snap
      → (read L hash id (scan L hash store).1).0 ≡ ok snap
  unfolding scan
  read-scan id store snap good =
      let (text, h) = read_found id store snap good in
      read-local id store (scan L hash store).1 snap good
        (scan_names-lookup (names_of store.disk.files) id text store snap good h ∙ sym h)

  -- A pruning keeps the snapshot that HEAD names: if it could be read, it can be read after, unchanged.
  pub read-prune :
      (id : Text) (store : JsonStore) (snap : Snapshot)
      → head_of store.disk ≡ some id
      → (read L hash id store).0 ≡ ok snap
      → (read L hash id (prune L hash store)).0 ≡ ok snap
  read-prune id store snap head good =
      read-local id (scan L hash store).1 (prune L hash store) snap (read-scan id store snap good)
        (prune-head id store head)
