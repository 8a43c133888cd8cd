-- ===== src/Daemon/JsonStore/Reading.antt =====
-- What a read proves of the snapshot that it gives, and that no read or scan loses a file's text.
use cross_device_manager.Base.{
  ◌≡◌, ◌⊎◌, inl, inr, some, List, [], ◌∷◌, Text, arith, text_eq, Option-cases,
}
use cross_device_manager.Base.Result.{ok}
use cross_device_manager.Base.Dict.{lookup, contains}
use cross_device_manager.Json.{Library}
use cross_device_manager.Snapshot.{Snapshot, healthy}
use cross_device_manager.Daemon.AtomicFile.{Files}
use cross_device_manager.Daemon.AtomicFile.Quarantine.{
  quarantine_file_total, quarantine_file_failed,
}
use cross_device_manager.Daemon.Disk.{next_faults}
use cross_device_manager.Daemon.SnapshotFile.{
  snapshot_file_name, id_from_file_name, canonical_payload,
}
use cross_device_manager.Daemon.JsonStore.{
  JsonStore, quarantine, quarantine_and_fail, verify, read_document, read, missing_snapshot_error,
  scan_one, scan_name, scan_names, names_of, scan, list,
}

-- A text stands under some name.
abbrev pub Stands : Text → Files → Type 0
Stands text files = (name : Text) × (lookup name files ≡ some text)

quarantine-Stands :
    (name content text j : Text) (store : JsonStore)
    → lookup name store.disk.files ≡ some content
    → lookup j store.disk.files ≡ some text
    → Stands text (quarantine name store).1.disk.files
unfolding quarantine contains
quarantine-Stands name content text j store found h =
    elim (Option-cases (next_faults store.disk.coming).rename_error) [
      | inr (message, f) ↦
          let (bad, q) = quarantine_file_failed store.now message name store.disk.files in
          rw (f, q, quarantine) (j, h)
      | inl f ↦
          let (bad, after, q, _, free, kept, _, elsewhere) =
            quarantine_file_total store.now name content j store.disk.files found in
          rw (f, q, quarantine)
            (elim elsewhere [
              | inl e ↦ absurd (ground arith)
              | inr (inl e) ↦ (bad, ground arith)
              | inr (inr e) ↦ (j, ground arith)
            ])
    ]

module _ (L : Library) (hash : Text → Text) where
  -- A read leaves the directory alone, or quarantines the file of the id.
  pub read-store :
      (id : Text) (store : JsonStore)
      → ((read L hash id store).1 ≡ store)
        ⊎ ((content : Text) × (lookup (snapshot_file_name id) store.disk.files ≡ some content)
            × ((read L hash id store).1 ≡ (quarantine (snapshot_file_name id) store).1))
  unfolding read read_document verify quarantine_and_fail
  read-store id store = ground arith

  -- Whatever a read finds, a text that stood in the directory still stands there.
  pub read-Stands :
      (id text j : Text) (store : JsonStore)
      → lookup j store.disk.files ≡ some text
      → Stands text (read L hash id store).1.disk.files
  read-Stands id text j store h = elim (read-store id store) [
    | inl e ↦ rw e (j, h)
    | inr (content, found, e) ↦
        rw e (quarantine-Stands (snapshot_file_name id) content text j store found h)
  ]

  pub scan_name-store :
      (name : Text) (store : JsonStore)
      → ((scan_name L hash name store).1 ≡ store)
        ⊎ ((scan_name L hash name store).1 ≡ (read L hash (id_from_file_name name) store).1)
  unfolding scan_name scan_one
  scan_name-store name store = ground arith

  scan_name-Stands :
      (name text j : Text) (store : JsonStore)
      → lookup j store.disk.files ≡ some text
      → Stands text (scan_name L hash name store).1.disk.files
  scan_name-Stands name text j store h = elim (scan_name-store name store) [
    | inl e ↦ rw e (j, h)
    | inr e ↦ rw e (read-Stands (id_from_file_name name) text j store h)
  ]

  scan_names-Stands :
      (names : List Text) (text j : Text) (store : JsonStore)
      → lookup j store.disk.files ≡ some text
      → Stands text (scan_names L hash names store).1.disk.files
  unfolding scan_names
  scan_names-Stands [] text j store h = (j, h)
  scan_names-Stands (name ∷ names) text j store h =
      let (k, e) = scan_name-Stands name text j store h in
      scan_names-Stands names text k (scan_name L hash name store).1 e

  -- A listing loses no file's text: what stood under some name before stands under some name after.
  pub list-Stands :
      (text j : Text) (store : JsonStore)
      → lookup j store.disk.files ≡ some text
      → Stands text (list L hash store).1.disk.files
  unfolding list scan
  list-Stands text j store h = scan_names-Stands (names_of store.disk.files) text j store h

  -- A read that succeeds gives a payload whose hash is the id, under a meta with that id that says
  -- healthy and counts it, and has changed nothing.
  pub read_verified :
      (id : Text) (store : JsonStore) (snap : Snapshot)
      → (read L hash id store).0 ≡ ok snap
      → (hash (canonical_payload L snap.payload) ≡ id)
        × (snap.meta.id ≡ id)
        × (snap.meta.health ≡ healthy)
        × ((read L hash id store).1 ≡ store)
  unfolding read read_document verify quarantine_and_fail missing_snapshot_error
  read_verified id store snap h = (ground arith, ground arith, ground arith, ground arith)
