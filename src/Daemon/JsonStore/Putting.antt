-- ===== src/Daemon/JsonStore/Putting.antt =====
-- What `put` promises: the snapshot that it reports can be read, and is what was put.
use cross_device_manager.Base.{
  ℕ, ◌≡◌, ◌≢◌, refl, ap, inl, inr, true, false, Option, some, [], ◌∷◌, ◌++◌, Text, bytes, arith,
  ◌==◌, text_eq, nat_eq, option_eq, eq_refl, is_empty, is_empty_nil, ltb, length, length-append,
  all_bytes, is_blank, take_token, skip_blanks,
}
use cross_device_manager.Base.Int.{ℤ}
use cross_device_manager.Base.Result.{ok, Result-cases}
use cross_device_manager.Base.Dict.{lookup, contains}
use cross_device_manager.Json.{in_int64, Library, IsLawful, is_printable}
use cross_device_manager.Snapshot.{Snapshot, SnapshotPayload, SnapshotReason, SnapshotTrigger}
use cross_device_manager.Validation
use cross_device_manager.Validation.{json_max_bytes, is_id_byte}
use cross_device_manager.Validation.Charset.{snapshot_id_iff}
use cross_device_manager.Daemon.AtomicFile.{tmp_name}
use cross_device_manager.Daemon.Disk.{Disk, write_file}
use cross_device_manager.Daemon.Disk.Writes.{lookup-write_file, lookup-write_file_self}
use cross_device_manager.Daemon.EntryJson.{Timely}
use cross_device_manager.Daemon.SnapshotFile.{
  snapshot_file_name, document, canonical_payload, parse_file,
}
use cross_device_manager.Daemon.SnapshotFile.RoundTrip.{
  is_map, meta_written, best_effort_meta-document, document-fields,
  payload_from_json-payload_to_json,
}
use cross_device_manager.Daemon.JsonStore.{
  JsonStore, head_file, head_of, to_int32, verify, read_document, read, put_new, put,
}
use cross_device_manager.Daemon.JsonStore.Keeping.{read-prune}

take_token-line : (id : Text) → all_bytes is_id_byte id ≡ true → take_token (id ++ bytes "\n") ≡ id
unfolding take_token is_blank all_bytes is_id_byte nat_eq
take_token-line [] h = refl
take_token-line (c ∷ id) h = ground (arith, take_token-line id)

skip_blanks-line :
    (id : Text)
    → id ≢ []
    → all_bytes is_id_byte id ≡ true
    → skip_blanks (id ++ bytes "\n") ≡ id ++ bytes "\n"
unfolding skip_blanks is_blank all_bytes is_id_byte
skip_blanks-line [] n h = absurd (n refl)
skip_blanks-line (c ∷ id) n h = ground arith

abbrev fourth : Text → ℕ
fourth (a ∷ b ∷ c ∷ d ∷ s) = d
fourth _ = 0

file_name-ne-head :
    (id : Text) → (snapshot_file_name id ≢ head_file) × (snapshot_file_name id ≢ tmp_name head_file)
unfolding snapshot_file_name tmp_name
file_name-ne-head [] = (λ e. cc, λ e. cc)
file_name-ne-head (a ∷ []) = (λ e. cc, λ e. cc)
file_name-ne-head (a ∷ b ∷ []) = (λ e. cc, λ e. cc)
file_name-ne-head (a ∷ b ∷ c ∷ []) =
    (λ e. omega (arith, ap fourth e), λ e. omega (arith, ap fourth e))
file_name-ne-head (a ∷ b ∷ c ∷ d ∷ id) = (
  λ e. omega (arith, ap length e, length-append id (bytes ".json")),
  λ e. omega (arith, ap length e, length-append id (bytes ".json")),
)

module _ (L : Library) (law : IsLawful L) (hash : Text → Text)
    (hashes : (s : Text) → Validation.snapshot_id (hash s) ≡ ok tt) where
  head_of-written :
      (s : Text) (disk : Disk)
      → lookup head_file disk.files ≡ some (hash s ++ bytes "\n")
      → head_of disk ≡ some (hash s)
  unfolding head_of is_empty
  head_of-written s disk h =
      let (nonempty, _, hex) = (snapshot_id_iff (hash s)).0 (hashes s) in
      let line = skip_blanks-line (hash s) nonempty hex in
      let token = take_token-line (hash s) hex in
      rw (h, head_of) (rw (line, token) (ground (arith, is_empty_nil (hash s))))

  abbrev written : SnapshotPayload → Option Text → ℤ → SnapshotTrigger → SnapshotReason → Snapshot
  written payload parent now trigger reason = record {
    meta = record (meta_written (hash (canonical_payload L payload)) parent now trigger reason) {
      entry_count = length payload.entries;
      modprobe_file_count = length payload.modprobe_files;
    };
    payload = payload;
  }

  verify-written :
      (payload : SnapshotPayload) (parent : Option Text) (now : ℤ) (trigger : SnapshotTrigger)
      (reason : SnapshotReason) (store : JsonStore)
      → in_int64 now ≡ true
      → Timely payload.entries
      → let id = hash (canonical_payload L payload) in
        verify L hash id
          (snapshot_file_name id)
          (document id parent now trigger reason payload)
          payload
          store
        ≡ (ok (written payload parent now trigger reason), store)
  unfolding verify
  verify-written payload parent now trigger reason store timed timely =
      let id = hash (canonical_payload L payload) in
      ground
        (arith, best_effort_meta-document id id parent now trigger reason payload timed, eq_refl id)

  -- The read of a document that `put` wrote.
  read_written :
      (payload : SnapshotPayload) (parent : Option Text) (now : ℤ) (trigger : SnapshotTrigger)
      (reason : SnapshotReason) (store : JsonStore)
      → in_int64 now ≡ true
      → Timely payload.entries
      → let id = hash (canonical_payload L payload) in
        let doc = document id parent now trigger reason payload in
        is_map payload.modprobe_files ≡ true
        → is_printable L.utf8 doc ≡ true
        → ltb json_max_bytes (length (L.dump_pretty doc)) ≡ false
        → lookup (snapshot_file_name id) store.disk.files ≡ some (L.dump_pretty doc)
        → (read L hash id store).0 ≡ ok (written payload parent now trigger reason)
  unfolding read read_document verify parse_file to_int32
  read_written payload parent now trigger reason store timed timely sorted printable small h =
      let id = hash (canonical_payload L payload) in
      let doc = document id parent now trigger reason payload in
      let (version, found) = document-fields id parent now trigger reason payload in
      let parsed : parse_file L (L.dump_pretty doc) ≡ some doc =
        rw small (law.parse-dump_pretty doc printable) in
      rw (h, read)
        (rw (parsed, read)
          (rw (version, read)
            (rw (found, read_document)
              (rw (payload_from_json-payload_to_json payload timely sorted, read_document)
                (ap (λ r. r.0)
                  (verify-written payload parent now trigger reason store timed timely))))))

  put_new-read :
      (payload : SnapshotPayload) (now : ℤ) (trigger : SnapshotTrigger) (reason : SnapshotReason)
      (store : JsonStore)
      → in_int64 now ≡ true
      → Timely payload.entries
      → let id = hash (canonical_payload L payload) in
        let doc = document id (head_of store.disk) now trigger reason payload in
        is_map payload.modprobe_files ≡ true
        → is_printable L.utf8 doc ≡ true
        → ltb json_max_bytes (length (L.dump_pretty doc)) ≡ false
        → contains (snapshot_file_name id) store.disk.files ≡ false
        → (put_new L hash id payload trigger reason now store).0 ≡ ok id
        → (read L hash id (put_new L hash id payload trigger reason now store).1).0
          ≡ ok (written payload (head_of store.disk) now trigger reason)
  unfolding put_new
  put_new-read payload now trigger reason store timed timely sorted printable small fresh done =
      let text = canonical_payload L payload in
      let id = hash text in
      let file = snapshot_file_name id in
      let doc = document id (head_of store.disk) now trigger reason payload in
      let first = write_file file (L.dump_pretty doc) store.disk in
      let second = write_file head_file (id ++ bytes "\n") first.1 in
      let moved = record store { disk = second.1 } in
      elim (Result-cases first.0) [
        | inr (x, e) ↦ absurd (ground arith)
        | inl (_, e) ↦ elim (Result-cases second.0) [
          | inr (x, f) ↦ absurd (ground arith)
          | inl (_, f) ↦
              let (other, other_tmp) = file_name-ne-head id in
              let there : lookup file moved.disk.files ≡ some (L.dump_pretty doc) = ground (
                arith,
                lookup-write_file head_file (id ++ bytes "\n") first.1 file other_tmp f,
                lookup-write_file_self file (L.dump_pretty doc) store.disk e,
              ) in
              let head =
                head_of-written text second.1
                  (lookup-write_file_self head_file (id ++ bytes "\n") first.1 f) in
              let good =
                read_written payload (head_of store.disk) now trigger reason moved timed timely
                  sorted printable small there in
              rw (fresh, put_new)
                (rw (e, put_new) (rw (f, put_new) (read-prune L hash id moved _ head good)))
        ]
      ]

  -- A put of a payload that is not there yet, and that succeeds, reports an id under which the read that
  -- follows finds the payload, with the trigger, the reason, the time and, as its parent, what HEAD named
  -- before. The files are a map, the times fit `std::int64_t`, and the document is text that the library
  -- prints, of a megabyte at most.
  pub read-put :
      (payload : SnapshotPayload) (now : ℤ) (trigger : SnapshotTrigger) (reason : SnapshotReason)
      (store : JsonStore)
      → in_int64 now ≡ true
      → Timely payload.entries
      → let id = hash (canonical_payload L payload) in
        let doc = document id (head_of store.disk) now trigger reason payload in
        is_map payload.modprobe_files ≡ true
        → is_printable L.utf8 doc ≡ true
        → ltb json_max_bytes (length (L.dump_pretty doc)) ≡ false
        → contains (snapshot_file_name id) store.disk.files ≡ false
        → head_of store.disk ≢ some id
        → (put L hash payload trigger reason now store).0 ≡ ok id
        → let after = (put L hash payload trigger reason now store).1 in
          (snap : Snapshot) × ((read L hash id after).0 ≡ ok snap)
          × (snap.payload ≡ payload)
          × (snap.meta.parent ≡ head_of store.disk)
          × (snap.meta.trigger ≡ trigger)
          × (snap.meta.reason ≡ reason)
          × (snap.meta.created_at_utc ≡ now)
  unfolding put put_new
  read-put payload now trigger reason store timed timely sorted printable small fresh moved done =
      let id = hash (canonical_payload L payload) in
      let apart : (head_of store.disk == some id) ≡ false = ground arith in
      let good =
        put_new-read payload now trigger reason store timed timely sorted printable small fresh
          (rw apart at done) in
      (
        written payload (head_of store.disk) now trigger reason,
        rw (apart, put) good,
        refl,
        refl,
        refl,
        refl,
        refl,
      )
