-- ===== src/Daemon/StateStore/Persistence.antt =====
-- What a restart finds: the saved entries, or the evidence of a corrupt file.
use cross_device_manager.Base.{
  ℕ, ◌≡◌, ◌⊎◌, sym, subst, refl, inl, inr, true, false, none, some, List, [], ◌∷◌, map, Text, bytes,
  Option-cases, All, All-map, text_eq, nat_eq,
}
use cross_device_manager.Base.Result.{ok}
use cross_device_manager.Base.Dict.{lookup, contains}
use cross_device_manager.Models.{DisabledDeviceEntry}
use cross_device_manager.Json.{
  Library, IsLawful, is_printable, items_printable, in_int64, fits_int64, items_of, is_ascii,
}
use cross_device_manager.Daemon.EntryJson.{entry_to_json, entries_from_items-items_of}
use cross_device_manager.Daemon.AtomicFile.Quarantine.{
  quarantine_file_total, quarantine_file_failed, bad_name,
}
use cross_device_manager.Daemon.Disk.{next_faults}
use cross_device_manager.Daemon.Disk.Writes.{lookup-write_file_self}
use cross_device_manager.Daemon.StateStore.{
  StateStore, upsert, upsert_entry, state_document, state_file, save, load, entries_of_text,
  quarantine_state,
}

-- The entries whose texts and number the printer takes.
pub record IsStorable (L : Library) (e : DisabledDeviceEntry) : Type 0 where
  pub bus : L.utf8 e.key.bus ≡ true
  pub vendor_id : L.utf8 e.key.vendor_id ≡ true
  pub product_id : L.utf8 e.key.product_id ≡ true
  pub serial : L.utf8 e.key.serial ≡ true
  pub position : L.utf8 e.key.position ≡ true
  pub mechanism : L.utf8 e.mechanism ≡ true
  pub last_driver : L.utf8 e.last_driver ≡ true
  pub last_sysfs_path : L.utf8 e.last_sysfs_path ≡ true
  pub disabled_at_utc : in_int64 e.disabled_at_utc ≡ true

module _ (L : Library) (law : IsLawful L) where
  entry_printable :
      (e : DisabledDeviceEntry) → IsStorable L e → is_printable L.utf8 (entry_to_json e) ≡ true
  unfolding entry_to_json is_printable text_eq nat_eq is_ascii
  entry_printable e s = rw (
    law.utf8_ascii (bytes "bus") refl,
    law.utf8_ascii (bytes "disabled_at_utc") refl,
    law.utf8_ascii (bytes "guard_suspended") refl,
    law.utf8_ascii (bytes "last_driver") refl,
    law.utf8_ascii (bytes "last_sysfs_path") refl,
    law.utf8_ascii (bytes "mechanism") refl,
    law.utf8_ascii (bytes "position") refl,
    law.utf8_ascii (bytes "product_id") refl,
    law.utf8_ascii (bytes "serial") refl,
    law.utf8_ascii (bytes "vendor_id") refl,
    s.bus,
    s.vendor_id,
    s.product_id,
    s.serial,
    s.position,
    s.mechanism,
    s.last_driver,
    s.last_sysfs_path,
    fits_int64 e.disabled_at_utc s.disabled_at_utc,
  )

  entries_printable :
      (es : List DisabledDeviceEntry)
      → All (IsStorable L) es
      → items_printable L.utf8 (items_of (map entry_to_json es)) ≡ true
  unfolding items_of is_printable
  entries_printable [] s = refl
  entries_printable (e ∷ es) s = rw (entry_printable e s.0, entries_printable es s.1)

  document_printable :
      (es : List DisabledDeviceEntry)
      → All (IsStorable L) es
      → is_printable L.utf8 (state_document es) ≡ true
  unfolding state_document is_printable text_eq nat_eq is_ascii
  document_printable es s = rw (
    law.utf8_ascii (bytes "entries") refl,
    law.utf8_ascii (bytes "version") refl,
    entries_printable es s,
  )

  entries_of_text-dump :
      (es : List DisabledDeviceEntry)
      → All (IsStorable L) es
      → entries_of_text L (L.dump_pretty (state_document es)) ≡ some es
  unfolding entries_of_text state_document nat_eq text_eq
  entries_of_text-dump es s =
      rw (law.parse-dump_pretty (state_document es) (document_printable es s))
        (entries_from_items-items_of es (All-map _ _ es (λ e k. k.disabled_at_utc) s))

  -- A store whose save succeeded is found again by the next start, entry for entry, whatever was in
  -- memory; the directory is left as it is.
  pub load-save :
      (now : ℕ) (s : StateStore) (before : List DisabledDeviceEntry)
      → All (IsStorable L) s.entries
      → (save L s).0 ≡ ok tt
      → load L now (record { entries = before; disk = (save L s).1.disk }) ≡ (save L s).1
  unfolding load save
  load-save now s before storable saved =
      let text = L.dump_pretty (state_document s.entries) in
      rw (lookup-write_file_self state_file text s.disk saved, load)
        (rw (entries_of_text-dump s.entries storable, load) refl)

-- Let the state file hold a text. A start leaves every other file as it is (a name that no file had
-- may be taken). Either the text still
-- stands under its own name, and then it was read as a list of entries or the rename of the
-- quarantine fails; or the state file is gone, and the text stands under a name of the quarantine, the
-- time behind `.bad-` and perhaps a number, that was free.
pub load_keeps_evidence :
    (L : Library) (now : ℕ) (s : StateStore) (text j : Text)
    → lookup state_file s.disk.files ≡ some text
    → let after = (load L now s).disk.files in
      ((j ≡ state_file)
        ⊎ ((contains j s.disk.files ≡ false) ⊎ (lookup j after ≡ lookup j s.disk.files)))
      × (((lookup state_file after ≡ some text)
            × (((es : List DisabledDeviceEntry) × (entries_of_text L text ≡ some es))
                ⊎ ((message : Text) × ((next_faults s.disk.coming).rename_error ≡ some message))))
          ⊎ ((lookup state_file after ≡ none)
              × (n : ℕ) × (contains (bad_name state_file now n) s.disk.files ≡ false)
              × (lookup (bad_name state_file now n) after ≡ some text)))
unfolding load quarantine_state contains
load_keeps_evidence L now s text j h = elim (Option-cases (entries_of_text L text)) [
  | inr (es, e) ↦ (
    inr (inr (rw (h, load) (rw (e, load) refl))),
    inl (rw (h, load) (rw (e, load) h), inl (es, e)),
  )
  | inl e ↦ elim (Option-cases (next_faults s.disk.coming).rename_error) [
    | inr (message, f) ↦
        let (bad, q) = quarantine_file_failed now message state_file s.disk.files in
        (
          inr (inr (rw (h, load) (rw (e, load) (rw (f, q, quarantine_state) refl)))),
          inl (rw (h, load) (rw (e, load) (rw (f, q, quarantine_state) h)), inr (message, f)),
        )
    | inl f ↦
        let (bad, after, q, (n, named), free, kept, gone, elsewhere) =
          quarantine_file_total now state_file text j s.disk.files h in
        (
          elim elsewhere [
            | inl b ↦ inr (inl (subst (λ k. contains k s.disk.files ≡ false) (sym b) free))
            | inr (inl b) ↦ inl b
            | inr (inr b) ↦ inr (inr (rw (h, load) (rw (e, load) (rw (f, q, quarantine_state) b))))
          ],
          inr (
            rw (h, load) (rw (e, load) (rw (f, q, quarantine_state) gone)),
            n,
            subst (λ b. contains b s.disk.files ≡ false) named free,
            rw (h, load)
                (rw (e, load)
                  (rw (f, q, quarantine_state)
                    (subst (λ b. lookup b after ≡ some text) named kept))),
          ),
        )
  ]
]

-- A save that succeeds leaves the list in memory on disk; so does each method that ends in one.
pub save_persists :
    (L : Library) (s : StateStore)
    → (save L s).0 ≡ ok tt
    → lookup state_file (save L s).1.disk.files
      ≡ some (L.dump_pretty (state_document (save L s).1.entries))
unfolding save
save_persists L s h = lookup-write_file_self state_file _ s.disk h

pub upsert_persists :
    (L : Library) (entry : DisabledDeviceEntry) (s : StateStore)
    → (upsert L entry s).0 ≡ ok tt
    → lookup state_file (upsert L entry s).1.disk.files
      ≡ some (L.dump_pretty (state_document (upsert L entry s).1.entries))
unfolding upsert
upsert_persists L entry s h =
    save_persists L (record s { entries = upsert_entry entry s.entries }) h
