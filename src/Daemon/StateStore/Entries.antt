-- ===== src/Daemon/StateStore/Entries.antt =====
-- The entry list as a map from keys: what each method does to it, and that no key stands twice.
use cross_device_manager.Base.{
  ◌≡◌, ◌≢◌, refl, inl, inr, Bool, Option, none, some, List, [], ◌∷◌, ◌++◌, arith, ◌==◌,
  if◌then◌else◌, Option-cases, Text, bytes,
}
use cross_device_manager.Base.Result.{make_error, not_found}
use cross_device_manager.Models.{DeviceKey, DisabledDeviceEntry, key_eq}
use cross_device_manager.Json.{Library}
use cross_device_manager.Daemon.StateStore.{
  StateStore, update_entry, upsert_entry, erase_key, upsert, remove, modify, set_guard_suspended,
  set_last_sysfs_path,
}

unfoldable pub find_key : DeviceKey → List DisabledDeviceEntry → Option DisabledDeviceEntry
find_key k [] = none
find_key k (e ∷ es) = if e.key == k then some e else find_key k es

-- No key stands twice.
abbrev pub UniqueKeys : List DisabledDeviceEntry → Type 0
UniqueKeys [] = Unit
UniqueKeys (e ∷ es) = (find_key e.key es ≡ none) × UniqueKeys es

abbrev pub KeepsKey : (DisabledDeviceEntry → DisabledDeviceEntry) → DeviceKey → Type 0
KeepsKey f key = (e : DisabledDeviceEntry) → e.key ≡ key → (f e).key ≡ key

update_entry-none :
    (key : DeviceKey) (f : DisabledDeviceEntry → DisabledDeviceEntry)
    (es : List DisabledDeviceEntry)
    → update_entry key f es ≡ none
    → find_key key es ≡ none
unfolding update_entry find_key
update_entry-none key f [] h = refl
update_entry-none key f (e ∷ es) h = ground (arith, update_entry-none key f es)

find_key-update_entry :
    (key k : DeviceKey) (f : DisabledDeviceEntry → DisabledDeviceEntry)
    (es es' : List DisabledDeviceEntry)
    → KeepsKey f key
    → update_entry key f es ≡ some es'
    → find_key k es' ≡ (
        if key == k
        then elim (find_key k es) [ none ↦ none | some e ↦ some (f e) ]
        else find_key k es)
unfolding update_entry find_key
find_key-update_entry key k f [] es' keeps h = absurd (cc)
find_key-update_entry key k f (e ∷ es) es' keeps h = elim (Option-cases (update_entry key f es)) [
  | inl u ↦ ground (arith, keeps e)
  | inr (t, u) ↦ ground (arith, keeps e, find_key-update_entry key k f es t keeps u)
]

update_entry-UniqueKeys :
    (key : DeviceKey) (f : DisabledDeviceEntry → DisabledDeviceEntry)
    (es es' : List DisabledDeviceEntry)
    → KeepsKey f key
    → update_entry key f es ≡ some es'
    → UniqueKeys es
    → UniqueKeys es'
unfolding update_entry
update_entry-UniqueKeys key f [] es' keeps h u = absurd (cc)
update_entry-UniqueKeys key f (e ∷ es) es' keeps h u = elim (Option-cases (update_entry key f es)) [
  | inl n ↦ ground (arith, keeps e)
  | inr (t, n) ↦ ground (
    arith,
    keeps e,
    find_key-update_entry key e.key f es t keeps n,
    update_entry-UniqueKeys key f es t keeps n u.1,
  )
]

find_key-append :
    (k : DeviceKey) (es : List DisabledDeviceEntry) (e : DisabledDeviceEntry)
    → find_key k (es ++ (e ∷ []))
      ≡ elim (find_key k es) [ some x ↦ some x | none ↦ if e.key == k then some e else none ]
unfolding find_key
find_key-append k [] e = refl
find_key-append k (x ∷ es) e = ground (arith, find_key-append k es e)

append-UniqueKeys :
    (es : List DisabledDeviceEntry) (e : DisabledDeviceEntry)
    → find_key e.key es ≡ none
    → UniqueKeys es
    → UniqueKeys (es ++ (e ∷ []))
unfolding find_key
append-UniqueKeys [] e h u = (refl, tt)
append-UniqueKeys (x ∷ es) e h u =
    ground (arith, find_key-append x.key es e, append-UniqueKeys es e)

update_entry-some :
    (key : DeviceKey) (f : DisabledDeviceEntry → DisabledDeviceEntry)
    (es es' : List DisabledDeviceEntry)
    → update_entry key f es ≡ some es'
    → find_key key es ≢ none
unfolding update_entry find_key
update_entry-some key f [] es' h n = cc
update_entry-some key f (e ∷ es) es' h n = elim (Option-cases (update_entry key f es)) [
  | inl u ↦ ground arith
  | inr (t, u) ↦ ground (arith, update_entry-some key f es t u)
]

-- After an upsert the key has the new entry, and every other key what it had.
pub find_key-upsert_entry :
    (k : DeviceKey) (entry : DisabledDeviceEntry) (es : List DisabledDeviceEntry)
    → find_key k (upsert_entry entry es) ≡ (if entry.key == k then some entry else find_key k es)
unfolding upsert_entry
find_key-upsert_entry k entry es = elim (Option-cases (update_entry entry.key (λ _. entry) es)) [
  | inl n ↦
      rw (n, upsert_entry)
        (ground (arith, find_key-append k es entry, update_entry-none entry.key _ es n))
  | inr (t, n) ↦
      rw (n, upsert_entry)
        (ground (
          arith,
          find_key-update_entry entry.key k (λ _. entry) es t (λ e h. refl) n,
          update_entry-some entry.key (λ _. entry) es t n,
        ))
]

upsert_entry-UniqueKeys :
    (entry : DisabledDeviceEntry) (es : List DisabledDeviceEntry)
    → UniqueKeys es
    → UniqueKeys (upsert_entry entry es)
unfolding upsert_entry
upsert_entry-UniqueKeys entry es u = elim (Option-cases (update_entry entry.key (λ _. entry) es)) [
  | inl n ↦ rw (n, upsert_entry) (append-UniqueKeys es entry (update_entry-none entry.key _ es n) u)
  | inr (t, n) ↦ rw (n, upsert_entry) (update_entry-UniqueKeys entry.key _ es t (λ e h. refl) n u)
]

-- After a removal the key has no entry, and every other key what it had.
pub find_key-erase_key :
    (k key : DeviceKey) (es : List DisabledDeviceEntry)
    → find_key k (erase_key key es) ≡ (if key == k then none else find_key k es)
unfolding erase_key find_key
find_key-erase_key k key [] = ground arith
find_key-erase_key k key (e ∷ es) = ground (arith, find_key-erase_key k key es)

erase_key-UniqueKeys :
    (key : DeviceKey) (es : List DisabledDeviceEntry)
    → UniqueKeys es
    → UniqueKeys (erase_key key es)
unfolding erase_key
erase_key-UniqueKeys key [] u = tt
erase_key-UniqueKeys key (e ∷ es) u =
    ground (arith, find_key-erase_key e.key key es, erase_key-UniqueKeys key es u.1)

abbrev pub keys_of : List DisabledDeviceEntry → List DeviceKey
keys_of [] = []
keys_of (e ∷ es) = e.key ∷ keys_of es

update_entry-keys_of :
    (key : DeviceKey) (f : DisabledDeviceEntry → DisabledDeviceEntry)
    (es es' : List DisabledDeviceEntry)
    → KeepsKey f key
    → update_entry key f es ≡ some es'
    → keys_of es' ≡ keys_of es
unfolding update_entry
update_entry-keys_of key f [] es' keeps h = absurd (cc)
update_entry-keys_of key f (e ∷ es) es' keeps h = elim (Option-cases (update_entry key f es)) [
  | inl n ↦ ground (arith, keeps e)
  | inr (t, n) ↦ ground (arith, keeps e, update_entry-keys_of key f es t keeps n)
]

module _ (L : Library) where
  modify-UniqueKeys :
      (key : DeviceKey) (f : DisabledDeviceEntry → DisabledDeviceEntry) (s : StateStore)
      → KeepsKey f key
      → UniqueKeys s.entries
      → UniqueKeys (modify L key f s).1.entries
  unfolding modify
  modify-UniqueKeys key f s keeps u = elim (Option-cases (update_entry key f s.entries)) [
    | inl n ↦ rw (n, modify) u
    | inr (t, n) ↦ rw (n, modify) (update_entry-UniqueKeys key f s.entries t keeps n u)
  ]

  -- The methods that the verbs and the enforcement call keep the keys distinct, whether or not the
  -- write to disk succeeds.
  pub methods-UniqueKeys :
      (entry : DisabledDeviceEntry) (key : DeviceKey) (suspended : Bool) (path : Text)
      (s : StateStore)
      → UniqueKeys s.entries
      → UniqueKeys (upsert L entry s).1.entries
        × UniqueKeys (remove L key s).1.entries
        × UniqueKeys (set_guard_suspended L key suspended s).1.entries
        × UniqueKeys (set_last_sysfs_path L key path s).1.entries
  unfolding upsert remove set_guard_suspended set_last_sysfs_path
  methods-UniqueKeys entry key suspended path s u = (
    upsert_entry-UniqueKeys entry s.entries u,
    erase_key-UniqueKeys key s.entries u,
    modify-UniqueKeys key _ s (λ e h. h) u,
    modify-UniqueKeys key _ s (λ e h. h) u,
  )

  -- What the store knows of a key after each method, also where the write to disk fails: the new
  -- entry after an upsert, nothing after a removal, the changed entry after a modification, and for
  -- the other keys what it knew.
  pub find_key-methods :
      (entry : DisabledDeviceEntry) (key k : DeviceKey) (suspended : Bool) (s : StateStore)
      → (find_key k (upsert L entry s).1.entries
          ≡ (if entry.key == k then some entry else find_key k s.entries))
        × (find_key k (remove L key s).1.entries
            ≡ (if key == k then none else find_key k s.entries))
        × (find_key k (set_guard_suspended L key suspended s).1.entries ≡ (
            if key == k
            then elim (find_key k s.entries) [
              | none ↦ none
              | some e ↦ some (record e { guard_suspended = suspended })
            ]
            else find_key k s.entries))
  unfolding upsert remove set_guard_suspended modify
  find_key-methods entry key k suspended s = (
    find_key-upsert_entry k entry s.entries,
    find_key-erase_key k key s.entries,
    elim (Option-cases
        (update_entry key (λ e. record e { guard_suspended = suspended }) s.entries)) [
          | inl n ↦ rw (n, modify) (ground (arith, update_entry-none key _ s.entries n))
          | inr (t, n) ↦ rw (n, modify) (find_key-update_entry key k _ s.entries t (λ e h. h) n)
        ],
  )

  -- A modification of a key that has no entry is refused as `NotFound` and changes nothing, on disk
  -- neither.
  pub modify_missing :
      (key : DeviceKey) (suspended : Bool) (path : Text) (s : StateStore)
      → find_key key s.entries ≡ none
      → (set_guard_suspended L key suspended s
          ≡ (make_error not_found (bytes "no entry for key"), s))
        × (set_last_sysfs_path L key path s ≡ (make_error not_found (bytes "no entry for key"), s))
  unfolding set_guard_suspended set_last_sysfs_path modify
  modify_missing key suspended path s h = (missing _, missing _)
    where
      missing :
          (f : DisabledDeviceEntry → DisabledDeviceEntry)
          → modify L key f s ≡ (make_error not_found (bytes "no entry for key"), s)
      missing f = elim (Option-cases (update_entry key f s.entries)) [
        | inl n ↦ rw (n, modify) refl
        | inr (t, n) ↦ absurd (update_entry-some key f s.entries t n h)
      ]

  modify-keys_of :
      (key : DeviceKey) (f : DisabledDeviceEntry → DisabledDeviceEntry) (s : StateStore)
      → KeepsKey f key
      → keys_of (modify L key f s).1.entries ≡ keys_of s.entries
  unfolding modify
  modify-keys_of key f s keeps = elim (Option-cases (update_entry key f s.entries)) [
    | inl n ↦ rw (n, modify) refl
    | inr (t, n) ↦ rw (n, modify) (update_entry-keys_of key f s.entries t keeps n)
  ]

  -- The two modifications keep the list of keys as it is.
  pub keys_of-set_guard_suspended :
      (key : DeviceKey) (suspended : Bool) (s : StateStore)
      → keys_of (set_guard_suspended L key suspended s).1.entries ≡ keys_of s.entries
  unfolding set_guard_suspended
  keys_of-set_guard_suspended key suspended s = modify-keys_of key _ s (λ e h. h)

  pub keys_of-set_last_sysfs_path :
      (key : DeviceKey) (path : Text) (s : StateStore)
      → keys_of (set_last_sysfs_path L key path s).1.entries ≡ keys_of s.entries
  unfolding set_last_sysfs_path
  keys_of-set_last_sysfs_path key path s = modify-keys_of key _ s (λ e h. h)
