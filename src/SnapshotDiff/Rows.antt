-- ===== src/SnapshotDiff/Rows.antt =====
-- The rows of a comparison: none for a payload and itself, and each shows two states.
use cross_device_manager.Base.{
  ◌≡◌, ◌≢◌, refl, sym, ◌⊎◌, inl, inr, Option, none, some, List, [], ◌∷◌, Text, text_eq, nat_eq,
  eq_refl, eq_true, eq_false, ◌==◌, arith, All, All-append, Elem, Bool-cases, Option-cases, text_lt,
}
use cross_device_manager.Base.Dict.{lookup}
use cross_device_manager.Base.OrderedMap.{insert_key}
use cross_device_manager.Snapshot.{SnapshotPayload}
use cross_device_manager.SnapshotDiff.{
  SnapshotDiffEntry, States, states_eq, state_or, keys_into, union_keys, device_states,
  module_states, file_module_states, state_rows, file_row, file_rows, diff_devices, diff_modules,
  diff_modprobe_files, diff_payloads, diff_kind_device, diff_kind_module, diff_state_enabled,
  diff_state_absent, diff_state_present, diff_state_edited,
}

state_rows_self :
    (kind fallback : Text) (m : States) (keys : List Text) → state_rows kind fallback m m keys ≡ []
unfolding state_rows
state_rows_self kind fallback m [] = refl
state_rows_self kind fallback m (k ∷ keys) =
    ground (arith, state_rows_self kind fallback m keys, eq_refl (state_or m k fallback))

-- A key of the union has a value in one of the maps.
abbrev pub Known : States → States → Text → Type 0
Known l r k = (lookup k l ≢ none) ⊎ (lookup k r ≢ none)

insert_key-All :
    (P : Text → Type 0) (k : Text) (keys : List Text) → P k → All P keys → All P (insert_key k keys)
unfolding insert_key
insert_key-All P k [] p h = (p, tt)
insert_key-All P k (j ∷ keys) p h = elim (Bool-cases (text_lt k j)) [
  | inl e ↦ rw (e, insert_key) (p, h)
  | inr e ↦ elim (Bool-cases (k == j)) [
    | inl f ↦ rw (e, insert_key) (rw (f, insert_key) h)
    | inr f ↦ rw (e, insert_key) (rw (f, insert_key) (h.0, insert_key-All P k keys p h.1))
  ]
]

keys_into-All :
    (P : Text → Type 0) (m : States) (keys : List Text)
    → ((k : Text) → lookup k m ≢ none → P k)
    → All P keys
    → All P (keys_into m keys)
unfolding keys_into lookup
keys_into-All P [] keys known h = h
keys_into-All P ((k, v) ∷ m) keys known h =
    keys_into-All P m (insert_key k keys)
      (λ j n. known j (λ e. elim (Bool-cases (j == k)) [
        | inl f ↦ absurd (ground arith)
        | inr f ↦ absurd (ground arith)
      ]))
      (insert_key-All P k keys (known k (λ e. ground (arith, eq_refl k))) h)

pub union_keys-Known : (l r : States) → All (Known l r) (union_keys l r)
unfolding union_keys
union_keys-Known l r =
    keys_into-All _ r (keys_into l []) (λ k n. inr n) (keys_into-All _ l [] (λ k n. inl n) tt)

insert_key-Elem :
    (x k : Text) (keys : List Text) → (x ≡ k) ⊎ Elem x keys → Elem x (insert_key k keys)
unfolding insert_key
insert_key-Elem x k [] h = h
insert_key-Elem x k (j ∷ keys) h = elim (Bool-cases (text_lt k j)) [
  | inl e ↦ rw (e, insert_key) h
  | inr e ↦ elim (Bool-cases (k == j)) [
    | inl f ↦
        rw (e, insert_key)
          (rw (f, insert_key) (elim h [ inl same ↦ inl (ground arith) | inr i ↦ i ]))
    | inr f ↦
        rw (e, insert_key)
          (rw (f, insert_key)
            (elim h [
              | inl same ↦ inr (insert_key-Elem x k keys (inl same))
              | inr (inl same) ↦ inl same
              | inr (inr i) ↦ inr (insert_key-Elem x k keys (inr i))
            ]))
  ]
]

keys_into-Elem :
    (x : Text) (m : States) (keys : List Text)
    → (lookup x m ≢ none) ⊎ Elem x keys
    → Elem x (keys_into m keys)
unfolding keys_into lookup
keys_into-Elem x [] keys (inl n) = absurd (n refl)
keys_into-Elem x [] keys (inr i) = i
keys_into-Elem x ((k, v) ∷ m) keys (inr i) =
    keys_into-Elem x m (insert_key k keys) (inr (insert_key-Elem x k keys (inr i)))
keys_into-Elem x ((k, v) ∷ m) keys (inl n) = elim (Bool-cases (x == k)) [
  | inl e ↦
      keys_into-Elem x m (insert_key k keys) (inr (insert_key-Elem x k keys (inl (ground arith))))
  | inr e ↦ keys_into-Elem x m (insert_key k keys) (inl (λ f. n (ground arith)))
]

pub union_keys-Elem : (x : Text) (l r : States) → Known l r x → Elem x (union_keys l r)
unfolding union_keys
union_keys-Elem x l r (inl n) =
    keys_into-Elem x r (keys_into l []) (inr (keys_into-Elem x l [] (inl n)))
union_keys-Elem x l r (inr n) = keys_into-Elem x r (keys_into l []) (inl n)

-- The row of a key and two states.
abbrev pub state_row : Text → Text → States → States → Text → SnapshotDiffEntry
state_row kind fallback before after key = record {
  kind = kind;
  key = key;
  before = state_or before key fallback;
  after = state_or after key fallback;
}

abbrev pub Differs : SnapshotDiffEntry → Type 0
Differs row = row.before ≢ row.after

state_rows-Differs :
    (kind fallback : Text) (before after : States) (keys : List Text)
    → All Differs (state_rows kind fallback before after keys)
unfolding state_rows
state_rows-Differs kind fallback before after [] = tt
state_rows-Differs kind fallback before after (k ∷ keys) =
    elim (Bool-cases (state_or before k fallback == state_or after k fallback)) [
      | inl e ↦ rw (e, state_rows) (state_rows-Differs kind fallback before after keys)
      | inr e ↦
          rw (e, state_rows) (eq_false _ _ e, state_rows-Differs kind fallback before after keys)
    ]

pub state_rows-Elem :
    (kind fallback : Text) (before after : States) (k : Text) (keys : List Text)
    → Elem k keys
    → state_or before k fallback ≢ state_or after k fallback
    → Elem (state_row kind fallback before after k) (state_rows kind fallback before after keys)
unfolding state_rows
state_rows-Elem kind fallback before after k [] i n = elim i [ ]
state_rows-Elem kind fallback before after k (j ∷ keys) i n =
    elim (Bool-cases (state_or before j fallback == state_or after j fallback)) [
      | inl e ↦
          rw (e, state_rows)
            (elim i [
              | inl same ↦ absurd (n (rw same (eq_true _ _ e)))
              | inr i' ↦ state_rows-Elem kind fallback before after k keys i' n
            ])
      | inr e ↦
          rw (e, state_rows)
            (elim i [
              | inl same ↦ inl (rw same refl)
              | inr i' ↦ inr (state_rows-Elem kind fallback before after k keys i' n)
            ])
    ]

-- Where two states differ, the key is known to one of the maps.
pub differ-Known :
    (before after : States) (k fallback : Text)
    → state_or before k fallback ≢ state_or after k fallback
    → Known before after k
unfolding state_or
differ-Known before after k fallback n = elim (Option-cases (lookup k before)) [
  | inr (s, e) ↦ inl (λ f. ground arith)
  | inl e ↦ inr (λ f. n (ground arith))
]

pub states_differ :
    (diff_state_present ≢ diff_state_absent) × (diff_state_present ≢ diff_state_edited)
unfolding text_eq nat_eq
states_differ = (
  eq_false diff_state_present diff_state_absent refl,
  eq_false diff_state_present diff_state_edited refl,
)

file_row-Differs :
    (name : Text) (b a : Option Text) → (b ≢ none) ⊎ (a ≢ none) → All Differs (file_row name b a)
unfolding file_row
file_row-Differs name none none (inl n) = absurd (n refl)
file_row-Differs name none none (inr n) = absurd (n refl)
file_row-Differs name none (some a) known = ((λ e. states_differ.0 (sym e)), tt)
file_row-Differs name (some b) none known = (states_differ.0, tt)
file_row-Differs name (some b) (some a) known = elim (Bool-cases (b == a)) [
  | inl e ↦ rw (e, file_row) tt
  | inr e ↦ elim (Bool-cases (file_module_states b == file_module_states a)) [
    | inl f ↦ rw (e, file_row) (rw (f, file_row) (states_differ.1, tt))
    | inr f ↦ rw (e, file_row) (rw (f, file_row) tt)
  ]
]

file_row_self : (name : Text) (o : Option Text) → o ≢ none → file_row name o o ≡ []
unfolding file_row
file_row_self name none n = absurd (n refl)
file_row_self name (some c) n = rw (eq_refl c, file_row) refl

file_rows-Differs :
    (before after : States) (keys : List Text)
    → All (Known before after) keys
    → All Differs (file_rows before after keys)
unfolding file_rows
file_rows-Differs before after [] known = tt
file_rows-Differs before after (k ∷ keys) known =
    All-append _ (file_row k (lookup k before) (lookup k after)) _
      (file_row-Differs k (lookup k before) (lookup k after) known.0)
      (file_rows-Differs before after keys known.1)

file_rows_self : (m : States) (keys : List Text) → All (Known m m) keys → file_rows m m keys ≡ []
unfolding file_rows
file_rows_self m [] known = refl
file_rows_self m (k ∷ keys) known =
    let n : lookup k m ≢ none = elim known.0 [ inl h ↦ h | inr h ↦ h ] in
    rw (file_row_self k (lookup k m) n) (file_rows_self m keys known.1)

-- A snapshot does not differ from itself: the comparison has no row.
pub diff_payloads_self : (payload : SnapshotPayload) → (diff_payloads payload payload).entries ≡ []
unfolding diff_payloads diff_devices diff_modules diff_modprobe_files
diff_payloads_self payload =
    rw
      (
        state_rows_self diff_kind_device diff_state_enabled (device_states payload.entries)
            (union_keys (device_states payload.entries) (device_states payload.entries)),
        state_rows_self diff_kind_module diff_state_absent (module_states payload.modprobe_files) (
            union_keys (module_states payload.modprobe_files)
              (module_states payload.modprobe_files)),
        file_rows_self payload.modprobe_files
            (union_keys payload.modprobe_files payload.modprobe_files)
            (union_keys-Known payload.modprobe_files payload.modprobe_files),
      )
      refl

-- Every row of a comparison shows two different states.
pub diff_payloads-Differs :
    (base target : SnapshotPayload) → All Differs (diff_payloads base target).entries
unfolding diff_payloads diff_devices diff_modules diff_modprobe_files
diff_payloads-Differs base target =
    All-append _ (diff_devices base target) _ (state_rows-Differs _ _ _ _ _) (
      All-append _ (diff_modules base target) _ (state_rows-Differs _ _ _ _ _) (
        file_rows-Differs base.modprobe_files target.modprobe_files _
          (union_keys-Known base.modprobe_files target.modprobe_files)))
