-- ===== src/Validation/Charset.antt =====
-- What an accepted argument cannot contain.
use cross_device_manager.Base.{
  ℕ, ◌≤◌, ◌≡◌, ◌≢◌, ◌↔◌, ◌⊎◌, refl, Bool, true, false, [], ◌∷◌, Text, arith, is_empty, all_bytes,
  has_byte, length, nat_eq,
}
use cross_device_manager.Base.Result.{ok, err, invalid_args, Error}
use cross_device_manager.Validation.{
  caller, name, sysfs_path, snapshot_id, snapshot_label, json_size, is_name_byte, is_id_byte,
}

-- A text of bytes that pass a test has no byte that fails it.
pub has_byte_none :
    (p : ℕ → Bool) (c : ℕ) (s : Text) → p c ≡ false → all_bytes p s ≡ true → has_byte c s ≡ false
unfolding all_bytes has_byte
has_byte_none p c [] h e = refl
has_byte_none p c (x ∷ s) h e = ground (arith, has_byte_none p c s h)

-- A module or driver name is accepted exactly if it has 1 to 63 bytes, all of them letters, digits,
-- `_` and `-`.
pub name_iff :
    (value what : Text)
    → (name value what ≡ ok tt)
      ↔ ((value ≢ []) × (length value ≤ 63) × (all_bytes is_name_byte value ≡ true))
unfolding name is_empty
name_iff [] what = (λ h. cc, λ h. absurd (h.0 refl))
name_iff (c ∷ s) what = (λ h. ground arith, λ h. ground arith)

-- So it holds no `/`, no `.`, no blank and no NUL, and stays one component of a path.
pub name_is_component :
    (value what : Text)
    → name value what ≡ ok tt
    → (has_byte b'/' value ≡ false)
      × (has_byte b'.' value ≡ false)
      × (has_byte b' ' value ≡ false)
      × (has_byte 0 value ≡ false)
unfolding is_name_byte nat_eq
name_is_component value what h =
    let (_, _, good) = (name_iff value what).0 h in
    (
      has_byte_none is_name_byte b'/' value refl good,
      has_byte_none is_name_byte b'.' value refl good,
      has_byte_none is_name_byte b' ' value refl good,
      has_byte_none is_name_byte 0 value refl good,
    )

-- A snapshot id is accepted exactly if it has 1 to 64 bytes, all of them lowercase hexadecimal digits.
pub snapshot_id_iff :
    (value : Text)
    → (snapshot_id value ≡ ok tt)
      ↔ ((value ≢ []) × (length value ≤ 64) × (all_bytes is_id_byte value ≡ true))
unfolding snapshot_id is_empty
snapshot_id_iff [] = (λ h. cc, λ h. absurd (h.0 refl))
snapshot_id_iff (c ∷ s) = (λ h. ground arith, λ h. ground arith)

-- The validators refuse with `InvalidArgs` and with no other code.
pub invalid_args_only :
    (value what : Text) (e : Error)
    → ((caller value ≡ err e)
        ⊎ ((name value what ≡ err e)
            ⊎ ((sysfs_path value ≡ err e)
                ⊎ ((snapshot_id value ≡ err e)
                    ⊎ ((snapshot_label value ≡ err e) ⊎ (json_size value ≡ err e))))))
    → e.code ≡ invalid_args
unfolding caller name sysfs_path snapshot_id snapshot_label json_size
invalid_args_only value what e h = ground arith
