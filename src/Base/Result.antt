-- ===== src/Base/Result.antt =====
-- core/include/devmgr/core/result.hpp: `Error`, and `Result<T>` for `tl::expected<T, Error>`.
use mathlib.Core.Path.{◌≡◌, refl}
use mathlib.Core.Logic.{◌⊎◌, inl, inr}
use mathlib.Core.Bool.{Bool, true, false}
use cross_device_manager.Base.Strings.{Text}

pub data Code : Type 0 where
  permission not_found busy io network unsupported conflict invalid_args : Code

pub record Error : Type 0 where
  pub code : Code
  pub message : Text

pub data Result {ℓ} (A : Type ℓ) : Type ℓ where
  ok : A → Result A
  err : Error → Result A

-- `makeError`
abbrev pub make_error {ℓ} : {A : Type ℓ} → Code → Text → Result A
make_error c m = err (record { code = c; message = m })

-- The second step runs after a success only; `>>` is for a check, which gives no value.
module _ {ℓ} {B : Type ℓ} where
  infixl 5 ◌>>=◌ ◌>>◌
  abbrev pub ◌>>=◌ {κ} : {A : Type κ} → Result A → (A → Result B) → Result B
  err reason >>= next = err reason
  ok value >>= next = next value

  abbrev pub ◌>>◌ : Result (Unit {0}) → Result B → Result B
  check >> next = check >>= λ passed. next

-- `if (bad) return makeError(...)`
abbrev pub refuse_if : Bool → Code → Text → Result (Unit {0})
refuse_if true c m = make_error c m
refuse_if false c m = ok tt

-- The value, or what the caller falls back on.
abbrev pub value_or {ℓ} : {A : Type ℓ} → Result A → A → A
value_or (ok a) d = a
value_or (err e) d = d

pub Result-cases {ℓ} :
    {A : Type ℓ} (r : Result A) → ((a : A) × (r ≡ ok a)) ⊎ ((e : Error) × (r ≡ err e))
Result-cases (ok a) = inl (a, refl)
Result-cases (err e) = inr (e, refl)
