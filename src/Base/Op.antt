-- ===== src/Base/Op.antt =====
-- Methods with state: from the state to the result and the state that they leave.
use cross_device_manager.Base.Result.{Result, ok, err}

abbrev pub Op : Type 0 → Type 0 → Type 0
Op S A = S → Result A × S

module _ {S : Type 0} where
  infixl 5 ◌>>=◌ ◌>>◌
  -- The second step runs in the state that the first one leaves, and not at all after an error.
  abbrev pub bind : {A B : Type 0} → Result A × S → (A → Op S B) → Result B × S
  bind (ok a, s) f = f a s
  bind (err e, s) f = (err e, s)

  abbrev pub ◌>>=◌ : {A B : Type 0} → Op S A → (A → Op S B) → Op S B
  ◌>>=◌ m f s = bind (m s) f

  abbrev pub ◌>>◌ : {A B : Type 0} → Op S A → Op S B → Op S B
  ◌>>◌ m k s = bind (m s) (λ _. k)

  abbrev pub pure : {A : Type 0} → A → Op S A
  pure a s = (ok a, s)

  -- A check that reads nothing of the state.
  abbrev pub lift : {A : Type 0} → Result A → Op S A
  lift r s = (r, s)

  -- A check that reads the state.
  abbrev pub reads : {A : Type 0} → (S → Result A) → Op S A
  reads f s = (f s, s)
