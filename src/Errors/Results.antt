-- ===== src/Errors/Results.antt =====
-- The pair `(value, error)` of a Go function that returns one or the other.
use stricklysoft_core.Errors.{GoError}

pub data Result {ℓ} (T : Type ℓ) : Type ℓ where
  ok : T → Result T
  err : GoError → Result T

module _ {ℓ κ} {T : Type ℓ} {U : Type κ} where
  infixl 10 ◌>>=◌
  -- `v, err := m; if err != nil { return nil, err }`, then the rest
  abbrev pub ◌>>=◌ : Result T → (T → Result U) → Result U
  ◌>>=◌ (ok value) rest = rest value
  ◌>>=◌ (err e) rest = err e
