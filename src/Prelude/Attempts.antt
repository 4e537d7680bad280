-- ===== src/Prelude/Attempts.antt =====
-- Code that may raise gives `ok` with its value or `raise` with the exception, of type `E`.
use mathlib.Core.Path.{◌≡◌, refl}
use mathlib.Core.Bool.{Bool, true, false}

pub data Attempt {ℓ} (E A : Type ℓ) : Type ℓ where
  raise : E → Attempt E A
  ok : A → Attempt E A

module _ {ℓ} {E A B : Type ℓ} where
  infixl 5 ◌>>=◌
  abbrev pub ◌>>=◌ : Attempt E A → (A → Attempt E B) → Attempt E B
  raise problem >>= next = raise problem
  ok value >>= next = next value

  -- A chain that gives a value: so did its first part, and the rest from there.
  pub >>=_returns :
      (first : Attempt E A) (next : A → Attempt E B) {result : B}
      → (first >>= next) ≡ ok result
      → (value : A) × (first ≡ ok value) × (next value ≡ ok result)
  >>=_returns (raise problem) next returns = cc
  >>=_returns (ok value) next returns = (value, refl, returns)

module _ {E : Type 0} where
  infixl 5 ◌>>◌
  abbrev pub ◌>>◌ : {B : Type 0} → Attempt E (Unit {0}) → Attempt E B → Attempt E B
  first >> next = first >>= (λ _. next)

  -- `if not condition: raise problem`
  abbrev pub guard : Bool → E → Attempt E (Unit {0})
  guard false problem = raise problem
  guard true problem = ok tt
