-- ===== src/Common/Results.antt =====
-- What a call of Python code ends in: a value, or an exception of type `E`.
use mathlib.Core.Path.{◌≡◌, refl}
use mathlib.Core.Logic.{◌⊎◌, inl, inr}

pub data Outcome (E A : Type 0) : Type 0 where
  returned : A → Outcome E A
  raised : E → Outcome E A

module _ {E A B : Type 0} where
  -- The rest of a function, after a call that may raise.
  infixl 5 ◌>>=◌
  abbrev pub ◌>>=◌ : Outcome E A → (A → Outcome E B) → Outcome E B
  returned value >>= rest = rest value
  raised exc >>= rest = raised exc

  pub bind_returns :
      {result : B} (call : Outcome E A) (rest : A → Outcome E B)
      → (call >>= rest) ≡ returned result
      → (value : A) × (call ≡ returned value) × (rest value ≡ returned result)
  bind_returns (returned value) rest eq = (value, refl, eq)
  bind_returns (raised exc) rest eq = cc

pub Outcome-cases :
    {E A : Type 0} (o : Outcome E A) → ((a : A) × (o ≡ returned a)) ⊎ ((e : E) × (o ≡ raised e))
Outcome-cases (returned a) = inl (a, refl)
Outcome-cases (raised e) = inr (e, refl)
