-- ===== src/Real.antt =====
-- Python's floats: the operations that the code uses, over a type `F`. Proofs that need more than
-- the operations take `OrderLaws` as a hypothesis.
use goderash.Common.{String, Bool, true, false, List, Option, ◌≡◌}
use goderash.Int.{ℤ}

pub record Real (F : Type 0) : Type 0 where
  -- 0.0
  pub zero : F
  pub of_int : ℤ → F
  pub add : F → F → F
  pub sub : F → F → F
  -- `sum(l)`; a field, as its rounding depends on Python's version
  pub sum : List F → F
  -- a < b
  pub lt : F → F → Bool
  -- a <= b
  pub le : F → F → Bool
  -- x == 0.0
  pub is_zero : F → Bool
  -- float(s), where it raises no ValueError
  pub parse : String → Option F
  -- f"{x:.2f}"
  pub fixed : F → String

-- The order of the finite floats.
pub record OrderLaws {F : Type 0} (real : Real F) : Type 0 where
  pub lt_irrefl : (a : F) → real.lt a a ≡ false
  pub lt_trans : (a b c : F) → real.lt a b ≡ true → real.lt b c ≡ true → real.lt a c ≡ true
  -- If a is not below b and b not below c, then a is not below c.
  pub not_lt_trans : (a b c : F) → real.lt a b ≡ false → real.lt b c ≡ false → real.lt a c ≡ false
