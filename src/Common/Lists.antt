-- ===== src/Common/Lists.antt =====
-- Lists measured by native numbers, under the library's names.
use Prim.Native.Nat.{ℕ, zero, suc, ◌+◌}
use mathlib.Core.Path.{◌≡◌, refl, ap}
use mathlib.Core.Bool.{Bool, true, false}
use mathlib.Core.List.{List, [], ◌∷◌, ◌++◌, map}
use native.Mathlib.Omega.{arith}
use goderash.Common.Tests.{if◌then◌else◌}

module _ {ℓ} {A : Type ℓ} where
  abbrev pub length : List A → ℕ
  length [] = 0
  length (x ∷ xs) = suc (length xs)

  abbrev pub take : ℕ → List A → List A
  take zero xs = []
  take (suc n) [] = []
  take (suc n) (x ∷ xs) = x ∷ take n xs

  -- `[x for x in xs if p(x)]`
  abbrev pub keep : (A → Bool) → List A → List A
  keep p [] = []
  keep p (x ∷ xs) = let rest = keep p xs in if p x then x ∷ rest else rest

  abbrev pub any : (A → Bool) → List A → Bool
  any p [] = false
  any p (x ∷ xs) = if p x then true else any p xs

  pub length-append : (xs ys : List A) → length (xs ++ ys) ≡ length xs + length ys
  length-append [] ys = omega arith
  length-append (x ∷ xs) ys = omega (arith, length-append xs ys)

  pub keep-append : (p : A → Bool) (xs ys : List A) → keep p (xs ++ ys) ≡ keep p xs ++ keep p ys
  keep-append p [] ys = refl
  keep-append p (x ∷ xs) ys = ground (arith, keep-append p xs ys)

module _ {ℓ} {A : Type ℓ} where
  pub length-map {κ} : {B : Type κ} (xs : List A) (f : A → B) → length (map f xs) ≡ length xs
  length-map [] f = refl
  length-map (x ∷ xs) f = ap suc (length-map xs f)

module _ {A : Type 0} (p : A → Bool) where
  pub any_left : (xs ys : List A) → any p xs ≡ true → any p (xs ++ ys) ≡ true
  any_left [] ys h = cc
  any_left (x ∷ xs) ys h = ground (arith, any_left xs ys)

  pub any_last : (xs : List A) (y : A) → p y ≡ true → any p (xs ++ y ∷ []) ≡ true
  any_last [] y h = ground arith
  any_last (x ∷ xs) y h = ground (arith, any_last xs y h)

  pub any_none :
      (xs : List A) (y : A) → any p xs ≡ false → p y ≡ false → any p (xs ++ y ∷ []) ≡ false
  any_none [] y h k = ground arith
  any_none (x ∷ xs) y h k = ground (arith, any_none xs y)

  pub keep_last :
      (xs : List A) (y : A) → keep p xs ≡ [] → p y ≡ true → keep p (xs ++ y ∷ []) ≡ y ∷ []
  keep_last xs y h k = rw (keep-append p xs (y ∷ []), h, k) refl
