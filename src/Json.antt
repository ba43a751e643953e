-- ===== src/Json.antt =====
-- The values that Python's `json` reads and writes, over a type `F` of floats. A dictionary keeps
-- its entries in insertion order.
use goderash.Common.{String, str_eq, Bool, Option, none, some, List, [], ◌∷◌, if◌then◌else◌}
use goderash.Int.{ℤ}

mutual
  pub data Json (F : Type 0) : Type 0 where
    null : Json F
    bool : Bool → Json F
    int : ℤ → Json F
    float : F → Json F
    str : String → Json F
    arr : Items F → Json F
    obj : Fields F → Json F

  pub data Items (F : Type 0) : Type 0 where
    nil : Items F
    cons : Json F → Items F → Items F

  pub data Fields (F : Type 0) : Type 0 where
    end : Fields F
    field : String → Json F → Fields F → Fields F

module _ {F : Type 0} where
  -- `d.get(key)`
  unfoldable pub get : String → Fields F → Option (Json F)
  get key end = none
  get key (field k v rest) = if str_eq k key then some v else get key rest

  abbrev pub dict : List (String × Json F) → Fields F
  dict [] = end
  dict ((k, v) ∷ rest) = field k v (dict rest)

  -- A list of texts.
  abbrev pub texts : List String → Items F
  texts [] = nil
  texts (s ∷ rest) = cons (str s) (texts rest)

  -- A value that may be None.
  abbrev pub optional {ℓ} : {A : Type ℓ} → (A → Json F) → Option A → Json F
  optional f none = null
  optional f (some a) = f a
