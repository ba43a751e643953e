-- ===== src/WhatIf.antt =====
-- goderash_core/whatif/projector.py: replay of a tenant's events under another policy. Payloads are
-- JSON; `python_str` is Python's `str` of a value that is no text, `int_text` of a whole number,
-- for reasons. Caps on counts are not negative.
pub mod Projector
pub mod Summary
pub mod Caps
pub mod NoOverride
use goderash.Common.{
  ℕ, zero, suc, ◌+◌, String, str_eq, ◌+s◌, Bool, true, false, ◌&&◌, not, Option, none, some, List,
  [], ◌∷◌, any, keep, length, ltb, ◌==◌, if◌then◌else◌, Outcome, returned, raised, ◌>>=◌,
}
use goderash.Int.{ℤ, pos, negsuc}
use goderash.Real.{Real}
use goderash.Json.{
  Json, Items, Fields, null, bool, int, float, str, arr, obj, nil, cons, end, field, get,
}
use goderash.Guards.PermissionMode.{PermissionMode}

pub record WhatIfPolicy (F : Type 0) : Type 0 where
  pub velocity_caps : List (String × ℕ)
  pub velocity_amount_caps : List (String × F)
  pub deny_tools : List String
  pub require_confirmation : List String
  pub new_permission_mode : Option PermissionMode

pub data Verdict : Type 0 where
  allow deny escalate : Verdict

pub record CounterfactualEvent : Type 0 where
  pub sequence_no : ℕ
  pub event_type : String
  pub tool_name : Option String
  pub real_decision : Verdict
  pub counter_decision : Verdict
  pub reason : Option String
  pub diff : Bool

pub record WhatIfReport (F : Type 0) : Type 0 where
  pub tenant_id : String
  pub policy : WhatIfPolicy F
  pub total_real_events : ℕ
  pub counter_events : List CounterfactualEvent

-- `occurred_at`: a datetime, by its `date().isoformat()`, or a text.
pub data OccurredAt : Type 0 where
  datetime text : String → OccurredAt

-- The keys of an event that the projector reads.
pub record SourceEvent (F : Type 0) : Type 0 where
  pub payload : Option (Fields F)
  pub event_type : Option String
  pub sequence_no : Option ℕ
  pub occurred_at : Option OccurredAt

pub data ProjectError : Type 0 where
  attribute_error type_error value_error : ProjectError

-- `_count_seen` and `_amount_seen`, keyed by tool and day
pub record Seen (F : Type 0) : Type 0 where
  pub counts : List ((String × String) × ℕ)
  pub amounts : List ((String × String) × F)

abbrev pub same_key : String × String → String × String → Bool
same_key a b = str_eq a.0 b.0 && str_eq a.1 b.1

-- `d.get(key, default)` and `d[key] = value`
unfoldable pub seen_at {ℓ} : {A : Type ℓ} → A → String × String → List ((String × String) × A) → A
seen_at default key [] = default
seen_at default key ((k, v) ∷ rest) = if same_key k key then v else seen_at default key rest

unfoldable pub set_seen {ℓ} :
    {A : Type ℓ} → String × String → A → List ((String × String) × A) → List ((String × String) × A)
set_seen key v [] = (key, v) ∷ []
set_seen key v ((k, w) ∷ rest) =
    let others = set_seen key v rest in if same_key k key then (k, v) ∷ rest else (k, w) ∷ others

-- `caps.get(tool_name)`
unfoldable pub cap_of {ℓ} : {A : Type ℓ} → String → List (String × A) → Option A
cap_of tool [] = none
cap_of tool ((k, cap_value) ∷ rest) = if str_eq k tool then some cap_value else cap_of tool rest

-- `s[:n]`
unfoldable pub prefix : ℕ → String → String
prefix zero s = ""
prefix (suc n) String.[] = ""
prefix (suc n) (String.◌∷◌ c s) = String.◌∷◌ c (prefix n s)

unfoldable pub day_key : Option OccurredAt → String
day_key none = "1970-01-01"
day_key (some (datetime day)) = day
day_key (some (text s)) = prefix 10 s

abbrev pub same_verdict : Verdict → Verdict → Bool
same_verdict allow allow = true
same_verdict deny deny = true
same_verdict escalate escalate = true
same_verdict _ _ = false

module _ {F : Type 0} where
  -- `report.diffs`
  abbrev pub diffs : WhatIfReport F → List CounterfactualEvent
  diffs report = keep (λ c. c.diff) report.counter_events

module _ {F : Type 0} (real : Real F) (python_str : Json F → String) (int_text : ℕ → String) where
  -- `bool(value)`
  unfoldable pub truthy : Json F → Bool
  truthy null = false
  truthy (bool b) = b
  truthy (int (pos n)) = not (n == 0)
  truthy (int (negsuc n)) = true
  truthy (float x) = not (real.is_zero x)
  truthy (str s) = not (str_eq s "")
  truthy (arr nil) = false
  truthy (arr (cons _ _)) = true
  truthy (obj end) = false
  truthy (obj (field _ _ _)) = true

  abbrev pub to_str : Json F → String
  to_str (str s) = s
  to_str v = python_str v

  -- `payload.get(key) or default`, read as a text
  unfoldable pub text_or : String → String → Fields F → String
  text_or key default payload = elim (get key payload) [
    | none ↦ default
    | some v ↦ if truthy v then to_str v else default
  ]

  -- `float(value)`
  unfoldable pub to_float : Json F → Outcome ProjectError F
  to_float null = raised type_error
  to_float (bool b) = returned (real.of_int (pos (if b then 1 else 0)))
  to_float (int n) = returned (real.of_int n)
  to_float (float x) = returned x
  to_float (str s) = elim (real.parse s) [ none ↦ raised value_error | some x ↦ returned x ]
  to_float (arr _) = raised type_error
  to_float (obj _) = raised type_error

  -- `args.get("amount") or 0.0` of a dictionary
  unfoldable pub amount_in : Fields F → Outcome ProjectError F
  amount_in args = elim (get "amount" args) [
    | none ↦ returned real.zero
    | some v ↦ if truthy v then to_float v else returned real.zero
  ]

  -- `(payload.get("input_args_preview") or {}).get("amount")`
  unfoldable pub attempted_amount : Fields F → Outcome ProjectError F
  attempted_amount payload = elim (get "input_args_preview" payload) [
    | none ↦ returned real.zero
    | some (obj args) ↦ amount_in args
    | some v ↦ if truthy v then raised attribute_error else returned real.zero
  ]
