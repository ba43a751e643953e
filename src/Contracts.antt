-- ===== src/Contracts.antt =====
-- contracts/contract.py and enforcer.py: contracts on JSON values. `Library` holds what the checks
-- call: regular expressions, dates, Python's equality, `repr` and type names, and the parts of a
-- path.
use goderash.Common.{
  String, str_eq, Bool, true, false, not, ◌||◌, ◌&&◌, Option, none, some, List, [], ◌∷◌, ◌++◌,
  if◌then◌else◌, Outcome, returned, raised, ◌>>=◌,
}
use goderash.Int.{ℤ, pos, leb_ℤ}
use goderash.Real.{Real}
use goderash.Json.{Json, Items, Fields, null, bool, int, float, str, arr, obj, nil, cons, get}
use goderash.Events.{Severity}

pub data CheckKind : Type 0 where
  type_of required in_range max_of min_of enum regex uuid datetime monotonic_increase non_null
        unique :
      CheckKind

pub record ContractClause (F : Type 0) : Type 0 where
  pub path : String
  pub check : CheckKind
  pub expected : Json F
  pub severity : Severity
  pub description : String

pub record Contract (F : Type 0) : Type 0 where
  pub contract_id : String
  pub version : String
  pub description : String
  pub clauses : List (ContractClause F)

pub record ContractViolation (F : Type 0) : Type 0 where
  pub contract_id : String
  pub contract_version : String
  pub clause : ContractClause F
  pub severity : Severity
  -- `none` is `_MISSING`.
  pub observed : Option (Json F)
  pub blame_chain : List String

pub data CheckError : Type 0 where
  type_error value_error : CheckError

-- What `isinstance(v, (int, float))` tells apart.
pub data Number (F : Type 0) : Type 0 where
  whole : ℤ → Number F
  real : F → Number F

pub record Library (F : Type 0) : Type 0 where
  pub real : Real F
  -- `n <= x` and `x <= n`, exactly
  pub le_int_float : ℤ → F → Bool
  pub le_float_int : F → ℤ → Bool
  pub path_parts : String → List String
  pub type_name : Json F → String
  pub python_str : Json F → String
  pub search : String → String → Bool
  pub is_uuid : String → Bool
  pub is_iso_date : String → Bool
  pub contains : Json F → Json F → Bool
  -- `len(set(map(repr, l))) == len(l)`
  pub all_distinct : Items F → Bool

module _ {F : Type 0} where
  unfoldable pub with_clauses : List (ContractClause F) → Contract F → Contract F
  with_clauses more contract = record contract { clauses = contract.clauses ++ more }

  -- `isinstance(v, (int, float))`, which a bool is too
  abbrev pub is_number : Json F → Bool
  is_number (bool _) = true
  is_number (int _) = true
  is_number (float _) = true
  is_number _ = false

  -- `isinstance(v, int)`
  abbrev pub is_int : Json F → Bool
  is_int (bool _) = true
  is_int (int _) = true
  is_int _ = false

  abbrev pub is_bool : Json F → Bool
  is_bool (bool _) = true
  is_bool _ = false

  abbrev pub is_str : Json F → Bool
  is_str (str _) = true
  is_str _ = false

  abbrev pub is_list : Json F → Bool
  is_list (arr _) = true
  is_list _ = false

  abbrev pub is_dict : Json F → Bool
  is_dict (obj _) = true
  is_dict _ = false

  -- The loop of `_resolve` over the parts of a path.
  unfoldable pub resolve_parts : List String → Json F → Option (Json F)
  resolve_parts [] current = some current
  resolve_parts (p ∷ parts) (obj fields) =
      if str_eq p ""
      then resolve_parts parts (obj fields)
      else elim (get p fields) [ none ↦ none | some v ↦ resolve_parts parts v ]
  resolve_parts (p ∷ parts) current = if str_eq p "" then resolve_parts parts current else none

module _ {F : Type 0} (lib : Library F) where
  unfoldable pub resolve : Fields F → String → Option (Json F)
  resolve value path =
      if str_eq path "" || str_eq path "$"
      then some (obj value)
      else resolve_parts (lib.path_parts path) (obj value)

  -- The float that a number is converted to.
  abbrev pub as_float : Json F → Option F
  as_float (bool b) = some (lib.real.of_int (pos (if b then 1 else 0)))
  as_float (int n) = some (lib.real.of_int n)
  as_float (float x) = some x
  as_float _ = none

  -- `a <= b`, with a bool as an int; Python compares exactly.
  abbrev pub number_of : Json F → Option (Number F)
  number_of (bool b) = some (whole (pos (if b then 1 else 0)))
  number_of (int n) = some (whole n)
  number_of (float x) = some (real x)
  number_of _ = none

  unfoldable pub le_number : Number F → Number F → Bool
  le_number (whole m) (whole n) = leb_ℤ m n
  le_number (whole m) (real y) = lib.le_int_float m y
  le_number (real x) (whole n) = lib.le_float_int x n
  le_number (real x) (real y) = lib.real.le x y

  unfoldable pub le_of : Json F → Json F → Outcome CheckError Bool
  unfolding le_number
  le_of a b = elim (number_of a) [
    | none ↦ raised type_error
    | some x ↦ elim (number_of b) [ none ↦ raised type_error | some y ↦ returned (le_number x y) ]
  ]

  -- `float(v)`, with `none` where it raises TypeError or ValueError
  abbrev pub float_of : Json F → Option F
  float_of (str s) = lib.real.parse s
  float_of v = as_float v

  -- `lo, hi = expected` and `lo <= actual <= hi`
  unfoldable pub check_range : Json F → Json F → Outcome CheckError Bool
  check_range (arr (cons lo (cons hi nil))) actual =
      le_of lo actual >>= (λ above. if above then le_of actual hi else returned false)
  check_range (arr _) actual = raised value_error
  check_range _ actual = raised type_error

  unfoldable pub check_type : Json F → Json F → Bool
  check_type expected actual =
      let t : String = elim expected [ str s ↦ s | _ ↦ "" ] in
      if str_eq t "int"
      then is_int actual && not (is_bool actual)
      else if str_eq t "float"
      then is_number actual && not (is_bool actual)
      else if str_eq t "str"
      then is_str actual
      else if str_eq t "bool"
      then is_bool actual
      else if str_eq t "list"
      then is_list actual
      else if str_eq t "dict"
      then is_dict actual
      else str_eq (lib.type_name actual) (lib.python_str expected)

  abbrev pub is_null : Json F → Bool
  is_null null = true
  is_null _ = false

  -- `_check` of a value that is there.
  unfoldable pub check_present : CheckKind → Json F → Json F → Outcome CheckError Bool
  check_present CheckKind.required expected actual = returned (not (is_null actual))
  check_present CheckKind.non_null expected actual = returned (not (is_null actual))
  check_present CheckKind.type_of expected actual = returned (check_type expected actual)
  check_present CheckKind.in_range expected actual =
      if is_number actual then check_range expected actual else returned false
  check_present CheckKind.max_of expected actual =
      if is_number actual then le_of actual expected else returned false
  check_present CheckKind.min_of expected actual =
      if is_number actual then le_of expected actual else returned false
  check_present CheckKind.enum expected actual = returned (lib.contains expected actual)
  check_present CheckKind.regex expected (str s) = returned (lib.search (lib.python_str expected) s)
  check_present CheckKind.regex expected _ = returned false
  check_present CheckKind.uuid expected (str s) = returned (lib.is_uuid s)
  check_present CheckKind.uuid expected _ = returned false
  check_present CheckKind.datetime expected (str s) = returned (lib.is_iso_date s)
  check_present CheckKind.datetime expected _ = returned false
  check_present CheckKind.monotonic_increase expected actual = returned (elim (float_of actual) [
    | none ↦ false
    | some x ↦ elim (float_of expected) [ none ↦ false | some y ↦ lib.real.lt y x ]
  ])
  check_present CheckKind.unique expected (arr items) = returned (lib.all_distinct items)
  check_present CheckKind.unique expected _ = returned false

  -- `_check`: a value that is missing passes no check.
  unfoldable pub check_clause : ContractClause F → Option (Json F) → Outcome CheckError Bool
  check_clause clause none = returned false
  check_clause clause (some actual) = check_present clause.check clause.expected actual

  abbrev pub violation_of :
      Contract F → ContractClause F → Option (Json F) → List String → ContractViolation F
  violation_of contract clause observed blame_chain = record {
    contract_id = contract.contract_id;
    contract_version = contract.version;
    clause = clause;
    severity = clause.severity;
    observed = observed;
    blame_chain = blame_chain;
  }

  -- The loop of `evaluate` over the clauses of `contract`.
  unfoldable pub evaluate_clauses :
      Contract F
      → List (ContractClause F)
      → Fields F
      → List String
      → Outcome CheckError (List (ContractViolation F))
  evaluate_clauses contract [] value blame_chain = returned []
  evaluate_clauses contract (clause ∷ clauses) value blame_chain =
      let actual = resolve value clause.path in
      check_clause clause actual >>= (λ ok.
        evaluate_clauses contract clauses value blame_chain >>= (λ rest.
          returned (if ok then rest else violation_of contract clause actual blame_chain ∷ rest)))

  unfoldable pub evaluate_contract :
      Contract F → Fields F → List String → Outcome CheckError (List (ContractViolation F))
  evaluate_contract contract value blame_chain =
      evaluate_clauses contract contract.clauses value blame_chain
