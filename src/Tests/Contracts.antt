-- ===== src/Tests/Contracts.antt =====
-- Contracts: runs.
use goderash.Common.{some, leb, ℕ, true, false, List, [], ◌∷◌, ◌≡◌, refl, returned}
use goderash.Int.{pos, pos_part}
use goderash.Json.{Json, Fields, null, int, arr, nil, cons, end, field, get}
use goderash.Events.{Severity}
use goderash.Contracts.{
  Contract, ContractClause, ContractViolation, CheckKind, Library, evaluate_contract, violation_of,
  evaluate_clauses, check_clause, check_present, check_range, le_of, resolve, resolve_parts,
}
use goderash.Tests.Sample.{whole}

-- Every path has the one part "amount".
abbrev lib : Library ℕ
lib = record {
  real = whole;
  le_int_float = λ n x. leb (pos_part n) x;
  le_float_int = λ x n. leb x (pos_part n);
  path_parts = λ path. "amount" ∷ [];
  type_name = λ v. "";
  python_str = λ v. "";
  search = λ p s. false;
  is_uuid = λ s. false;
  is_iso_date = λ s. false;
  contains = λ l v. false;
  all_distinct = λ l. true;
}

abbrev clause : CheckKind → Json ℕ → ContractClause ℕ
clause kind expected = record {
  path = "$.amount";
  check = kind;
  expected = expected;
  severity = Severity.critical;
  description = "";
}

abbrev limits : Contract ℕ
limits = record {
  contract_id = "limits";
  version = "1";
  description = "";
  clauses =
      clause CheckKind.required null
      ∷ clause CheckKind.in_range (arr (cons (int (pos 1)) (cons (int (pos 100)) nil)))
      ∷ clause CheckKind.max_of (int (pos 500))
      ∷ [];
}

abbrev payment : Fields ℕ
payment = field "amount" (int (pos 250)) end

abbrev found : List (ContractViolation ℕ)
found =
    violation_of lib limits
      (clause CheckKind.in_range (arr (cons (int (pos 1)) (cons (int (pos 100)) nil))))
      (some (int (pos 250))) []
    ∷ []

evaluate-payment : evaluate_contract lib limits payment [] ≡ returned found
unfolding evaluate_contract evaluate_clauses check_clause check_present check_range le_of resolve
    resolve_parts get
evaluate-payment = refl
