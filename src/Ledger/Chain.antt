-- ===== src/Ledger/Chain.antt =====
-- ledger/chain.py: the SHA-256 chain and its verifier. `hashlib` and `json` are not part of the
-- repository: `Hasher` holds the functions that the code calls, over any type `D` of payload dictionaries,
-- and with them the round trip through a JSONB column.
pub mod Verdict
pub mod Evidence
use goderash.Common.{
  ℕ, String, ◌+s◌, str_eq, Bool, true, false, Option, none, some, List, [], ◌∷◌, suc, if◌then◌else◌,
}

pub record Hasher (D : Type 0) : Type 0 where
  -- the hex digest of a text
  pub sha256 : String → String
  -- `json.dumps(obj, sort_keys=True, …)`
  pub canonical_json : D → String
  -- what a JSONB column gives back of a dictionary that is stored in it
  pub jsonb : D → D

-- "0" * 64
abbrev pub genesis_prev_hash : String
genesis_prev_hash = "0000000000000000000000000000000000000000000000000000000000000000"

-- One dictionary that `verify_chain` reads; a field is `none` where `get` returns None.
pub record ChainEvent (D : Type 0) : Type 0 where
  pub prev_hash : Option String
  pub hash : Option String
  pub payload : Option D

module _ {D : Type 0} (hs : Hasher D) where
  -- The three updates of the digest are one text. (`prev_hash` is genesis or a digest: ASCII.)
  unfoldable pub compute_hash : String → D → String
  compute_hash prev_hash payload = hs.sha256 (prev_hash +s ("|" +s hs.canonical_json payload))

  -- The body of the loop: the next `expected_prev`, or `none` where it returns False.
  unfoldable pub check_event : String → Option String → Option D → Option String → Option String
  check_event expected_prev (some prev_hash) (some payload) (some actual_hash) =
      if str_eq prev_hash expected_prev
      then (if str_eq (compute_hash prev_hash payload) actual_hash then some actual_hash else none)
      else none
  check_event expected_prev _ _ _ = none

  -- The loop, from position `i`.
  unfoldable pub verify_from : String → ℕ → List (ChainEvent D) → Bool × Option ℕ
  verify_from expected_prev i [] = (true, none)
  verify_from expected_prev i (e ∷ events) =
      elim (check_event expected_prev e.prev_hash e.payload e.hash) [
        | none ↦ (false, some i)
        | some actual_hash ↦ verify_from actual_hash (suc i) events
      ]

  unfoldable pub verify_chain : List (ChainEvent D) → Bool × Option ℕ
  unfolding verify_from
  verify_chain events = verify_from genesis_prev_hash 0 events
