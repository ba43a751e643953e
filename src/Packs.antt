-- ===== src/Packs.antt =====
-- packs/base.py: the evidence packs. The artifact is the manifest and the
-- contents of the three files; zipping them and `isoformat` are left out, and times are numbers.
pub mod Controls
pub mod Counts
pub mod Build
use goderash.Common.{
  ℕ, ◌+◌, String, str_eq, Bool, true, false, Option, none, some, List, [], ◌∷◌, keep, map, length,
  if◌then◌else◌, Outcome, returned, raised,
}
use goderash.Int.{pos}
use goderash.Json.{Json, Fields, int, bool, str, obj, get, dict}
use goderash.Ledger.Chain.{Hasher, ChainEvent, verify_chain}
use goderash.Ledger.Store.{EventRow, iter_tenant}

pub data PackError : Type 0 where
  -- The index that the message names.
  chain_broken : Option ℕ → PackError

pub data Regulation : Type 0 where
  soc2 finra sec_17a4 ffiec hipaa : Regulation

pub record PackGenerator (F : Type 0) : Type 0 where
  pub regulation : Regulation
  pub tenant_id : String
  pub start : ℕ
  pub end : ℕ
  pub events : List (EventRow F)
  pub chain_ok : Bool
  pub chain_broken_at : Option ℕ

pub record Artifact (F : Type 0) : Type 0 where
  pub regulation : Regulation
  pub tenant_id : String
  pub start : ℕ
  pub end : ℕ
  pub event_count : ℕ
  pub controls : Fields F
  pub events : List (EventRow F)

-- `Counter(…)`, in the order of the first occurrences
unfoldable pub count_one : String → List (String × ℕ) → List (String × ℕ)
count_one key [] = (key, 1) ∷ []
count_one key ((k, n) ∷ rest) =
    let others = count_one key rest in if str_eq k key then (k, n + 1) ∷ rest else (k, n) ∷ others

unfoldable pub counter_from : List (String × ℕ) → List String → List (String × ℕ)
counter_from counts [] = counts
counter_from counts (key ∷ keys) = counter_from (count_one key counts) keys

abbrev pub counter : List String → List (String × ℕ)
counter keys = counter_from [] keys

-- `counts.get(key, 0)`
unfoldable pub count_at : String → List (String × ℕ) → ℕ
count_at key [] = 0
count_at key ((k, n) ∷ rest) = if str_eq k key then n else count_at key rest

module _ {F : Type 0} where
  abbrev pub counts_json : List (String × ℕ) → Json F
  counts_json counts = obj (dict (map (λ c. (c.0, int (pos c.1))) counts))

  abbrev pub of_type : String → List (EventRow F) → List (EventRow F)
  of_type t events = keep (λ e. str_eq e.event_type t) events

  abbrev pub by_type : List (EventRow F) → List (String × ℕ)
  by_type events = counter (map (λ e. e.event_type) events)

  abbrev pub number : ℕ → Json F
  number n = int (pos n)

module _ {F : Type 0} (hs : Hasher (Fields F)) where
  -- What `collect` gives the verifier of a row.
  abbrev pub link_of : EventRow F → ChainEvent (Fields F)
  link_of e = record { prev_hash = some e.prev_hash; hash = some e.hash; payload = some e.payload }

  -- The query of `collect` is the one of `iter_tenant`, without a limit.
  unfoldable pub collect : PackGenerator F → List (EventRow F) → PackGenerator F
  collect pack db =
      let events = iter_tenant pack.tenant_id (some pack.start) (some pack.end) none db in
      let (ok, broken) = verify_chain hs (map link_of events) in
      record pack { events = events; chain_ok = ok; chain_broken_at = broken }

unfoldable pub build :
    {F : Type 0}
    → (Regulation → List (EventRow F) → Fields F)
    → PackGenerator F
    → Outcome PackError (Artifact F)
build render pack =
    if pack.chain_ok
    then returned (record {
      regulation = pack.regulation;
      tenant_id = pack.tenant_id;
      start = pack.start;
      end = pack.end;
      event_count = length pack.events;
      controls = render pack.regulation pack.events;
      events = pack.events;
    })
    else raised (chain_broken pack.chain_broken_at)
