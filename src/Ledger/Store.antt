-- ===== src/Ledger/Store.antt =====
-- ledger/store.py and the table of models/event.py. The table is the list of its rows, oldest
-- first; a query is a function of it. `append_many` runs under a lock of its tenant that lasts to
-- the end of the transaction, and an exception rolls the transaction back, so a call is a function
-- from a table to an error or the next table. `now` is the clock's value, `hs` the library calls.
pub mod Order
pub mod Linked
pub mod Fresh
pub mod Growth
pub mod Retry
pub mod Duplicates
pub mod Entries
use goderash.Common.{
  ℕ, ◌+◌, ◌%◌, ◌^◌, String, str_eq, Bool, ◌&&◌, ◌||◌, Option, none, some, List, [], ◌∷◌, ◌++◌, keep,
  any, take, count, Outcome, returned, raised, ◌>>=◌, ltb, leb, ◌==◌, if◌then◌else◌,
}
use goderash.Int.{ℤ, pos, negsuc}
use goderash.Json.{Fields}
use goderash.Events.{GoderashEventEnvelope}
use goderash.Events.Dump.{event_type, model_dump}
use goderash.Ledger.Chain.{Hasher, genesis_prev_hash, compute_hash}

pub record EventRow (F : Type 0) : Type 0 where
  pub event_id : ℕ
  pub tenant_id : String
  pub agent_id : String
  pub conversation_id : String
  pub turn_id : String
  pub parent_event_id : Option ℕ
  pub sequence_no : ℕ
  pub schema_version : ℤ
  pub event_type : String
  pub occurred_at : ℕ
  pub recorded_at : ℕ
  pub payload : Fields F
  pub payload_canonical : String
  pub prev_hash : String
  pub hash : String

-- What the database raises (`integrity`, `data_error`), or the code itself.
pub data AppendError : Type 0 where
  tenant_mismatch integrity data_error : AppendError

abbrev pub Result : Type 0 → Type 0
Result A = Outcome AppendError A

-- The column takes a whole number of 32 bits.
abbrev pub is_int32 : ℤ → Bool
is_int32 (pos n) = ltb n (2 ^ 31)
is_int32 (negsuc n) = ltb n (2 ^ 31)

module _ {F : Type 0} where
  -- `WHERE tenant_id = …`
  abbrev pub rows_of : String → List (EventRow F) → List (EventRow F)
  rows_of tenant_id = keep (λ r. str_eq r.tenant_id tenant_id)

  -- `ORDER BY sequence_no DESC LIMIT 1`, with `best` the row that leads so far.
  unfoldable pub newest_from : EventRow F → List (EventRow F) → EventRow F
  newest_from best [] = best
  newest_from best (r ∷ rows) =
      newest_from (if ltb best.sequence_no r.sequence_no then r else best) rows

  unfoldable pub newest : List (EventRow F) → Option (EventRow F)
  unfolding newest_from
  newest [] = none
  newest (r ∷ rows) = some (newest_from r rows)

  unfoldable pub fetch_head_hash : String → List (EventRow F) → String
  fetch_head_hash tenant_id db = elim (newest (rows_of tenant_id db)) [
    | none ↦ genesis_prev_hash
    | some r ↦ r.hash
  ]

  unfoldable pub fetch_head_sequence : String → List (EventRow F) → ℕ
  fetch_head_sequence tenant_id db = elim (newest (rows_of tenant_id db)) [
    | none ↦ 0
    | some r ↦ r.sequence_no
  ]

  -- The unique constraints besides the primary key: (tenant_id, sequence_no), (tenant_id, hash).
  abbrev pub violates : EventRow F → EventRow F → Bool
  violates r s =
      str_eq s.tenant_id r.tenant_id && (s.sequence_no == r.sequence_no || str_eq s.hash r.hash)

  -- The lengths of the columns; digests have 64 characters, and sequence numbers stay below 2 ^ 63.
  unfoldable pub fits : EventRow F → Bool
  fits r =
      leb (count r.tenant_id) 128
      && leb (count r.agent_id) 128
      && leb (count r.conversation_id) 128
      && leb (count r.turn_id) 128
      && leb (count r.event_type) 64
      && is_int32 r.schema_version

  -- `INSERT … ON CONFLICT (event_id) DO NOTHING`, row by row.
  unfoldable pub insert_row : EventRow F → List (EventRow F) → Result (List (EventRow F))
  insert_row r db =
      if fits r
      then if any (λ s. s.event_id == r.event_id) db
        then returned db
        else if any (violates r) db
        then raised integrity
        else returned (db ++ r ∷ [])
      else raised data_error

  unfoldable pub insert_rows : List (EventRow F) → List (EventRow F) → Result (List (EventRow F))
  unfolding insert_row
  insert_rows [] db = returned db
  insert_rows (r ∷ rows) db = do db' ← insert_row r db; insert_rows rows db'

  module _ (hs : Hasher (Fields F)) where
    -- `env.model_copy(update=…)`
    unfoldable pub seal : ℕ → String → GoderashEventEnvelope F → GoderashEventEnvelope F
    seal now prev_hash env = record env {
      prev_hash = some prev_hash;
      hash = some (compute_hash hs prev_hash (model_dump env.payload));
      recorded_at = some now;
    }

    unfoldable pub row_of : ℕ → String → ℕ → GoderashEventEnvelope F → EventRow F
    row_of now prev_hash next_seq env = record {
      event_id = env.event_id;
      tenant_id = env.tenant_id;
      agent_id = env.agent_id;
      conversation_id = env.conversation_id;
      turn_id = env.turn_id;
      parent_event_id = env.parent_event_id;
      sequence_no = next_seq;
      schema_version = env.schema_version;
      event_type = event_type env.payload;
      occurred_at = env.occurred_at;
      recorded_at = now;
      payload = hs.jsonb (model_dump env.payload);
      payload_canonical = hs.canonical_json (model_dump env.payload);
      prev_hash = prev_hash;
      hash = compute_hash hs prev_hash (model_dump env.payload);
    }

    -- The loop over the envelopes: what is returned, and the rows to insert.
    unfoldable pub seal_all :
        String
        → ℕ
        → String
        → ℕ
        → List (GoderashEventEnvelope F)
        → Result (List (GoderashEventEnvelope F) × List (EventRow F))
    unfolding seal row_of
    seal_all tenant_id now prev_hash next_seq [] = returned ([], [])
    seal_all tenant_id now prev_hash next_seq (env ∷ envelopes) =
        let event_hash = compute_hash hs prev_hash (model_dump env.payload) in
        let rest = seal_all tenant_id now event_hash (next_seq + 1) envelopes in
        if str_eq env.tenant_id tenant_id
        then (do
          (stored, rows) ← rest
          returned (seal now prev_hash env ∷ stored, row_of now prev_hash next_seq env ∷ rows))
        else raised tenant_mismatch

    unfoldable pub append_many :
        String
        → ℕ
        → List (GoderashEventEnvelope F)
        → List (EventRow F)
        → Result (List (GoderashEventEnvelope F) × List (EventRow F))
    append_many tenant_id now [] db = returned ([], db)
    append_many tenant_id now (env ∷ envelopes) db = do
      let prev_hash = fetch_head_hash tenant_id db
      let next_seq = fetch_head_sequence tenant_id db + 1
      (stored, rows_to_insert) ← seal_all tenant_id now prev_hash next_seq (env ∷ envelopes)
      db' ← insert_rows rows_to_insert db
      returned (stored, db')

  -- `ORDER BY sequence_no ASC`
  unfoldable pub insert_by_sequence : EventRow F → List (EventRow F) → List (EventRow F)
  insert_by_sequence r [] = r ∷ []
  insert_by_sequence r (s ∷ rows) =
      if leb r.sequence_no s.sequence_no then r ∷ s ∷ rows else s ∷ insert_by_sequence r rows

  unfoldable pub order_by_sequence : List (EventRow F) → List (EventRow F)
  unfolding insert_by_sequence
  order_by_sequence [] = []
  order_by_sequence (r ∷ rows) = insert_by_sequence r (order_by_sequence rows)

  -- An optional bound keeps the rows that pass it.
  abbrev pub within : (ℕ → EventRow F → Bool) → Option ℕ → List (EventRow F) → List (EventRow F)
  within test none rows = rows
  within test (some t) rows = keep (test t) rows

  abbrev pub limited : Option ℕ → List (EventRow F) → List (EventRow F)
  limited none rows = rows
  limited (some n) rows = take n rows

  unfoldable pub iter_tenant :
      String → Option ℕ → Option ℕ → Option ℕ → List (EventRow F) → List (EventRow F)
  iter_tenant tenant_id start end limit db =
      let after = within (λ t r. leb t r.occurred_at) start (rows_of tenant_id db) in
      let rows = within (λ t r. leb r.occurred_at t) end after in
      limited limit (order_by_sequence rows)

-- The first eight bytes of the digest, as a number, cut to 63 bits: `& 0x7FFF_FFFF_FFFF_FFFF`.
abbrev pub tenant_lock_key : (blake2b : String → ℕ) → String → ℕ
tenant_lock_key blake2b tenant_id = blake2b tenant_id % 2 ^ 63
