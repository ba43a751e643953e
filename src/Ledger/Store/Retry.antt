-- ===== src/Ledger/Store/Retry.antt =====
-- ledger/store.py: a batch whose event ids are all stored.
use goderash.Common.{
  returned, ℕ, suc, ◌+◌, String, ◌≡◌, refl, true, List, [], ◌∷◌, length, ap, eq_refl,
}
use goderash.Json.{Fields}
use goderash.Events.{GoderashEventEnvelope}
use goderash.Events.Dump.{model_dump}
use goderash.Ledger.Chain.{Hasher, compute_hash}
use goderash.Ledger.Store.{
  EventRow, fits, insert_rows, seal, row_of, seal_all, append_many, fetch_head_hash,
  fetch_head_sequence,
}
use goderash.Ledger.Store.Fresh.{has_id, AllOf}

module _ {F : Type 0} (hs : Hasher (Fields F)) where
  -- The id of every envelope is the id of a stored row.
  abbrev pub AllStored : List (GoderashEventEnvelope F) → List (EventRow F) → Type 0
  AllStored [] db = Unit {0}
  AllStored (env ∷ envelopes) db = (has_id env.event_id db ≡ true) × AllStored envelopes db

  -- The fields of every envelope fit the columns.
  abbrev pub AllFit : List (GoderashEventEnvelope F) → Type 0
  AllFit [] = Unit {0}
  AllFit (env ∷ envelopes) = (fits (row_of hs 0 "" 0 env) ≡ true) × AllFit envelopes

  retry_loop :
      (t : String) (now : ℕ) (prev : String) (seq : ℕ) (envelopes : List (GoderashEventEnvelope F))
      (db : List (EventRow F))
      → AllOf t envelopes
      → AllStored envelopes db
      → AllFit envelopes
      → (stored : List (GoderashEventEnvelope F)) × (rows : List (EventRow F)) × (seal_all hs t now
            prev seq envelopes
          ≡ returned (stored, rows))
        × (insert_rows rows db ≡ returned db)
        × (length stored ≡ length envelopes)
  unfolding seal_all insert_rows row_of fits
  retry_loop t now prev seq [] db all known fit = ([], [], refl, refl, refl)
  retry_loop t now prev seq (env ∷ envelopes) db all known fit =
      let (stored, rows, sealed, inserted, counted) =
        retry_loop t now (compute_hash hs prev (model_dump env.payload)) (seq + 1) envelopes db
          all.1 known.1 fit.1 in
      (
        seal hs now prev env ∷ stored,
        row_of hs now prev seq env ∷ rows,
        rw (all.0, eq_refl t, sealed) refl,
        rw (fit.0, known.0, inserted) refl,
        ap suc counted,
      )

  -- A retry of a stored batch, whose fields fit the columns, succeeds, reports every envelope as stored, and leaves the table as
  -- it is.
  pub append_many-idempotent :
      (t : String) (now : ℕ) (envelopes : List (GoderashEventEnvelope F)) (db : List (EventRow F))
      → AllOf t envelopes
      → AllStored envelopes db
      → AllFit envelopes
      → (stored : List (GoderashEventEnvelope F)) × (append_many hs t now envelopes db
          ≡ returned (stored, db))
        × (length stored ≡ length envelopes)
  unfolding append_many
  append_many-idempotent t now [] db all known fit = ([], refl, refl)
  append_many-idempotent t now (env ∷ envelopes) db all known fit =
      let (stored, rows, sealed, inserted, counted) =
        retry_loop t now (fetch_head_hash t db) (fetch_head_sequence t db + 1) (env ∷ envelopes) db
          all known fit in
      (stored, rw (sealed, inserted) refl, counted)
