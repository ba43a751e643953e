-- ===== src/Ledger/Store/Entries.antt =====
-- ledger/store.py: what `append_many` stores of each envelope, besides the chain's own columns.
use goderash.Common.{
  keep-append, append-nil, eq_iff, subst, ℕ, suc, ◌+◌, ◌≤◌, String, str_eq, str-cases, ◌≡◌, refl,
  sym, ap, ◌∙◌, inl, inr, List, [], ◌∷◌, ◌++◌, map, length, arith, returned, raised, ◌>>=◌,
  bind_returns,
}
use goderash.Json.{Fields}
use goderash.Events.{GoderashEventEnvelope}
use goderash.Events.Dump.{event_type, model_dump}
use goderash.Ledger.Chain.{Hasher, compute_hash}
use goderash.Ledger.Store.{
  EventRow, Result, rows_of, row_of, seal_all, insert_rows, append_many, fetch_head_hash,
  fetch_head_sequence,
}
use goderash.Ledger.Store.Growth.{Skips, none_left, take_it, leave_it, insert_rows-Skips}

-- An event as a client sees it: neither its digests nor its place in the chain.
pub record Entry (F : Type 0) : Type 0 where
  pub event_id : ℕ
  pub agent_id : String
  pub conversation_id : String
  pub turn_id : String
  pub event_type : String
  pub occurred_at : ℕ
  pub payload : Fields F

module _ {F : Type 0} where
  abbrev pub row_entry : EventRow F → Entry F
  row_entry r = record {
    event_id = r.event_id;
    agent_id = r.agent_id;
    conversation_id = r.conversation_id;
    turn_id = r.turn_id;
    event_type = r.event_type;
    occurred_at = r.occurred_at;
    payload = r.payload;
  }

  abbrev pub entry_of : Hasher (Fields F) → GoderashEventEnvelope F → Entry F
  entry_of hs env = record {
    event_id = env.event_id;
    agent_id = env.agent_id;
    conversation_id = env.conversation_id;
    turn_id = env.turn_id;
    event_type = event_type env.payload;
    occurred_at = env.occurred_at;
    payload = hs.jsonb (model_dump env.payload);
  }

  length-Skips : {kept rows : List (EventRow F)} → Skips kept rows → length kept ≤ length rows
  length-Skips none_left = omega arith
  length-Skips (take_it s) = omega (arith, length-Skips s)
  length-Skips (leave_it s) = omega (arith, length-Skips s)

  -- As many rows as there were: none was left out.
  Skips-all :
      {kept rows : List (EventRow F)} → Skips kept rows → length kept ≡ length rows → kept ≡ rows
  Skips-all none_left h = refl
  Skips-all (take_it {r = r} s) h = ap (λ x. r ∷ x) (Skips-all s (omega (arith, h)))
  Skips-all (leave_it s) h = absurd (omega (arith, h, length-Skips s))

  append_cancel : (db xs ys : List (EventRow F)) → db ++ xs ≡ db ++ ys → xs ≡ ys
  append_cancel [] xs ys h = h
  append_cancel (r ∷ db) xs ys h = append_cancel db xs ys cc

module _ {F : Type 0} (hs : Hasher (Fields F)) where
  abbrev Written :
      String
      → List (GoderashEventEnvelope F)
      → Result (List (GoderashEventEnvelope F) × List (EventRow F))
      → Type 0
  Written t envelopes (returned (stored, rows)) =
      (map row_entry rows ≡ map (entry_of hs) envelopes)
      × (length rows ≡ length envelopes)
      × (rows_of t rows ≡ rows)
  Written t envelopes (raised e) = Unit {0}

  Written-cons :
      (t : String) (env sealed : GoderashEventEnvelope F) (r : EventRow F)
      (envelopes : List (GoderashEventEnvelope F))
      (m : Result (List (GoderashEventEnvelope F) × List (EventRow F)))
      → row_entry r ≡ entry_of hs env
      → r.tenant_id ≡ t
      → Written t envelopes m
      → Written t (env ∷ envelopes) (
          m >>= λ (p : List (GoderashEventEnvelope F) × List (EventRow F)).
          returned (sealed ∷ p.0, r ∷ p.1))
  Written-cons t env sealed r envelopes (returned (stored, rows)) e own h =
      (cc (e, h.0), ap suc h.1, ground (arith, eq_iff r.tenant_id t, h.2))
  Written-cons t env sealed r envelopes (raised x) e own h = tt

  seal_all-Written :
      (t : String) (now : ℕ) (prev : String) (seq : ℕ) (envelopes : List (GoderashEventEnvelope F))
      → Written t envelopes (seal_all hs t now prev seq envelopes)
  unfolding seal_all row_of
  seal_all-Written t now prev seq [] = (refl, refl, refl)
  seal_all-Written t now prev seq (env ∷ envelopes) = elim (str-cases env.tenant_id t) [
    | inr (_, differs) ↦ rw differs tt
    | inl (own, same) ↦ rw same (
        Written-cons t env _ (row_of hs now prev seq env) envelopes _ refl own (
          seal_all-Written t now (compute_hash hs prev (model_dump env.payload)) (seq + 1)
            envelopes))
  ]

  -- If every envelope gets a row, the rows hold the envelopes' events, in their
  -- order, behind those of the tenant.
  pub append_many-entries :
      (t : String) (now : ℕ) (envelopes stored : List (GoderashEventEnvelope F))
      (db rows : List (EventRow F))
      → append_many hs t now envelopes db ≡ returned (stored, db ++ rows)
      → length rows ≡ length envelopes
      → (map row_entry rows ≡ map (entry_of hs) envelopes)
        × (rows_of t (db ++ rows) ≡ rows_of t db ++ rows)
  unfolding append_many
  append_many-entries t now [] stored db [] h counted =
      (refl, ap (rows_of t) (append-nil db) ∙ sym (append-nil (rows_of t db)))
  append_many-entries t now [] stored db (r ∷ rows) h counted = absurd (omega (arith, counted))
  append_many-entries t now (env ∷ envelopes) stored db rows h counted =
      let seq : ℕ = fetch_head_sequence t db in
      let prev : String = fetch_head_hash t db in
      let ((made, sealed_rows), sealed, rest) =
        bind_returns (seal_all hs t now prev (seq + 1) (env ∷ envelopes)) _ h in
      let (db₁, inserted, last) = bind_returns (insert_rows sealed_rows db) _ rest in
      let (kept, eq, skips) = insert_rows-Skips sealed_rows db db₁ inserted in
      let written : Written t (env ∷ envelopes) (returned (made, sealed_rows)) =
        subst (Written t (env ∷ envelopes)) sealed
          (seal_all-Written t now prev (seq + 1) (env ∷ envelopes)) in
      let same : rows ≡ kept = append_cancel db rows kept cc in
      let all : kept ≡ sealed_rows =
        Skips-all skips (sym (ap length same) ∙ counted ∙ sym written.1) in
      let e = same ∙ all in
      (
        ap (map row_entry) e ∙ written.0,
        keep-append (λ r. str_eq r.tenant_id t) db rows
            ∙ ap (λ x. rows_of t db ++ x) (ap (rows_of t) e ∙ written.2 ∙ sym e),
      )
