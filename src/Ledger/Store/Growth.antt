-- ===== src/Ledger/Store/Growth.antt =====
-- ledger/store.py: whatever event ids a batch holds, `append_many` only adds rows of its tenant,
-- under rising sequence numbers; and a batch that is already stored changes nothing.
use goderash.Common.{
  returned, raised, ◌>>=◌, bind_returns, ℕ, suc, ◌+◌, ◌≤◌, ◌<◌, String, str_eq, eq_iff, ◌≡◌, ◌≢◌,
  refl, sym, ap, ◌∙◌, subst, ◌⊎◌, inl, inr, List, [], ◌∷◌, ◌++◌, append_assoc, append-nil, arith,
  keep-append, length, str-cases,
}
use goderash.Json.{Fields}
use goderash.Events.{GoderashEventEnvelope}
use goderash.Events.Dump.{model_dump}
use goderash.Ledger.Chain.{Hasher, compute_hash}
use goderash.Ledger.Store.{
  EventRow, Result, rows_of, insert_row, insert_rows, row_of, seal_all, append_many,
  fetch_head_hash, fetch_head_sequence,
}
use goderash.Ledger.Store.Order.{IsOrdered, IsOrdered-append, fetch_head_sequence_lem}

module _ {F : Type 0} where
  abbrev RowsOf : String → List (EventRow F) → Type 0
  RowsOf t [] = Unit {0}
  RowsOf t (r ∷ rows) = (r.tenant_id ≡ t) × RowsOf t rows

  -- `kept` is `rows` with some of them left out.
  pub data Skips : List (EventRow F) → List (EventRow F) → Type 0 where
    none_left : Skips [] []
    take_it :
        {r : EventRow F} {kept rows : List (EventRow F)}
        → Skips kept rows
        → Skips (r ∷ kept) (r ∷ rows)
    leave_it :
        {r : EventRow F} {kept rows : List (EventRow F)} → Skips kept rows → Skips kept (r ∷ rows)

  IsOrdered-mono :
      (m n : ℕ) (rows : List (EventRow F)) → m ≤ n → IsOrdered n rows → IsOrdered m rows
  IsOrdered-mono m n [] h k = tt
  IsOrdered-mono m n (r ∷ rows) h k = (omega arith, k.1)

  IsOrdered-Skips :
      (n : ℕ) {kept rows : List (EventRow F)}
      → Skips kept rows
      → IsOrdered n rows
      → IsOrdered n kept
  IsOrdered-Skips n none_left h = tt
  IsOrdered-Skips n (take_it {r = r} s) h = (h.0, IsOrdered-Skips r.sequence_no s h.1)
  IsOrdered-Skips n (leave_it {r = r} {rows = rows} s) h =
      IsOrdered-Skips n s (IsOrdered-mono n r.sequence_no rows (omega arith) h.1)

  RowsOf-Skips :
      (t : String) {kept rows : List (EventRow F)} → Skips kept rows → RowsOf t rows → RowsOf t kept
  RowsOf-Skips t none_left h = tt
  RowsOf-Skips t (take_it s) h = (h.0, RowsOf-Skips t s h.1)
  RowsOf-Skips t (leave_it s) h = RowsOf-Skips t s h.1

  rows_of_own : (t : String) (rows : List (EventRow F)) → RowsOf t rows → rows_of t rows ≡ rows
  rows_of_own t [] h = refl
  rows_of_own t (r ∷ rows) h = ground (arith, eq_iff r.tenant_id t, rows_of_own t rows h.1)

  rows_of_other :
      (t u : String) (rows : List (EventRow F)) → RowsOf t rows → u ≢ t → rows_of u rows ≡ []
  rows_of_other t u [] h ne = refl
  rows_of_other t u (r ∷ rows) h ne =
      ground (arith, eq_iff r.tenant_id u, rows_of_other t u rows h.1)

  insert_row-cases :
      (r : EventRow F) (db db' : List (EventRow F))
      → insert_row r db ≡ returned db'
      → (db' ≡ db) ⊎ (db' ≡ db ++ r ∷ [])
  unfolding insert_row
  insert_row-cases r db db' h = ground arith

  pub insert_rows-Skips :
      (rows db db' : List (EventRow F))
      → insert_rows rows db ≡ returned db'
      → (kept : List (EventRow F)) × (db' ≡ db ++ kept) × Skips kept rows
  unfolding insert_rows
  insert_rows-Skips [] db db' h = ([], rw append-nil cc, none_left)
  insert_rows-Skips (r ∷ rows) db db' h =
      let (db₁, put, rest) = bind_returns (insert_row r db) (insert_rows rows) h in
      let (kept, eq, skips) = insert_rows-Skips rows db₁ db' rest in
      elim (insert_row-cases r db db₁ put) [
        | inl same ↦ (kept, cc, leave_it skips)
        | inr added ↦ (
          r ∷ kept,
          eq ∙ ap (λ x. x ++ kept) added ∙ append_assoc db (r ∷ []) kept,
          take_it skips,
        )
      ]

  rows_of_added_other :
      (t u : String) (db added : List (EventRow F))
      → RowsOf t added
      → u ≢ t
      → rows_of u (db ++ added) ≡ rows_of u db
  rows_of_added_other t u db added own ne =
      keep-append (λ r. str_eq r.tenant_id u) db added
      ∙ ap (λ x. rows_of u db ++ x) (rows_of_other t u added own ne)
      ∙ append-nil (rows_of u db)

  rows_of_added_own :
      (t : String) (db added : List (EventRow F))
      → RowsOf t added
      → rows_of t (db ++ added) ≡ rows_of t db ++ added
  rows_of_added_own t db added own =
      keep-append (λ r. str_eq r.tenant_id t) db added
      ∙ ap (λ x. rows_of t db ++ x) (rows_of_own t added own)

  IsOrdered-added :
      (t : String) (db added : List (EventRow F))
      → RowsOf t added
      → IsOrdered (fetch_head_sequence t db) added
      → IsOrdered 0 (rows_of t db)
      → IsOrdered 0 (rows_of t (db ++ added))
  IsOrdered-added t db added own next ordered = rw (rows_of_added_own t db added own) (
      IsOrdered-append 0 (rows_of t db) added ordered
        (subst (λ n. IsOrdered n added) (fetch_head_sequence_lem t db ordered) next))

  -- What a successful run of the loop made: rows of `t` in order above `n`, `k` envelopes.
  abbrev Sealed :
      String → ℕ → ℕ → Result (List (GoderashEventEnvelope F) × List (EventRow F)) → Type 0
  Sealed t n k (returned (stored, rows)) = RowsOf t rows × IsOrdered n rows × (length stored ≡ k)
  Sealed t n k (raised e) = Unit {0}

  Sealed-cons :
      (t : String) (n k : ℕ) (env : GoderashEventEnvelope F) (r : EventRow F)
      (m : Result (List (GoderashEventEnvelope F) × List (EventRow F)))
      → r.tenant_id ≡ t
      → n < r.sequence_no
      → Sealed t r.sequence_no k m
      → Sealed t n (suc k) (
          m >>= λ (p : List (GoderashEventEnvelope F) × List (EventRow F)).
          returned (env ∷ p.0, r ∷ p.1))
  Sealed-cons t n k env r (returned (stored, rows)) own lt h = ((own, h.0), (lt, h.1), ap suc h.2)
  Sealed-cons t n k env r (raised e) own lt h = tt

module _ {F : Type 0} (hs : Hasher (Fields F)) where
  seal_all-Sealed :
      (t : String) (now : ℕ) (prev : String) (n seq : ℕ)
      (envelopes : List (GoderashEventEnvelope F))
      → n < seq
      → Sealed t n (length envelopes) (seal_all hs t now prev seq envelopes)
  unfolding seal_all row_of
  seal_all-Sealed t now prev n seq [] le = (tt, tt, refl)
  seal_all-Sealed t now prev n seq (env ∷ envelopes) le = elim (str-cases env.tenant_id t) [
    | inr (_, differs) ↦ rw differs tt
    | inl (own, same) ↦ rw same (
        Sealed-cons t n (length envelopes) _ (row_of hs now prev seq env) _ own le (
          seal_all-Sealed t now (compute_hash hs prev (model_dump env.payload)) seq (seq + 1)
            envelopes (omega arith)))
  ]

  -- If `append_many` succeeds for tenant `t`, then whatever the event ids are: it returns one
  -- envelope for each of the batch, the table is the old one with rows added at its end, the rows
  -- of every other tenant are as they were, and if the sequence numbers of `t` rose strictly, they
  -- still do.
  pub append_many-append_only :
      (t : String) (now : ℕ) (envelopes stored : List (GoderashEventEnvelope F))
      (db db' : List (EventRow F))
      → append_many hs t now envelopes db ≡ returned (stored, db')
      → (added : List (EventRow F)) × (db' ≡ db ++ added)
        × (length stored ≡ length envelopes)
        × ((u : String) → u ≢ t → rows_of u db' ≡ rows_of u db)
        × (IsOrdered 0 (rows_of t db) → IsOrdered 0 (rows_of t db'))
  unfolding append_many
  append_many-append_only t now [] stored db db' h =
      let e : db ≡ db' = cc in
      (
        [],
        cc (append-nil db),
        cc,
        λ u ne. ap (rows_of u) (sym e),
        subst (λ x. IsOrdered 0 (rows_of t x)) e,
      )
  append_many-append_only t now (env ∷ envelopes) stored db db' h =
      let seq : ℕ = fetch_head_sequence t db in
      let prev : String = fetch_head_hash t db in
      let ((made, rows), sealed, rest) =
        bind_returns (seal_all hs t now prev (seq + 1) (env ∷ envelopes)) _ h in
      let (db₁, inserted, last) = bind_returns (insert_rows rows db) _ rest in
      let (own, ordered, counted) : Sealed t seq (length (env ∷ envelopes))
          (returned (made, rows)) =
        subst (Sealed t seq (length (env ∷ envelopes))) sealed
          (seal_all-Sealed t now prev seq (seq + 1) (env ∷ envelopes) (omega arith)) in
      let (added, eq, skips) = insert_rows-Skips rows db db₁ inserted in
      let e : db' ≡ db ++ added = cc in
      let own' : RowsOf t added = RowsOf-Skips t skips own in
      (
        added,
        e,
        cc,
        λ u ne. ap (rows_of u) e ∙ rows_of_added_other t u db added own' ne,
        λ k.
            subst (λ x. IsOrdered 0 (rows_of t x)) (sym e)
              (IsOrdered-added t db added own' (IsOrdered-Skips seq skips ordered) k),
      )
