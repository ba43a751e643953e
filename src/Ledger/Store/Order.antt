-- ===== src/Ledger/Store/Order.antt =====
-- ledger/store.py: the rows of a tenant in the order of `sequence_no`, and what the two queries
-- for the head of the ledger return on such rows.
use goderash.Common.{ℕ, ◌<◌, String, ◌≡◌, refl, none, some, List, [], ◌∷◌, ◌++◌, arith}
use goderash.Ledger.Chain.{genesis_prev_hash}
use goderash.Ledger.Store.{
  EventRow, rows_of, newest_from, newest, fetch_head_hash, fetch_head_sequence, order_by_sequence,
}

module _ {F : Type 0} where
  -- Strictly increasing sequence numbers, all above `n`.
  abbrev pub IsOrdered : ℕ → List (EventRow F) → Type 0
  IsOrdered n [] = Unit {0}
  IsOrdered n (r ∷ rows) = (n < r.sequence_no) × IsOrdered r.sequence_no rows

  abbrev pub last_sequence : ℕ → List (EventRow F) → ℕ
  last_sequence n [] = n
  last_sequence n (r ∷ rows) = last_sequence r.sequence_no rows

  abbrev pub last_digest : String → List (EventRow F) → String
  last_digest h [] = h
  last_digest h (r ∷ rows) = last_digest r.hash rows

  pub IsOrdered-append :
      (n : ℕ) (rows more : List (EventRow F))
      → IsOrdered n rows
      → IsOrdered (last_sequence n rows) more
      → IsOrdered n (rows ++ more)
  IsOrdered-append n [] more h k = k
  IsOrdered-append n (r ∷ rows) more h k = (h.0, IsOrdered-append r.sequence_no rows more h.1 k)

  pub last_sequence-append :
      (n : ℕ) (rows more : List (EventRow F))
      → last_sequence n (rows ++ more) ≡ last_sequence (last_sequence n rows) more
  last_sequence-append n [] more = refl
  last_sequence-append n (r ∷ rows) more = last_sequence-append r.sequence_no rows more

  pub last_digest-append :
      (h : String) (rows more : List (EventRow F))
      → last_digest h (rows ++ more) ≡ last_digest (last_digest h rows) more
  last_digest-append h [] more = refl
  last_digest-append h (r ∷ rows) more = last_digest-append r.hash rows more

  newest_from-last :
      (b : EventRow F) (rows : List (EventRow F))
      → IsOrdered b.sequence_no rows
      → ((newest_from b rows).sequence_no ≡ last_sequence b.sequence_no rows)
        × ((newest_from b rows).hash ≡ last_digest b.hash rows)
  unfolding newest_from
  newest_from-last b [] h = (refl, refl)
  newest_from-last b (r ∷ rows) h = ground (arith, newest_from-last r rows h.1)

  -- The two queries return what the last row holds.
  pub fetch_head_sequence_lem :
      (t : String) (db : List (EventRow F))
      → IsOrdered 0 (rows_of t db)
      → fetch_head_sequence t db ≡ last_sequence 0 (rows_of t db)
  unfolding fetch_head_sequence newest
  fetch_head_sequence_lem t db h = go (rows_of t db) h
    where
      go :
          (rows : List (EventRow F))
          → IsOrdered 0 rows
          → (elim (newest rows) [ none ↦ 0 | some r ↦ r.sequence_no ]) ≡ last_sequence 0 rows
      go [] k = refl
      go (r ∷ rows) k = (newest_from-last r rows k.1).0

  pub fetch_head_hash_lem :
      (t : String) (db : List (EventRow F))
      → IsOrdered 0 (rows_of t db)
      → fetch_head_hash t db ≡ last_digest genesis_prev_hash (rows_of t db)
  unfolding fetch_head_hash newest
  fetch_head_hash_lem t db h = go (rows_of t db) h
    where
      go :
          (rows : List (EventRow F))
          → IsOrdered 0 rows
          → (elim (newest rows) [ none ↦ genesis_prev_hash | some r ↦ r.hash ])
            ≡ last_digest genesis_prev_hash rows
      go [] k = refl
      go (r ∷ rows) k = (newest_from-last r rows k.1).1

  -- Sorting changes nothing where the rows are in order.
  pub order_by_sequence_lem :
      (n : ℕ) (rows : List (EventRow F)) → IsOrdered n rows → order_by_sequence rows ≡ rows
  unfolding order_by_sequence
  order_by_sequence_lem n [] h = refl
  order_by_sequence_lem n (r ∷ []) h = refl
  order_by_sequence_lem n (r ∷ s ∷ rows) h =
      rw (order_by_sequence_lem r.sequence_no (s ∷ rows) h.1) (ground arith)
