-- ===== src/Tests/Ledger.antt =====
-- The ledger: runs of `append_many` and `verify_chain`, and the theorems about them.
use mathlib.Core.Option
use goderash.Common.{
  returned, raised, ℕ, suc, ◌<◌, String, ◌≡◌, ◌≢◌, refl, ◌⊎◌, true, false, Option, none, some, List,
  [], ◌∷◌, ◌++◌, map, length, take, arith,
}
use goderash.Json.{Fields}
use goderash.Events.{GoderashEventEnvelope}
use goderash.Events.Dump.{event_type, model_dump}
use goderash.Ledger.Chain.{ChainEvent, genesis_prev_hash, compute_hash, check_event, verify_chain}
use goderash.Ledger.Chain.Verdict.{IsIntact, verify_chain-Verdict}
use goderash.Ledger.Chain.Evidence.{IsBroken, inputs, newest_first, verify_chain-commits}
use goderash.Ledger.Store.{
  EventRow, Result, rows_of, newest, order_by_sequence, seal, row_of, append_many, iter_tenant,
  fetch_head_hash, fetch_head_sequence, seal_all, insert_rows, fits,
}
use goderash.Ledger.Store.Order.{IsOrdered}
use goderash.Ledger.Store.Linked.{chain_event}
use goderash.Ledger.Store.Fresh.{hashed, IsChain, append_many-IsChain}
use goderash.Ledger.Store.Growth.{append_many-append_only}
use goderash.Ledger.Store.Retry.{append_many-idempotent}
use goderash.Ledger.Store.Duplicates.{append_many-duplicate_breaks}
use goderash.Tests.Sample.{toy, count-digest, e1, e2, e3}

-- The table after the batch e1, e2, written out.
abbrev pub r1 : EventRow ℕ
r1 = row_of toy 500 genesis_prev_hash 1 e1

abbrev pub r2 : EventRow ℕ
r2 = row_of toy 500 (compute_hash toy genesis_prev_hash (model_dump e1.payload)) 2 e2

abbrev pub table : List (EventRow ℕ)
table = r1 ∷ r2 ∷ []

-- An accepted ledger and one whose second payload was changed.
abbrev tampered : List (ChainEvent (Fields ℕ))
tampered =
    chain_event r1
    ∷ record {
      prev_hash = some r2.prev_hash;
      hash = some r2.hash;
      payload = some (model_dump e3.payload);
    }
    ∷ []

abbrev table_of :
    Result (List (GoderashEventEnvelope ℕ) × List (EventRow ℕ)) → Option (List (EventRow ℕ))
table_of (returned (stored, db)) = some db
table_of (raised e) = none

abbrev stored_two : List (GoderashEventEnvelope ℕ)
stored_two =
    seal toy 500 genesis_prev_hash e1
    ∷ seal toy 500 (compute_hash toy genesis_prev_hash (model_dump e1.payload)) e2
    ∷ []

append_two : append_many toy "acme" 500 (e1 ∷ e2 ∷ []) [] ≡ returned (stored_two, table)
unfolding append_many seal_all insert_rows fits fetch_head_hash fetch_head_sequence newest
    compute_hash model_dump
append_two = refl

-- The duplicate e2 is left out, and e3 is linked to a digest that no row holds.
append_behind_duplicate :
    Option.map
      (λ db. verify_chain toy (map chain_event (iter_tenant "acme" none none none db)))
      (table_of (append_many toy "acme" 500 (e2 ∷ e3 ∷ []) table))
    ≡ some (false, some 2)
unfolding append_many seal_all insert_rows fits fetch_head_hash fetch_head_sequence newest
    verify_chain check_event compute_hash row_of model_dump iter_tenant order_by_sequence
append_behind_duplicate = refl

verify_table : verify_chain toy (map chain_event table) ≡ (true, none)
unfolding verify_chain check_event compute_hash row_of model_dump
verify_table = refl

verify_tampered : verify_chain toy tampered ≡ (false, some 1)
unfolding verify_chain check_event compute_hash row_of model_dump
verify_tampered = refl

pub table-IsChain : IsChain toy (rows_of "acme" table)
unfolding row_of
table-IsChain = ((omega arith, (omega arith, tt)), (refl, refl, (refl, refl, tt)))

verify_chain-Verdict_example :
    ((verify_chain toy tampered ≡ (true, none)) × IsIntact toy genesis_prev_hash tampered)
    ⊎ ((k : ℕ) × (verify_chain toy tampered ≡ (false, some k))
        × (k < length tampered)
        × IsIntact toy genesis_prev_hash (take k tampered)
        × ¬ IsIntact toy genesis_prev_hash (take (suc k) tampered))
verify_chain-Verdict_example = verify_chain-Verdict toy tampered

verify_chain-commits_example :
    (map toy.canonical_json (newest_first toy [] (map chain_event table))
      ≡ map toy.canonical_json (newest_first toy [] (map chain_event table)))
    ⊎ IsBroken toy (
        inputs toy (newest_first toy [] (map chain_event table))
        ++ inputs toy (newest_first toy [] (map chain_event table)))
verify_chain-commits_example =
    verify_chain-commits toy count-digest (map chain_event table) (map chain_event table)
      verify_table verify_table refl

append_many-IsChain_example :
    ((stored : List (GoderashEventEnvelope ℕ)) × (rows : List (EventRow ℕ)) × (append_many toy
          "acme" 600
          (e3 ∷ [])
          table
        ≡ returned (stored, table ++ rows))
      × (length rows ≡ 1)
      × IsChain toy (rows_of "acme" (table ++ rows))
      × (verify_chain toy (map chain_event (iter_tenant "acme" none none none (table ++ rows)))
          ≡ (true, none)))
    ⊎ IsBroken toy (hashed toy (rows_of "acme" table) (e3 ∷ []))
unfolding row_of fits event_type model_dump
append_many-IsChain_example =
    append_many-IsChain toy count-digest "acme" 600 (e3 ∷ []) table (refl, tt) (refl, refl, tt)
      table-IsChain (refl, refl, tt)

append_many-append_only_example :
    (added : List (EventRow ℕ)) × (table ≡ [] ++ added)
    × (length stored_two ≡ 2)
    × ((u : String) → u ≢ "acme" → rows_of u table ≡ rows_of u [])
    × (IsOrdered {F = ℕ} 0 (rows_of "acme" []) → IsOrdered 0 (rows_of "acme" table))
append_many-append_only_example =
    append_many-append_only toy "acme" 500 (e1 ∷ e2 ∷ []) stored_two [] table append_two

append_many-idempotent_example :
    (stored : List (GoderashEventEnvelope ℕ)) × (append_many toy "acme" 600 (e2 ∷ e1 ∷ []) table
      ≡ returned (stored, table))
    × (length stored ≡ 2)
unfolding row_of fits event_type
append_many-idempotent_example =
    append_many-idempotent toy "acme" 600 (e2 ∷ e1 ∷ []) table (refl, (refl, tt)) (refl, (refl, tt))
      (refl, (refl, tt))

append_many-duplicate_breaks_example :
    ((stored : List (GoderashEventEnvelope ℕ)) × (r : EventRow ℕ) × (append_many toy "acme" 600
          (e2 ∷ e3 ∷ [])
          table
        ≡ returned (stored, table ++ r ∷ []))
      × (verify_chain toy (map chain_event (iter_tenant "acme" none none none (table ++ r ∷ [])))
          ≡ (false, some 2)))
    ⊎ IsBroken toy (hashed toy (rows_of "acme" table) (e2 ∷ e3 ∷ []))
unfolding row_of fits event_type model_dump
append_many-duplicate_breaks_example =
    append_many-duplicate_breaks toy count-digest "acme" 600 e2 e3 table refl refl refl refl
      table-IsChain (refl, refl, (refl, refl, tt))
