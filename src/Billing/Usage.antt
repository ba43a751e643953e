-- ===== src/Billing/Usage.antt =====
-- billing/usage.py: what the usage counter holds.
use goderash.Common.{
  ℕ, ◌+◌, String, str_eq, eq_iff, Bool, true, some, List, [], ◌∷◌, ◌≡◌, ap, ◌∙◌, arith,
  if◌then◌else◌, returned,
}
use goderash.Ledger.Store.{EventRow}
use goderash.Billing.{
  Redis, counter_at, incrby, increment_usage, get_usage_from_redis, get_usage, or_zero,
}

or_zero-incrby :
    (key k : String) (count : ℕ) (l : List (String × ℕ))
    → or_zero (counter_at k (incrby key count l))
      ≡ (if str_eq key k then or_zero (counter_at k l) + count else or_zero (counter_at k l))
unfolding counter_at incrby
or_zero-incrby key k count [] = ground arith
or_zero-incrby key k count ((j, n) ∷ l) =
    ground (arith, eq_iff key k, eq_iff j key, eq_iff j k, or_zero-incrby key k count l)

-- The ingested batches, by the tenant's key and the number of events.
unfoldable pub increment_all : Bool → List (String × ℕ) → Redis → Redis
increment_all enabled [] redis = redis
increment_all enabled ((key, count) ∷ batches) redis =
    increment_all enabled batches (increment_usage enabled key count redis).1

abbrev pub total_of : String → List (String × ℕ) → ℕ
total_of key [] = 0
total_of key ((k, count) ∷ batches) =
    let rest = total_of key batches in if str_eq k key then count + rest else rest

-- While Redis answers: after any batches of any tenants, the usage of a tenant is what its counter
-- held before and the sizes of its own batches, whatever the ledger holds; so a batch that is sent
-- again is counted again.
pub get_usage-increment_all :
    {F : Type 0} (enabled : Bool) (key tenant_id : String) (period_start : ℕ)
    (batches : List (String × ℕ)) (counters : List (String × ℕ)) (rows : List (EventRow F))
    → get_usage enabled key tenant_id period_start
        (some (increment_all enabled batches (record { reachable = true; counters = counters })))
        rows
      ≡ returned (or_zero (counter_at key counters) + total_of key batches)
unfolding get_usage get_usage_from_redis increment_all increment_usage
get_usage-increment_all enabled key tenant_id period_start [] counters rows =
    ap returned (omega arith)
get_usage-increment_all enabled key tenant_id period_start ((k, count) ∷ batches) counters rows =
    get_usage-increment_all enabled key tenant_id period_start batches (incrby k count counters)
      rows
    ∙ ap returned (ground (arith, or_zero-incrby k key count counters))
