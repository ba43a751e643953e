-- ===== src/Billing.antt =====
-- billing/usage.py: the usage counter in Redis, with the count in the database behind it, and the
-- quota. `period_key` is the key of a tenant in the current month; times are numbers, and
-- `period_start` is the first instant of the month. `reachable` is whether Redis answers; its
-- values are the counters that `incrby` wrote (their expiry, 40 days, is left out).
pub mod Usage
pub mod Stripe
use goderash.Common.{
  ℕ, zero, suc, ◌+◌, String, str_eq, Bool, true, false, ◌&&◌, not, Option, none, some, List, [],
  ◌∷◌, keep, length, leb, if◌then◌else◌, Outcome, returned, raised, ◌>>=◌,
}
use goderash.Int.{ℤ, pos, negsuc, leb_ℤ}
use goderash.Http.{LogError, warn_with_names}
use goderash.Ledger.Store.{EventRow}

pub record Redis : Type 0 where
  pub reachable : Bool
  pub counters : List (String × ℕ)

-- `redis.get(key)`
unfoldable pub counter_at : String → List (String × ℕ) → Option ℕ
counter_at key [] = none
counter_at key ((k, n) ∷ rest) = if str_eq k key then some n else counter_at key rest

-- `redis.incrby(key, count)`
unfoldable pub incrby : String → ℕ → List (String × ℕ) → List (String × ℕ)
incrby key count [] = (key, count) ∷ []
incrby key count ((k, n) ∷ rest) =
    let others = incrby key count rest in
    if str_eq k key then (k, n + count) ∷ rest else (k, n) ∷ others

-- `enabled` is whether the logger's level lets warnings through.
unfoldable pub increment_usage : Bool → String → ℕ → Redis → Outcome LogError (Unit {0}) × Redis
increment_usage enabled key count redis =
    if redis.reachable
    then (returned tt, record redis { counters = incrby key count redis.counters })
    else (warn_with_names enabled, redis)

abbrev pub or_zero : Option ℕ → ℕ
or_zero none = 0
or_zero (some n) = n

unfoldable pub get_usage_from_redis : Bool → String → Redis → Outcome LogError (Option ℕ)
get_usage_from_redis enabled key redis =
    if redis.reachable
    then returned (some (or_zero (counter_at key redis.counters)))
    else (warn_with_names enabled >>= (λ _. returned none))

unfoldable pub get_usage_from_db : {F : Type 0} → String → ℕ → List (EventRow F) → ℕ
get_usage_from_db tenant_id period_start rows =
    length (keep (λ r. str_eq r.tenant_id tenant_id && leb period_start r.occurred_at) rows)

-- The counter where there is one, and else the count in the database.
abbrev pub or_count : Option ℕ → ℕ → ℕ
or_count none count = count
or_count (some n) count = n

unfoldable pub get_usage :
    {F : Type 0}
    → Bool
    → String
    → String
    → ℕ
    → Option Redis
    → List (EventRow F)
    → Outcome LogError ℕ
get_usage enabled key tenant_id period_start none rows =
    returned (get_usage_from_db tenant_id period_start rows)
get_usage enabled key tenant_id period_start (some redis) rows =
    get_usage_from_redis enabled key redis
    >>= (λ count. returned (or_count count (get_usage_from_db tenant_id period_start rows)))

abbrev pub is_unlimited : ℤ → Bool
is_unlimited (negsuc zero) = true
is_unlimited _ = false

-- `quota != -1 and current_usage >= quota`
unfoldable pub is_quota_exceeded : ℕ → ℤ → Bool
is_quota_exceeded current_usage quota = not (is_unlimited quota) && leb_ℤ quota (pos current_usage)
