-- ===== src/Api/Routes.antt =====
-- api/routes.py: the ingestion of a batch and the admin routes. A request works on Redis, on the
-- delivery tasks it has started, and on the database, whose transaction is committed where the
-- handler returns. `minute` and `period_key` are the texts of the clock's minute and month.
-- `eighty_percent` is `int(quota * 0.8)`.
pub mod Storing
pub mod Log
use goderash.Common.{
  ℕ, ◌+◌, String, ◌+s◌, str_eq, Bool, true, false, ◌&&◌, not, ltb, leb, Option, none, some, List,
  [], ◌∷◌, any, keep, length, if◌then◌else◌, Outcome, returned, raised, ◌>>=◌,
}
use goderash.Int.{ℤ, pos, ltb_ℤ, leb_ℤ}
use goderash.Json.{Fields}
use goderash.Events.{GoderashEventEnvelope}
use goderash.Ledger.Chain.{Hasher}
use goderash.Ledger.Store.{EventRow, append_many}
use goderash.Billing.{
  Redis, counter_at, incrby, increment_usage, get_usage, is_quota_exceeded, or_zero,
}
use goderash.Webhooks.{WebhookEndpoint, targets}
use goderash.Database.{
  Database, Tenant, ApiError, http_exception, append_error, log_error, index_error, Handler,
  is_none, abort_if, or_abort, raising, scalar_one_or_none, add_key, add_tenant, new_key,
  new_tenant,
}
use goderash.Api.Auth.{Crypto, Settings, AuthContext, hash_key, require_admin}

pub record IngestResponse : Type 0 where
  pub accepted : ℕ
  pub first_event_id : ℕ
  pub last_event_id : ℕ

-- The clock, the logger, the string methods and the arithmetic that the routes call.
pub record Server : Type 0 where
  pub now : ℕ
  pub minute : String
  pub period_key : String → String
  pub period_start : ℕ
  pub warnings : Bool
  pub split : String → List String
  pub eighty_percent : ℤ → ℤ

-- What a request leaves behind: `notified` are the endpoints that tasks were started for.
pub record Ingest (F : Type 0) : Type 0 where
  pub outcome : Handler IngestResponse
  pub redis : Option Redis
  pub notified : List WebhookEndpoint
  pub db : Database F

unfoldable pub rate_key : String → String → String
rate_key tenant_id minute = "gdr:rate:ingest:" +s (tenant_id +s (":" +s minute))

-- The expiry of the counter is left out: its key names the minute.
unfoldable pub check_ingest_rate :
    String → String → ℕ → ℕ → Option Redis → Handler (Unit {0}) × Option Redis
unfolding rate_key
check_ingest_rate minute tenant_id batch_size limit_per_minute none = (returned tt, none)
check_ingest_rate minute tenant_id batch_size limit_per_minute (some redis) =
    let counters = incrby (rate_key tenant_id minute) batch_size redis.counters in
    let current = or_zero (counter_at (rate_key tenant_id minute) counters) in
    if redis.reachable
    then (abort_if (ltb limit_per_minute current) 429, some (record redis { counters = counters }))
    else (returned tt, some redis)

-- `warn > 0 and current_usage < warn <= current_usage + len(body.events)`
abbrev pub crosses : ℤ → ℕ → ℕ → Bool
crosses warn current_usage batch_size =
    ltb_ℤ (pos 0) warn
    && (ltb_ℤ (pos current_usage) warn && leb_ℤ warn (pos (current_usage + batch_size)))

-- The quota of the tenant's row, if it has one: the endpoints to warn.
-- The usage counter, where there is a Redis.
abbrev pub count_usage : Server → String → ℕ → Option Redis → Handler (Unit {0}) × Option Redis
count_usage sv tenant_id stored none = (returned tt, none)
count_usage sv tenant_id stored (some redis) =
    let (result, redis') = increment_usage sv.warnings (sv.period_key tenant_id) stored redis in
    (raising log_error result, some redis')

module _ {F : Type 0} where
  -- `stored[0].event_id` and `stored[-1].event_id`
  abbrev pub first_id : List (GoderashEventEnvelope F) → Handler ℕ
  first_id [] = raised index_error
  first_id (env ∷ rest) = returned env.event_id

  abbrev pub last_id : List (GoderashEventEnvelope F) → Handler ℕ
  last_id [] = raised index_error
  last_id (env ∷ []) = returned env.event_id
  last_id (env ∷ next ∷ rest) = last_id (next ∷ rest)

  unfoldable pub response_of : List (GoderashEventEnvelope F) → Handler IngestResponse
  response_of stored = do
    first ← first_id stored
    last ← last_id stored
    returned (record { accepted = length stored; first_event_id = first; last_event_id = last })

  unfoldable pub check_quota :
      Server → String → ℕ → Option Redis → Database F → Handler (List WebhookEndpoint)
  check_quota sv tenant_id batch_size redis db = do
    tenant_row ← scalar_one_or_none (keep (λ t. str_eq t.tenant_id tenant_id) db.tenants)
    (elim tenant_row [
      | none ↦ returned []
      | some tenant ↦
          (raising log_error (
            get_usage sv.warnings (sv.period_key tenant_id) tenant_id sv.period_start redis
              db.events))
          >>= (λ current_usage.
              abort_if (is_quota_exceeded current_usage tenant.monthly_event_quota) 402 >>= (λ _.
                returned (
                  if crosses (sv.eighty_percent tenant.monthly_event_quota) current_usage batch_size
                  then targets sv.split tenant_id "quota.warning" db.endpoints
                  else [])))
    ])

  abbrev pub is_foreign : String → GoderashEventEnvelope F → Bool
  is_foreign tenant_id env = not (str_eq env.tenant_id tenant_id)

module _ {F : Type 0} (hs : Hasher (Fields F)) where
  -- From `append_many` on.
  unfoldable pub store_batch :
      Server
      → String
      → List (GoderashEventEnvelope F)
      → Option Redis
      → List WebhookEndpoint
      → Database F
      → Ingest F
  unfolding response_of
  store_batch sv tenant_id events redis notified db =
      elim (append_many hs tenant_id sv.now events db.events) [
        | raised exc ↦ record {
          outcome = raised (append_error exc);
          redis = redis;
          notified = notified;
          db = db;
        }
        | returned (stored, rows) ↦
            let (counted, redis') = count_usage sv tenant_id (length stored) redis in
            elim (counted >>= (λ _. response_of stored)) [
              | returned response ↦ record {
                outcome = returned response;
                redis = redis';
                notified = notified;
                db = record db { events = rows };
              }
              | raised exc ↦ record {
                outcome = raised exc;
                redis = redis';
                notified = notified;
                db = db;
              }
            ]
      ]

  unfoldable pub ingest_events :
      Server
      → Settings
      → AuthContext
      → List (GoderashEventEnvelope F)
      → Option Redis
      → Database F
      → Ingest F
  unfolding check_ingest_rate check_quota store_batch
  ingest_events sv s auth events redis db =
      let (rate, redis') =
        check_ingest_rate sv.minute auth.tenant_id (length events) s.ingest_rate_limit_per_minute
          redis in
      let admitted =
        rate
        >>= (λ _. abort_if (any (is_foreign auth.tenant_id) events) 403)
        >>= (λ _. check_quota sv auth.tenant_id (length events) redis' db) in
      if ltb s.max_event_batch_size (length events)
      then record { outcome = raised (http_exception 413); redis = redis; notified = []; db = db }
      else elim admitted [
        | raised exc ↦ record { outcome = raised exc; redis = redis'; notified = []; db = db }
        | returned notified ↦ store_batch sv auth.tenant_id events redis' notified db
      ]

module _ {F : Type 0} where
  unfoldable pub create_tenant :
      AuthContext → String → String → Database F → Handler (Tenant × Database F)
  unfolding require_admin add_tenant
  create_tenant auth tenant_id display_name db = do
    _ ← require_admin auth
    db' ← add_tenant (new_tenant tenant_id display_name) db
    returned (new_tenant tenant_id display_name, db')

  -- The raw key, and the database with its hash.
  unfoldable pub create_api_key :
      Crypto
      → Settings
      → ℕ
      → ℕ
      → String
      → AuthContext
      → String
      → String
      → Database F
      → Handler (String × Database F)
  unfolding require_admin hash_key add_key
  create_api_key cr s now key_id secret auth tenant_id label db = do
    _ ← require_admin auth
    existing ← scalar_one_or_none (keep (λ t. str_eq t.tenant_id tenant_id) db.tenants)
    _ ← abort_if (is_none existing) 404
    let raw = s.api_key_prefix +s secret
    db' ← add_key (new_key key_id now tenant_id label (hash_key cr raw)) db
    returned (raw, db')
