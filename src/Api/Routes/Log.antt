-- ===== src/Api/Routes/Log.antt =====
-- api/routes.py: the ingestion of a batch against the log that a client sees.
use goderash.Common.{
  Outcome-cases, String, eq_iff, true, false, ltb, ◌≡◌, refl, ◌⊎◌, inl, inr, Option, List, [], ◌∷◌,
  any, length, keep, str_eq, ℕ, arith, returned, raised, Bool-cases,
}
use goderash.Json.{Fields}
use goderash.Events.{GoderashEventEnvelope}
use goderash.Ledger.Chain.{Hasher}
use goderash.Ledger.Chain.Evidence.{DigestCount, IsBroken}
use goderash.Ledger.Store.{rows_of}
use goderash.Ledger.Store.Fresh.{AreKept, hashed, IsChain, IsFresh, AllOf}
use goderash.Billing.{Redis, get_usage, is_quota_exceeded}
use goderash.Webhooks.{WebhookEndpoint}
use goderash.Database.{Database, ApiError, Tenant, http_exception, log_error}
use goderash.Http.{LogError}
use goderash.Api.Auth.{Settings, AuthContext}
use goderash.Api.Routes.{
  Server, Ingest, IngestResponse, check_ingest_rate, check_quota, count_usage, is_foreign,
  store_batch, ingest_events,
}
use goderash.Api.Routes.Storing.{IsStored, Ends, store_batch-Ends}

module _ {F : Type 0} where
  AllOf-foreign :
      (t : String) (events : List (GoderashEventEnvelope F))
      → any (is_foreign t) events ≡ false
      → AllOf t events
  AllOf-foreign t [] h = tt
  AllOf-foreign t (env ∷ events) h =
      (ground (arith, eq_iff env.tenant_id t), AllOf-foreign t events (ground arith))

  -- Why the quota holds a batch back: the usage of the tenant is at its quota, or cannot be read; or
  -- the tenant has more than one row.
  pub data OverQuota (sv : Server) (t : String) (redis : Option Redis) (db : Database F)
      (exc : ApiError) : Type 0 where
    at_quota :
        (tenant : Tenant) (usage : ℕ)
        → keep (λ row. str_eq row.tenant_id t) db.tenants ≡ tenant ∷ []
        → get_usage sv.warnings (sv.period_key t) t sv.period_start redis db.events ≡ returned usage
        → is_quota_exceeded usage tenant.monthly_event_quota ≡ true
        → exc ≡ http_exception 402
        → OverQuota sv t redis db exc
    unread :
        (failure : LogError)
        → get_usage sv.warnings (sv.period_key t) t sv.period_start redis db.events ≡ raised failure
        → exc ≡ log_error failure
        → OverQuota sv t redis db exc
    ambiguous :
        (one two : Tenant) (more : List Tenant)
        → keep (λ row. str_eq row.tenant_id t) db.tenants ≡ one ∷ two ∷ more
        → OverQuota sv t redis db exc

  check_quota-OverQuota :
      (sv : Server) (t : String) (n : ℕ) (redis : Option Redis) (db : Database F) (exc : ApiError)
      → check_quota sv t n redis db ≡ raised exc
      → OverQuota sv t redis db exc
  unfolding check_quota
  check_quota-OverQuota sv t n redis db exc over =
      by_rows (keep (λ row. str_eq row.tenant_id t) db.tenants) refl
    where
      by_rows :
          (rows : List Tenant)
          → keep (λ row. str_eq row.tenant_id t) db.tenants ≡ rows
          → OverQuota sv t redis db exc
      by_rows [] e = absurd (ground (arith, e, over))
      by_rows (one ∷ two ∷ more) e = OverQuota.ambiguous one two more e
      by_rows (tenant ∷ []) e =
          elim (Outcome-cases
            (get_usage sv.warnings (sv.period_key t) t sv.period_start redis db.events)) [
              | inr (failure, silent) ↦
                  OverQuota.unread failure silent (ground (arith, e, silent, over))
              | inl (usage, read) ↦
                  elim (Bool-cases (is_quota_exceeded usage tenant.monthly_event_quota)) [
                    | inl full ↦
                        OverQuota.at_quota tenant usage e read full
                          (ground (arith, e, read, full, over))
                    | inr room ↦ absurd (ground (arith, e, read, room, over))
                  ]
            ]

  -- Why a batch is not stored.
  pub data Refused (sv : Server) (s : Settings) (t : String)
      (events : List (GoderashEventEnvelope F)) (redis : Option Redis) (db : Database F)
      (exc : ApiError) : Type 0 where
    too_large :
        ltb s.max_event_batch_size (length events) ≡ true
        → exc ≡ http_exception 413
        → Refused sv s t events redis db exc
    too_fast :
        (check_ingest_rate sv.minute t (length events) s.ingest_rate_limit_per_minute redis).0
          ≡ raised exc
        → Refused sv s t events redis db exc
    foreign :
        any (is_foreign t) events ≡ true
        → exc ≡ http_exception 403
        → Refused sv s t events redis db exc
    over_quota :
        OverQuota sv t
          (check_ingest_rate sv.minute t (length events) s.ingest_rate_limit_per_minute redis).1
          db
          exc
        → Refused sv s t events redis db exc
    uncounted :
        (count_usage sv t
            (length events)
            (check_ingest_rate sv.minute t
              (length events)
              s.ingest_rate_limit_per_minute
              redis).1).0
          ≡ raised exc
        → Refused sv s t events redis db exc

module _ {F : Type 0} (hs : Hasher (Fields F)) (sv : Server) where
  -- The guards: one refuses, or the batch comes to `store_batch`.
  abbrev Passes :
      Settings
      → String
      → List (GoderashEventEnvelope F)
      → Option Redis
      → Database F
      → Ingest F
      → Type 0
  Passes s t events redis db r =
      ((exc : ApiError) × (r.outcome ≡ raised exc)
        × (r.db ≡ db)
        × Refused sv s t events redis db exc)
      ⊎ ((notified : List WebhookEndpoint) × AllOf t events
          × (r
              ≡ store_batch hs sv t events
                  (check_ingest_rate sv.minute t (length events) s.ingest_rate_limit_per_minute
                    redis).1
                  notified db))

  ingest_events-Passes :
      (s : Settings) (auth : AuthContext) (events : List (GoderashEventEnvelope F))
      (redis : Option Redis) (db : Database F)
      → Passes s auth.tenant_id events redis db (ingest_events hs sv s auth events redis db)
  unfolding ingest_events
  ingest_events-Passes s auth events redis db =
      let t = auth.tenant_id in
      let rate =
        check_ingest_rate sv.minute t (length events) s.ingest_rate_limit_per_minute redis in
      elim (Bool-cases (ltb s.max_event_batch_size (length events))) [
        | inl large ↦ inl (_, rw large refl, rw large refl, Refused.too_large large refl)
        | inr small ↦ elim (Outcome-cases rate.0) [
          | inr (exc, fast) ↦
              inl (exc, rw (small, fast) refl, rw (small, fast) refl, Refused.too_fast fast)
          | inl (_, slow) ↦ elim (Bool-cases (any (is_foreign t) events)) [
            | inl other ↦ inl (
              _,
              rw (small, slow, other) refl,
              rw (small, slow, other) refl,
              Refused.foreign other refl,
            )
            | inr own ↦ elim (Outcome-cases (check_quota sv t (length events) rate.1 db)) [
              | inr (exc, over) ↦ inl (
                exc,
                rw (small, slow, own, over) refl,
                rw (small, slow, own, over) refl,
                Refused.over_quota (check_quota-OverQuota sv t (length events) rate.1 db exc over),
              )
              | inl (notified, under) ↦
                  inr (notified, AllOf-foreign t events own, rw (small, slow, own, under) refl)
            ]
          ]
        ]
      ]

  -- A batch of at least one event whose identifiers are new, whose fields fit the columns and whose
  -- payloads JSONB gives back reading the same, for a tenant whose rows are a chain: it is stored,
  -- with all its events behind the tenant's log, the logs of all other tenants as they were, and a
  -- chain that verifies; or the handler raises and the database is as it was, and then the batch is
  -- too large, the check of the rate raises, an event is of another tenant, the tenant's usage is at
  -- its quota (402) or cannot be read, the tenant has two rows, or the count of the usage raises; or
  -- two different texts of those hashed for the tenant's rows and the batch have one digest, or one
  -- has the genesis sentinel.
  pub ingest_events-refines :
      DigestCount hs
      → (s : Settings) (auth : AuthContext) (env : GoderashEventEnvelope F)
        (rest : List (GoderashEventEnvelope F)) (redis : Option Redis) (db : Database F)
      → IsFresh (env ∷ rest) db.events
      → IsChain hs (rows_of auth.tenant_id db.events)
      → AreKept hs (env ∷ rest)
      → let r = ingest_events hs sv s auth (env ∷ rest) redis db in
        ((response : IngestResponse) × (r.outcome ≡ returned response)
          × IsStored hs auth.tenant_id (env ∷ rest) response db r.db)
        ⊎ ((exc : ApiError) × (r.outcome ≡ raised exc)
            × (r.db ≡ db)
            × Refused sv s auth.tenant_id (env ∷ rest) redis db exc)
        ⊎ IsBroken hs (hashed hs (rows_of auth.tenant_id db.events) (env ∷ rest))
  ingest_events-refines dc s auth env rest redis db fresh chain kept =
      let limited =
        check_ingest_rate sv.minute auth.tenant_id (length (env ∷ rest))
          s.ingest_rate_limit_per_minute redis in
      elim (ingest_events-Passes s auth (env ∷ rest) redis db) [
        | inl refused ↦ inr (inl refused)
        | inr (notified, own, e) ↦ rw e (
            named (store_batch hs sv auth.tenant_id (env ∷ rest) limited.1 notified db) (
              store_batch-Ends hs sv dc auth.tenant_id env rest limited.1 notified db own fresh
                chain kept))
      ]
    where
      named :
          (r : Ingest F)
          → Ends hs sv auth.tenant_id
              (env ∷ rest)
              (check_ingest_rate sv.minute auth.tenant_id
                (length (env ∷ rest))
                s.ingest_rate_limit_per_minute
                redis).1
              db
              r
          → ((response : IngestResponse) × (r.outcome ≡ returned response)
              × IsStored hs auth.tenant_id (env ∷ rest) response db r.db)
            ⊎ ((exc : ApiError) × (r.outcome ≡ raised exc)
                × (r.db ≡ db)
                × Refused sv s auth.tenant_id (env ∷ rest) redis db exc)
            ⊎ IsBroken hs (hashed hs (rows_of auth.tenant_id db.events) (env ∷ rest))
      named r (inl stored) = inl stored
      named r (inr (inl (exc, failed, same, why))) =
          inr (inl (exc, failed, same, Refused.uncounted why))
      named r (inr (inr broken)) = inr (inr broken)
