-- ===== src/Api/Queries.antt =====
-- api/routes.py, api/orgs.py: the two listings of a tenant's events, the verification of its
-- chain, and the usage of the current period.
pub mod Listing
use goderash.Common.{
  ℕ, zero, ◌+◌, ◌-◌, String, str_eq, Bool, ◌&&◌, leb, ltb, not, Option, none, some, List, [], ◌∷◌,
  keep, map, take, length, if◌then◌else◌, Outcome, returned, raised, ◌>>=◌,
}
use goderash.Int.{ℤ, pos, negsuc}
use goderash.Json.{Fields}
use goderash.Ledger.Chain.{Hasher, verify_chain}
use goderash.Ledger.Store.{EventRow, rows_of, within, order_by_sequence, iter_tenant}
use goderash.Packs.{link_of}
use goderash.Billing.{get_usage, is_unlimited}
use goderash.Webhooks.{WebhookEndpoint, targets}
use goderash.Database.{
  Database, User, Tenant, Handler, zero_division, log_error, or_abort, raising, scalar_one_or_none,
  order_by,
}
use goderash.Api.Auth.{AuthContext}
use goderash.Api.Orgs.{require_membership}
use goderash.Api.Routes.{Server}

pub record EventOut (F : Type 0) : Type 0 where
  pub event_id : ℕ
  pub sequence_no : ℕ
  pub event_type : String
  pub conversation_id : String
  pub turn_id : String
  pub occurred_at : ℕ
  pub payload : Fields F
  pub prev_hash : String
  pub hash : String

pub record VerifyResponse : Type 0 where
  pub ok : Bool
  pub checked : ℕ
  pub first_broken_index : Option ℕ

pub record UsageOut (P : Type 0) : Type 0 where
  pub tenant_id : String
  pub plan : String
  pub events_used : ℕ
  pub quota : ℤ
  pub quota_pct : Option P
  pub overage : ℕ
  pub warning_threshold : Option ℤ

-- `max(0, used - quota)`
abbrev pub excess : ℕ → ℤ → ℕ
excess used (pos quota) = used - quota
excess used (negsuc n) = used + n + 1

-- `used / quota`, which raises for the quota 0; `ratio` is the rest of the float's computation.
unfoldable pub percent : {P : Type 0} → (ℕ → ℤ → P) → ℕ → ℤ → Handler P
percent ratio used (pos zero) = raised zero_division
percent ratio used quota = returned (ratio used quota)

-- The query's optional conversation.
abbrev pub of_conversation : {F : Type 0} → Option String → List (EventRow F) → List (EventRow F)
of_conversation none rows = rows
of_conversation (some c) rows = keep (λ r. str_eq r.conversation_id c) rows

module _ {F : Type 0} where
  abbrev pub event_out : EventRow F → EventOut F
  event_out r = record {
    event_id = r.event_id;
    sequence_no = r.sequence_no;
    event_type = r.event_type;
    conversation_id = r.conversation_id;
    turn_id = r.turn_id;
    occurred_at = r.occurred_at;
    payload = r.payload;
    prev_hash = r.prev_hash;
    hash = r.hash;
  }

  unfoldable pub list_events :
      AuthContext → Option String → Option ℕ → Option ℕ → ℕ → Database F → List (EventOut F)
  list_events auth conversation_id start end limit db =
      let own = keep (λ r. str_eq r.tenant_id auth.tenant_id) db.events in
      let rows = of_conversation conversation_id own in
      let after = within (λ t r. leb t r.occurred_at) start rows in
      let matching = within (λ t r. leb r.occurred_at t) end after in
      map event_out (take limit (order_by_sequence matching))

  unfoldable pub list_tenant_events :
      User
      → String
      → Option String
      → Option ℕ
      → Option ℕ
      → ℕ
      → Database F
      → Handler (List (EventOut F))
  unfolding require_membership
  list_tenant_events user tenant_id conversation_id start end limit db = do
    _ ← require_membership user tenant_id db
    let own = keep (λ r. str_eq r.tenant_id tenant_id) db.events
    let rows = of_conversation conversation_id own
    let after = within (λ t r. leb t r.occurred_at) start rows
    let matching = within (λ t r. leb r.occurred_at t) end after
    returned
        (map event_out (take limit (order_by (λ r s. leb s.sequence_no r.sequence_no) matching)))

  -- The answer, and the endpoints that tasks were started for.
  unfoldable pub verify :
      Hasher (Fields F)
      → Server
      → AuthContext
      → Option ℕ
      → Option ℕ
      → Option ℕ
      → Database F
      → VerifyResponse × List WebhookEndpoint
  verify hs sv auth start end limit db =
      let rows = iter_tenant auth.tenant_id start end limit db.events in
      let (ok, broken) = verify_chain hs (map (link_of hs) rows) in
      (
        record { ok = ok; checked = length rows; first_broken_index = broken },
        if ok then [] else targets sv.split auth.tenant_id "chain.broken" db.endpoints,
      )

  unfoldable pub get_tenant_usage :
      {P : Type 0} → (ℕ → ℤ → P) → Server → User → String → Database F → Handler (UsageOut P)
  unfolding require_membership percent
  get_tenant_usage ratio sv user tenant_id db = do
    _ ← require_membership user tenant_id db
    row ← scalar_one_or_none (keep (λ t. str_eq t.tenant_id tenant_id) db.tenants)
    tenant ← or_abort 404 row
    used ←
        raising log_error
          (get_usage sv.warnings (sv.period_key tenant_id) tenant_id sv.period_start none db.events)
    let quota = tenant.monthly_event_quota
    let limited = not (is_unlimited quota)
    quota_pct ←
        if limited then percent ratio used quota >>= (λ p. returned (some p)) else returned none
    returned (record {
      tenant_id = tenant_id;
      plan = tenant.plan;
      events_used = used;
      quota = quota;
      quota_pct = quota_pct;
      overage = if limited then excess used quota else 0;
      warning_threshold = if limited then some (sv.eighty_percent quota) else none;
    })
