-- ===== src/Api/Billing.antt =====
-- api/billing.py: the usage for an API key, and the events that Stripe posts. `construct_event` and
-- `json.loads` are parameters: the event they make of the body, by the keys the code reads.
use goderash.Common.{
  ℕ, String, str_eq, Bool, true, false, not, Option, none, some, keep, if◌then◌else◌, returned,
  raised, ◌>>=◌,
}
use goderash.Int.{ℤ, pos}
use goderash.Http.{warn_with_names}
use goderash.Billing.{Redis, get_usage, is_unlimited}
use goderash.Database.{
  Database, Tenant, Handler, http_exception, value_error, log_error, or_abort, raising, truthy,
  scalar_one_or_none, update_where, plan_quota,
}
use goderash.Api.Auth.{AuthContext}
use goderash.Api.Routes.{Server}
use goderash.Api.Queries.{UsageOut, excess, percent}

-- `data.object` of an event: what the handlers read of it. It is the field `subscription` below.
pub record Subscription : Type 0 where
  pub customer : Option String
  pub subscription_id : Option String
  pub plan : Option String

pub record StripeEvent : Type 0 where
  pub event_type : String
  pub subscription : Subscription

-- The library and the body of the request. `none` is an exception.
pub record WebhookCall : Type 0 where
  pub construct_event : String → String → Option StripeEvent
  pub loads : Option StripeEvent
  pub webhook_secret : Option String
  pub signature : Option String
  -- Whether the logger's level lets infos and warnings through.
  pub infos : Bool
  pub warnings : Bool

abbrev pub plan_or_hobby : Option String → String
plan_or_hobby none = "hobby"
plan_or_hobby (some plan) = plan

-- `PLAN_QUOTAS.get(plan, PLAN_QUOTAS["hobby"])`
abbrev pub quota_of : String → ℤ
quota_of plan = elim (plan_quota plan) [ none ↦ pos 10000 | some quota ↦ quota ]

-- `Tenant.stripe_customer_id == customer_id`, which is `IS NULL` for None.
abbrev pub is_customer : Option String → Tenant → Bool
is_customer none t = elim t.stripe_customer_id [ none ↦ true | some c ↦ false ]
is_customer (some customer_id) t = elim t.stripe_customer_id [
  | none ↦ false
  | some c ↦ str_eq c customer_id
]

abbrev pub set_plan : String → Option String → Tenant → Tenant
set_plan plan subscription_id t = record t {
  plan = plan;
  stripe_subscription_id = subscription_id;
  monthly_event_quota = quota_of plan;
}

-- The event of the request, verified where a secret is configured.
unfoldable pub read_event : WebhookCall → Handler StripeEvent
unfolding truthy warn_with_names
read_event call = elim (truthy call.webhook_secret) [
  | none ↦ elim call.loads [ none ↦ raised value_error | some event ↦ returned event ]
  | some secret ↦ elim call.signature [
    | none ↦ raised (http_exception 400)
    | some signature ↦ elim (call.construct_event signature secret) [
      | some event ↦ returned event
      | none ↦
          raising log_error (warn_with_names call.warnings) >>= (λ _. raised (http_exception 400))
    ]
  ]
]

module _ {F : Type 0} where
  unfoldable pub get_billing_usage :
      {P : Type 0}
      → (ℕ → ℤ → P)
      → Server
      → AuthContext
      → Option Redis
      → Database F
      → Handler (UsageOut P)
  unfolding percent
  get_billing_usage ratio sv auth redis db = do
    row ← scalar_one_or_none (keep (λ t. str_eq t.tenant_id auth.tenant_id) db.tenants)
    tenant ← or_abort 404 row
    used ← raising log_error (
        get_usage sv.warnings (sv.period_key auth.tenant_id) auth.tenant_id sv.period_start redis
          db.events)
    let quota = tenant.monthly_event_quota
    let limited = not (is_unlimited quota)
    quota_pct ←
        if limited then percent ratio used quota >>= (λ p. returned (some p)) else returned none
    returned (record {
      tenant_id = auth.tenant_id;
      plan = tenant.plan;
      events_used = used;
      quota = quota;
      quota_pct = quota_pct;
      overage = if limited then excess used quota else 0;
      warning_threshold = if limited then some (sv.eighty_percent quota) else none;
    })

  -- The tenant of the customer, if there is one, with a new plan; the log call that follows takes
  -- names that a standard logger does not.
  unfoldable pub change_plan :
      Bool → Option String → String → Option String → Database F → Handler (Unit {0} × Database F)
  unfolding warn_with_names
  change_plan infos customer plan subscription_id db = do
    found ← scalar_one_or_none (keep (is_customer customer) db.tenants)
    (elim found [
      | none ↦ returned (tt, db)
      | some tenant ↦ raising log_error (warn_with_names infos) >>= (λ _. returned (
        tt,
        record db {
          tenants =
              update_where (λ t. str_eq t.tenant_id tenant.tenant_id)
                (set_plan plan subscription_id) db.tenants;
        },
      ))
    ])

  unfoldable pub handle_subscription_updated :
      Bool → Subscription → Database F → Handler (Unit {0} × Database F)
  unfolding change_plan
  handle_subscription_updated infos sub db =
      change_plan infos sub.customer (plan_or_hobby sub.plan) sub.subscription_id db

  unfoldable pub handle_subscription_deleted :
      Bool → Subscription → Database F → Handler (Unit {0} × Database F)
  unfolding change_plan
  handle_subscription_deleted infos sub db = change_plan infos sub.customer "hobby" none db

  unfoldable pub stripe_webhook : WebhookCall → Database F → Handler (Unit {0} × Database F)
  unfolding read_event handle_subscription_updated handle_subscription_deleted
  stripe_webhook call db = do
    event ← read_event call
    (if str_eq event.event_type "customer.subscription.updated"
        then handle_subscription_updated call.infos event.subscription db
        else if str_eq event.event_type "customer.subscription.deleted"
        then handle_subscription_deleted call.infos event.subscription db
        else returned (tt, db))
