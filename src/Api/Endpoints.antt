-- ===== src/Api/Endpoints.antt =====
-- api/webhooks.py: the webhook endpoints of a tenant. `WebhookEndpoint.generate_secret` draws the
-- argument `secret`.
use goderash.Common.{
  ℕ, String, str_eq, Bool, true, false, ◌&&◌, ◌==◌, leb, Option, none, some, List, keep, map,
  returned, ◌>>=◌,
}
use goderash.Webhooks.{WebhookEndpoint}
use goderash.Database.{
  Database, User, Tenant, Handler, abort_if, or_abort, scalar_one_or_none, update_where, order_by,
  insert, has_tenant,
}
use goderash.Api.Orgs.{require_membership}

pub record WebhookOut : Type 0 where
  pub endpoint_id : ℕ
  pub tenant_id : String
  pub url : String
  pub events_filter : String
  pub is_active : Bool
  pub created_at : ℕ
  pub last_fired_at : Option ℕ
  pub last_status : Option ℕ

-- The secret is part of the answer to the creation alone.
pub record WebhookCreated : Type 0 where
  pub webhook : WebhookOut
  pub hmac_secret : String

unfoldable pub to_out : WebhookEndpoint → WebhookOut
to_out r = record {
  endpoint_id = r.endpoint_id;
  tenant_id = r.tenant_id;
  url = r.url;
  events_filter = r.events_filter;
  is_active = r.is_active;
  created_at = r.created_at;
  last_fired_at = r.last_fired_at;
  last_status = r.last_status;
}

abbrev pub new_endpoint : ℕ → ℕ → String → String → String → String → WebhookEndpoint
new_endpoint endpoint_id now tenant_id url secret events_filter = record {
  endpoint_id = endpoint_id;
  tenant_id = tenant_id;
  url = url;
  hmac_secret = secret;
  events_filter = events_filter;
  is_active = true;
  created_at = now;
  last_fired_at = none;
  last_status = none;
}

-- `tenant is None or tenant.plan == PLAN_HOBBY`
abbrev pub is_hobby : Option Tenant → Bool
is_hobby none = true
is_hobby (some tenant) = str_eq tenant.plan "hobby"

module _ {F : Type 0} where
  unfoldable pub list_webhooks : User → String → Database F → Handler (List WebhookOut)
  unfolding require_membership to_out
  list_webhooks user tenant_id db = do
    _ ← require_membership user tenant_id db
    returned (
        map to_out (
          order_by (λ r s. leb s.created_at r.created_at)
            (keep (λ r. str_eq r.tenant_id tenant_id) db.endpoints)))

  unfoldable pub create_webhook :
      ℕ
      → ℕ
      → String
      → User
      → String
      → String
      → String
      → Database F
      → Handler (WebhookCreated × Database F)
  unfolding require_membership to_out insert
  create_webhook now endpoint_id secret user tenant_id url events_filter db = do
    _ ← require_membership user tenant_id db
    tenant ← scalar_one_or_none (keep (λ t. str_eq t.tenant_id tenant_id) db.tenants)
    _ ← abort_if (is_hobby tenant) 402
    let endpoint = new_endpoint endpoint_id now tenant_id url secret events_filter
    endpoints ←
        insert (λ r. r.endpoint_id == endpoint_id) (has_tenant tenant_id db) endpoint db.endpoints
    returned (
      record { webhook = to_out endpoint; hmac_secret = secret },
      record db { endpoints = endpoints },
    )

  -- The endpoint is switched off; its row stays.
  unfoldable pub delete_webhook : User → String → ℕ → Database F → Handler (Unit {0} × Database F)
  unfolding require_membership
  delete_webhook user tenant_id webhook_id db = do
    _ ← require_membership user tenant_id db
    result ←
        scalar_one_or_none
          (keep (λ r. r.endpoint_id == webhook_id && str_eq r.tenant_id tenant_id) db.endpoints)
    endpoint ← or_abort 404 result
    returned (
      tt,
      record db {
        endpoints =
            update_where (λ r. r.endpoint_id == endpoint.endpoint_id)
              (λ r. record r { is_active = false }) db.endpoints;
      },
    )
