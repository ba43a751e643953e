-- ===== src/Api/Auth.antt =====
-- api/auth.py: the API keys of the SDKs. `sha256` is hashlib's hex digest and `is_ascii` Python's
-- test on a text; the settings are those of config.py that the handlers read.
pub mod Access
use text.Mathlib.Text.{starts_with}
use goderash.Common.{
  ℕ, ◌+◌, String, str_eq, Bool, true, false, ◌&&◌, ◌||◌, ◌==◌, not, Option, none, some, List, [],
  ◌∷◌, keep, if◌then◌else◌, Outcome, returned, raised, ◌>>=◌,
}
use goderash.Database.{
  Database, ApiKey, ApiError, http_exception, type_error, Handler, truthy, is_some, abort_if,
  or_abort, scalar_one_or_none, update_where,
}

pub record Settings : Type 0 where
  pub api_key_prefix : String
  pub admin_api_key : String
  pub default_tenant : String
  pub max_event_batch_size : ℕ
  pub ingest_rate_limit_per_minute : ℕ
  pub require_email_verification : Bool
  pub billing_enabled : Bool
  pub stripe_secret_key : Option String

pub record Crypto : Type 0 where
  pub sha256 : String → String
  pub is_ascii : String → Bool

pub record AuthContext : Type 0 where
  pub tenant_id : String
  pub api_key_id : Option ℕ
  pub is_admin : Bool

unfoldable pub hash_key : Crypto → String → String
hash_key cr raw = cr.sha256 raw

-- `hmac.compare_digest` on two texts, which takes ASCII only.
unfoldable pub compare_digest : Crypto → String → String → Handler Bool
compare_digest cr a b =
    if cr.is_ascii a && cr.is_ascii b then returned (str_eq a b) else raised type_error

-- The tenant header, if there is one and it names another tenant.
unfoldable pub mismatch : Option String → String → Bool
mismatch none tenant_id = false
mismatch (some header) tenant_id = not (str_eq header tenant_id)

abbrev pub or_default : Option String → String → String
or_default none fallback = fallback
or_default (some s) fallback = s

abbrev pub admin_context : Settings → Option String → AuthContext
admin_context s x_goderash_tenant = record {
  tenant_id = or_default (truthy x_goderash_tenant) s.default_tenant;
  api_key_id = none;
  is_admin = true;
}

module _ {F : Type 0} (cr : Crypto) (s : Settings) where
  -- The context of a stored key, from the lookup by its hash on.
  unfoldable pub bind_key :
      ℕ → String → Option String → Database F → Handler (AuthContext × Database F)
  unfolding hash_key mismatch
  bind_key now raw x_goderash_tenant db = do
    result ← scalar_one_or_none (keep (λ k. str_eq k.key_hash (hash_key cr raw)) db.api_keys)
    row ← or_abort 401 result
    _ ← abort_if (is_some row.revoked_at) 401
    _ ← abort_if (mismatch (truthy x_goderash_tenant) row.tenant_id) 403
    returned (
      record { tenant_id = row.tenant_id; api_key_id = some row.key_id; is_admin = false },
      record db {
        api_keys =
            update_where (λ k. k.key_id == row.key_id) (λ k. record k { last_used_at = some now })
              db.api_keys;
      },
    )

  unfoldable pub require_api_key :
      ℕ → Option String → Option String → Database F → Handler (AuthContext × Database F)
  unfolding bind_key compare_digest truthy
  require_api_key now x_goderash_api_key x_goderash_tenant db = do
    raw ← or_abort 401 (truthy x_goderash_api_key)
    is_admin ← compare_digest cr raw s.admin_api_key
    (if is_admin
        then returned (admin_context s x_goderash_tenant, db)
        else if starts_with raw s.api_key_prefix
        then bind_key now raw x_goderash_tenant db
        else raised (http_exception 401))

unfoldable pub require_admin : AuthContext → Handler AuthContext
require_admin auth = do _ ← abort_if (not auth.is_admin) 403; returned auth
