-- ===== src/Api/Orgs.antt =====
-- api/orgs.py: who may act on a tenant, and its API keys. The acting user is what
-- `require_session` returned; a new row's identifier, the clock and the random part of a key are
-- arguments.
pub mod Keys
use goderash.Common.{
  ℕ, String, ◌+s◌, str_eq, Bool, ◌&&◌, ◌==◌, not, leb, List, [], ◌∷◌, any, keep, map, if◌then◌else◌,
  Outcome, returned, raised, ◌>>=◌, Option, some,
}
use goderash.Database.{
  Database, ApiKey, User, Membership, Handler, is_none, abort_if, or_abort, scalar_one_or_none,
  update_where, order_by, add_key, new_key,
}
use goderash.Api.Auth.{Crypto, Settings, hash_key}

pub record IssueKeyResponse : Type 0 where
  pub key_id : ℕ
  pub tenant_id : String
  pub label : String
  pub api_key : String
  pub created_at : ℕ

pub record KeyOut : Type 0 where
  pub key_id : ℕ
  pub tenant_id : String
  pub label : String
  pub created_at : ℕ
  pub last_used_at : Option ℕ
  pub revoked_at : Option ℕ

abbrev pub key_out : ApiKey → KeyOut
key_out k = record {
  key_id = k.key_id;
  tenant_id = k.tenant_id;
  label = k.label;
  created_at = k.created_at;
  last_used_at = k.last_used_at;
  revoked_at = k.revoked_at;
}

unfoldable pub require_role : Membership → List String → Handler (Unit {0})
require_role membership allowed = abort_if (not (any (str_eq membership.role) allowed)) 403

-- The roles that manage a tenant.
abbrev pub managers : List String
managers = "owner" ∷ "admin" ∷ []

abbrev pub is_member_row : ℕ → String → Membership → Bool
is_member_row user_id tenant_id m = m.user_id == user_id && str_eq m.tenant_id tenant_id

abbrev pub revoke : ℕ → ApiKey → ApiKey
revoke now k = record k { revoked_at = some now }

module _ {F : Type 0} where
  unfoldable pub require_membership : User → String → Database F → Handler Membership
  require_membership user tenant_id db = do
    membership ← scalar_one_or_none (keep (is_member_row user.user_id tenant_id) db.memberships)
    or_abort 404 membership

  -- The two checks that open every handler which manages a tenant.
  unfoldable pub require_manager : User → String → Database F → Handler Membership
  unfolding require_membership require_role
  require_manager user tenant_id db = do
    membership ← require_membership user tenant_id db
    _ ← require_role membership managers
    returned membership

  unfoldable pub list_keys : User → String → Database F → Handler (List KeyOut)
  unfolding require_membership
  list_keys user tenant_id db = do
    _ ← require_membership user tenant_id db
    returned (
        map key_out (
          order_by (λ k j. leb j.created_at k.created_at)
            (keep (λ k. str_eq k.tenant_id tenant_id) db.api_keys)))

  unfoldable pub issue_key :
      Crypto
      → Settings
      → ℕ
      → ℕ
      → String
      → User
      → String
      → String
      → Database F
      → Handler (IssueKeyResponse × Database F)
  unfolding require_manager hash_key add_key
  issue_key cr s now key_id secret user tenant_id label db = do
    _ ← require_manager user tenant_id db
    let raw = s.api_key_prefix +s secret
    db' ← add_key (new_key key_id now tenant_id label (hash_key cr raw)) db
    returned (
      record {
        key_id = key_id;
        tenant_id = tenant_id;
        label = label;
        api_key = raw;
        created_at = now;
      },
      db',
    )

  unfoldable pub revoke_key : ℕ → User → String → ℕ → Database F → Handler (Unit {0} × Database F)
  unfolding require_manager
  revoke_key now user tenant_id key_id db = do
    _ ← require_manager user tenant_id db
    result ←
        scalar_one_or_none
          (keep (λ k. k.key_id == key_id && str_eq k.tenant_id tenant_id) db.api_keys)
    key ← or_abort 404 result
    let keys = update_where (λ k. k.key_id == key.key_id) (revoke now) db.api_keys
    returned (tt, if is_none key.revoked_at then record db { api_keys = keys } else db)
