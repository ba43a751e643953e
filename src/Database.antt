-- ===== src/Database.antt =====
-- The tables of models/*.py besides the events, and the session of db.py. A table is the list of
-- its rows, oldest first; UUIDs and times are numbers, and a new row's are arguments. A handler is
-- a function from the database to an error, or a result and the next database.
use goderash.Common.{
  ℕ, String, str_eq, Bool, true, false, ◌&&◌, ◌||◌, ◌==◌, not, Option, none, some, List, [], ◌∷◌,
  ◌++◌, any, if◌then◌else◌, Outcome, returned, raised, ◌>>=◌,
}
use goderash.Int.{ℤ, pos, negsuc}
use goderash.Http.{LogError}
use goderash.Ledger.Store.{EventRow, AppendError}
use goderash.Webhooks.{WebhookEndpoint}

pub record Tenant : Type 0 where
  pub tenant_id : String
  pub display_name : String
  pub plan : String
  pub monthly_event_quota : ℤ
  pub is_active : Bool
  pub stripe_customer_id : Option String
  pub stripe_subscription_id : Option String

pub record ApiKey : Type 0 where
  pub key_id : ℕ
  pub tenant_id : String
  pub key_hash : String
  pub label : String
  pub created_at : ℕ
  pub last_used_at : Option ℕ
  pub revoked_at : Option ℕ

pub record User : Type 0 where
  pub user_id : ℕ
  pub email : String
  pub password_hash : String
  pub full_name : String
  pub created_at : ℕ
  pub email_verified_at : Option ℕ
  pub last_login_at : Option ℕ
  pub is_active : Bool

pub record Membership : Type 0 where
  pub membership_id : ℕ
  pub user_id : ℕ
  pub tenant_id : String
  pub role : String
  pub created_at : ℕ

-- `PasswordResetToken` and `EmailVerificationToken` have the same columns.
pub record AuthToken : Type 0 where
  pub token_id : ℕ
  pub user_id : ℕ
  pub token_hash : String
  pub expires_at : ℕ
  pub used_at : Option ℕ

pub record Invite : Type 0 where
  pub invite_id : ℕ
  pub tenant_id : String
  pub inviter_user_id : Option ℕ
  pub email : String
  pub role : String
  pub token_hash : String
  pub expires_at : ℕ
  pub accepted_at : Option ℕ
  pub revoked_at : Option ℕ
  pub created_at : ℕ

pub record Database (F : Type 0) : Type 0 where
  pub tenants : List Tenant
  pub api_keys : List ApiKey
  pub users : List User
  pub memberships : List Membership
  pub password_resets : List AuthToken
  pub email_verifications : List AuthToken
  pub invites : List Invite
  pub events : List (EventRow F)
  pub endpoints : List WebhookEndpoint

-- What a handler raises: FastAPI's exception with its status, or what reaches the server as it is.
pub data ApiError : Type 0 where
  http_exception : ℕ → ApiError
  integrity_error multiple_results type_error value_error zero_division index_error unhandled :
      ApiError
  append_error : AppendError → ApiError
  log_error : LogError → ApiError

abbrev pub Handler : Type 0 → Type 0
Handler A = Outcome ApiError A

-- `raise HTTPException(status, …)` if the test holds.
abbrev pub abort_if : Bool → ℕ → Handler (Unit {0})
abort_if test code = if test then raised (http_exception code) else returned tt

-- `x is not None`
abbrev pub is_some : {A : Type 0} → Option A → Bool
is_some none = false
is_some (some a) = true

-- `x is None`, and `IS NULL`
abbrev pub is_none : {A : Type 0} → Option A → Bool
is_none none = true
is_none (some a) = false

-- A call that raises something else: `except …: raise HTTPException(status, …)`, or no handler.
abbrev pub raising : {E A : Type 0} → (E → ApiError) → Outcome E A → Handler A
raising wrap (returned value) = returned value
raising wrap (raised exc) = raised (wrap exc)

-- `except IntegrityError as exc: raise HTTPException(status, …)`
abbrev pub on_integrity : {A : Type 0} → ℕ → Handler A → Handler A
on_integrity code (raised integrity_error) = raised (http_exception code)
on_integrity code result = result

-- A text that is given and not empty, for `if not x` and `x or …`
unfoldable pub truthy : Option String → Option String
truthy none = none
truthy (some s) = if str_eq s "" then none else some s

module _ {A : Type 0} where
  -- `result.scalar_one_or_none()`
  abbrev pub scalar_one_or_none : List A → Handler (Option A)
  scalar_one_or_none [] = returned none
  scalar_one_or_none (x ∷ []) = returned (some x)
  scalar_one_or_none (x ∷ y ∷ rest) = raised multiple_results

  -- A row that must be there: `if row is None: raise HTTPException(status, …)`
  abbrev pub or_abort : ℕ → Option A → Handler A
  or_abort code none = raised (http_exception code)
  or_abort code (some a) = returned a

  -- `update(…).where(…).values(…)`
  abbrev pub update_where : (A → Bool) → (A → A) → List A → List A
  update_where p f [] = []
  update_where p f (x ∷ xs) = let rest = update_where p f xs in if p x then f x ∷ rest else x ∷ rest

  -- `session.add(…)` and the flush, under the unique constraints that `clash` tests and the
  -- foreign keys that `known` tests.
  unfoldable pub insert : (A → Bool) → Bool → A → List A → Handler (List A)
  insert clash known row rows =
      if known && not (any clash rows) then returned (rows ++ row ∷ []) else raised integrity_error

module _ {A : Type 0} (before : A → A → Bool) where
  -- `ORDER BY`: `before` tells whether the new row stands before an old one.
  abbrev pub insert_by : A → List A → List A
  insert_by x [] = x ∷ []
  insert_by x (y ∷ rest) =
      let others = insert_by x rest in if before x y then x ∷ y ∷ rest else y ∷ others

  abbrev pub order_by : List A → List A
  order_by [] = []
  order_by (x ∷ rest) = insert_by x (order_by rest)

-- `session_scope`: the transaction commits if the body returns, and is rolled back if it raises.
unfoldable pub session_scope : {A D : Type 0} → (D → Handler (A × D)) → D → Handler A × D
session_scope body db = elim (body db) [
  | returned (value, db') ↦ (returned value, db')
  | raised exc ↦ (raised exc, db)
]

abbrev pub token_clash : AuthToken → AuthToken → Bool
token_clash row t = t.token_id == row.token_id || str_eq t.token_hash row.token_hash

abbrev pub membership_clash : Membership → Membership → Bool
membership_clash row m =
    m.membership_id == row.membership_id
    || (m.user_id == row.user_id && str_eq m.tenant_id row.tenant_id)

module _ {F : Type 0} where
  abbrev pub has_tenant : String → Database F → Bool
  has_tenant tenant_id db = any (λ t. str_eq t.tenant_id tenant_id) db.tenants

  abbrev pub has_user : ℕ → Database F → Bool
  has_user user_id db = any (λ u. u.user_id == user_id) db.users

  abbrev pub has_inviter : Option ℕ → Database F → Bool
  has_inviter none db = true
  has_inviter (some user_id) db = has_user user_id db

  -- `session.add` of an `ApiKey`: its primary key, its unique hash and its foreign key.
  unfoldable pub add_key : ApiKey → Database F → Handler (Database F)
  unfolding insert
  add_key key db = do
    keys ←
        insert (λ k. k.key_id == key.key_id || str_eq k.key_hash key.key_hash)
          (has_tenant key.tenant_id db) key db.api_keys
    returned (record db { api_keys = keys })

  unfoldable pub add_user : User → Database F → Handler (Database F)
  unfolding insert
  add_user user db = do
    users ← insert (λ u. u.user_id == user.user_id || str_eq u.email user.email) true user db.users
    returned (record db { users = users })

  unfoldable pub add_tenant : Tenant → Database F → Handler (Database F)
  unfolding insert
  add_tenant tenant db = do
    tenants ← insert (λ t. str_eq t.tenant_id tenant.tenant_id) true tenant db.tenants
    returned (record db { tenants = tenants })

  -- The primary key, one membership of a user in a tenant, and the foreign keys.
  unfoldable pub add_membership : Membership → Database F → Handler (Database F)
  unfolding insert
  add_membership row db = do
    memberships ←
        insert (membership_clash row) (has_user row.user_id db && has_tenant row.tenant_id db) row
          db.memberships
    returned (record db { memberships = memberships })

  unfoldable pub add_invite : Invite → Database F → Handler (Database F)
  unfolding insert
  add_invite row db = do
    invites ←
        insert (λ i. i.invite_id == row.invite_id || str_eq i.token_hash row.token_hash)
          (has_tenant row.tenant_id db && has_inviter row.inviter_user_id db) row db.invites
    returned (record db { invites = invites })

  unfoldable pub add_password_reset : AuthToken → Database F → Handler (Database F)
  unfolding insert
  add_password_reset row db = do
    rows ← insert (token_clash row) (has_user row.user_id db) row db.password_resets
    returned (record db { password_resets = rows })

  unfoldable pub add_email_verification : AuthToken → Database F → Handler (Database F)
  unfolding insert
  add_email_verification row db = do
    rows ← insert (token_clash row) (has_user row.user_id db) row db.email_verifications
    returned (record db { email_verifications = rows })

-- `PLAN_QUOTAS`; -1 is unlimited.
abbrev pub plan_quota : String → Option ℤ
plan_quota plan =
    if str_eq plan "hobby"
    then some (pos 10000)
    else if str_eq plan "startup"
    then some (pos 1000000)
    else if str_eq plan "growth"
    then some (pos 10000000)
    else if str_eq plan "enterprise"
    then some (negsuc 0)
    else none

-- A tenant's row as the code adds it: the columns it does not name have their defaults.
abbrev pub new_tenant : String → String → Tenant
new_tenant tenant_id display_name = record {
  tenant_id = tenant_id;
  display_name = display_name;
  plan = "hobby";
  monthly_event_quota = pos 10000;
  is_active = true;
  stripe_customer_id = none;
  stripe_subscription_id = none;
}

abbrev pub new_key : ℕ → ℕ → String → String → String → ApiKey
new_key key_id now tenant_id label key_hash = record {
  key_id = key_id;
  tenant_id = tenant_id;
  key_hash = key_hash;
  label = label;
  created_at = now;
  last_used_at = none;
  revoked_at = none;
}
