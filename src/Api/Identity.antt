-- ===== src/Api/Identity.antt =====
-- api/auth_public.py: the sessions of the dashboard's users. The rate limit of the decorators is
-- left out. The texts that a call draws at random, the clock and the results of the string
-- methods are arguments; `blocked` is the list of revoked tokens in Redis.
pub mod Sessions
use text.Mathlib.Text.{starts_with}
use goderash.Common.{
  ℕ, ◌+◌, ◌-◌, String, str_eq, Bool, true, false, ◌&&◌, ◌||◌, ◌==◌, not, Option, none, some, List,
  [], ◌∷◌, ◌++◌, keep, if◌then◌else◌, Outcome, returned, raised, ◌>>=◌,
}
use goderash.Billing.Stripe.{Stripe}
use goderash.Security.{
  TokenKind, access, refresh, SessionClaims, JwtError, Jwt, issue_session_token,
  decode_session_token, Blocked, revoke_jti, is_jti_revoked, PasswordHasher, verify_password,
}
use goderash.Database.{
  Database, Tenant, User, Membership, Handler, http_exception, truthy, is_none, is_some, abort_if,
  or_abort, raising, scalar_one_or_none, update_where,
}
use goderash.Api.Auth.{Crypto, Settings}

pub record Services : Type 0 where
  pub crypto : Crypto
  pub settings : Settings
  pub jwt : Jwt
  pub hasher : PasswordHasher
  -- `str.lower`, `str.strip` and `s.split(" ", 1)[1]`
  pub lower : String → String
  pub strip : String → String
  pub after_space : String → String
  -- `email.split("@", 1)[0]`, and the substitution, strip and cut of `_slugify_tenant`
  pub local_part : String → String
  pub slug_base : String → String
  -- Stripe's library, and whether the logger's level lets warnings through.
  pub stripe : Option Stripe
  pub warnings : Bool

pub record TokenPair : Type 0 where
  pub access_token : String
  pub access_expires_at : ℕ
  pub refresh_token : String
  pub refresh_expires_at : ℕ

-- The two identifiers that `_issue_pair` draws.
pub record PairDraw : Type 0 where
  pub access_jti : String
  pub refresh_jti : String

pub record TenantMembership : Type 0 where
  pub tenant_id : String
  pub role : String
  pub display_name : String

pub record MeResponse : Type 0 where
  pub user_id : ℕ
  pub email : String
  pub full_name : String
  pub email_verified : Bool
  pub created_at : ℕ
  pub memberships : List TenantMembership

abbrev pub with_email : String → List User → List User
with_email email = keep (λ u. str_eq u.email email)

abbrev pub with_user_id : ℕ → List User → List User
with_user_id user_id = keep (λ u. u.user_id == user_id)

-- `user is None or not user.is_active`
abbrev pub is_missing : Option User → Bool
is_missing none = true
is_missing (some user) = not user.is_active

-- The tenants that a membership is joined with.
abbrev pub tenants_of : List Tenant → Membership → List TenantMembership
tenants_of [] m = []
tenants_of (t ∷ tenants) m =
    let rest = tenants_of tenants m in
    if str_eq t.tenant_id m.tenant_id
    then record { tenant_id = m.tenant_id; role = m.role; display_name = t.display_name } ∷ rest
    else rest

abbrev pub join_tenants : List Tenant → List Membership → List TenantMembership
join_tenants tenants [] = []
join_tenants tenants (m ∷ rest) = tenants_of tenants m ++ join_tenants tenants rest

-- `max(0, int((exp - now).total_seconds())) + 60`
abbrev pub revocation_ttl : ℕ → ℕ → ℕ
revocation_ttl now exp = (exp - now) + 60

module _ (sv : Services) where
  abbrev pub normalized : String → String
  normalized address = sv.strip (sv.lower address)

  unfoldable pub issue_pair : ℕ → PairDraw → User → TokenPair
  unfolding issue_session_token
  issue_pair now draw user =
      let first = issue_session_token sv.jwt now user.user_id user.email access draw.access_jti in
      let second =
        issue_session_token sv.jwt now user.user_id user.email refresh draw.refresh_jti in
      record {
        access_token = first.0;
        access_expires_at = first.1;
        refresh_token = second.0;
        refresh_expires_at = second.1;
      }

  -- The token behind `Bearer`.
  unfoldable pub bearer_token : Option String → Handler String
  unfolding truthy
  bearer_token authorization = do
    header ← or_abort 401 (truthy authorization)
    _ ← abort_if (not (starts_with (sv.lower header) "bearer ")) 401
    or_abort 401 (truthy (some (sv.strip (sv.after_space header))))

  -- The refresh token of the request, if it is given and decodes.
  unfoldable pub revoke_refresh : ℕ → Option String → Blocked → Blocked
  unfolding truthy decode_session_token revoke_jti
  revoke_refresh now refresh_token blocked = elim (truthy refresh_token) [
    | none ↦ blocked
    | some token ↦ elim (decode_session_token sv.jwt now token refresh) [
      | returned claims ↦ revoke_jti now claims.jti (revocation_ttl now claims.exp) blocked
      | raised exc ↦ blocked
    ]
  ]

  module _ {F : Type 0} where
    -- The active user of a token that decodes and is not revoked.
    unfoldable pub session_of :
        ℕ → TokenKind → String → Blocked → Database F → Handler (SessionClaims × User)
    unfolding decode_session_token is_jti_revoked
    session_of now kind token blocked db = do
      claims ← raising (λ _. http_exception 401) (decode_session_token sv.jwt now token kind)
      _ ← abort_if (is_jti_revoked now blocked claims.jti) 401
      result ← scalar_one_or_none (with_user_id claims.user_id db.users)
      user ← or_abort 401 result
      _ ← abort_if (not user.is_active) 401
      returned (claims, user)

    unfoldable pub require_session :
        ℕ → Option String → Blocked → Database F → Handler (SessionClaims × User)
    unfolding bearer_token session_of
    require_session now authorization blocked db = do
      token ← bearer_token authorization
      session_of now access token blocked db

    -- The user of the address, if the password is right.
    unfoldable pub authenticate : String → String → Database F → Handler User
    unfolding verify_password
    authenticate address password db = do
      result ← scalar_one_or_none (with_email (normalized address) db.users)
      user ← or_abort 401 result
      _ ← abort_if (not user.is_active) 401
      _ ← abort_if (not (verify_password sv.hasher password user.password_hash)) 401
      returned user

    unfoldable pub login :
        ℕ → PairDraw → String → String → Database F → Handler (TokenPair × Database F)
    unfolding authenticate issue_pair
    login now draw address password db = do
      user ← authenticate address password db
      _ ← abort_if (sv.settings.require_email_verification && is_none user.email_verified_at) 403
      returned (
        issue_pair now draw user,
        record db {
          users =
              update_where (λ u. u.user_id == user.user_id)
                (λ u. record u { last_login_at = some now }) db.users;
        },
      )

    unfoldable pub refresh_tokens : ℕ → PairDraw → String → Blocked → Database F → Handler TokenPair
    unfolding session_of issue_pair
    refresh_tokens now draw refresh_token blocked db = do
      (claims, user) ← session_of now refresh refresh_token blocked db
      returned (issue_pair now draw user)

    unfoldable pub me : ℕ → Option String → Blocked → Database F → Handler MeResponse
    unfolding require_session
    me now authorization blocked db = do
      (claims, user) ← require_session now authorization blocked db
      returned (record {
        user_id = user.user_id;
        email = user.email;
        full_name = user.full_name;
        email_verified = is_some user.email_verified_at;
        created_at = user.created_at;
        memberships =
            join_tenants db.tenants (keep (λ m. m.user_id == user.user_id) db.memberships);
      })

    unfoldable pub logout :
        ℕ → Option String → Option String → Blocked → Database F → Handler Blocked
    unfolding require_session revoke_jti revoke_refresh
    logout now authorization refresh_token blocked db = do
      (claims, user) ← require_session now authorization blocked db
      let blocked' = revoke_jti now claims.jti (revocation_ttl now claims.exp) blocked
      returned (revoke_refresh now refresh_token blocked')
