-- ===== src/Api/Accounts.antt =====
-- api/auth_public.py: accounts. Signup, the two tokens that are mailed (to reset the password, to
-- verify the address) and the invites that are accepted. Mails are left out: the token in one is
-- the argument that the call drew.
pub mod Reset
pub mod Joining
use goderash.Common.{
  ℕ, ◌+◌, String, ◌+s◌, str_eq, Bool, true, false, ◌&&◌, ◌==◌, not, ltb, Option, none, some, List,
  [], ◌∷◌, keep, if◌then◌else◌, Outcome, returned, raised, ◌>>=◌,
}
use goderash.Billing.Stripe.{create_stripe_customer}
use goderash.Security.{hash_password, verify_password, Blocked}
use goderash.Database.{
  Database, Tenant, User, Membership, AuthToken, Invite, Handler, value_error, log_error, truthy,
  is_none, is_some, abort_if, or_abort, raising, on_integrity, scalar_one_or_none, update_where,
  add_user, add_tenant, add_membership, add_key, add_password_reset, add_email_verification,
  new_tenant, new_key,
}
use goderash.Api.Auth.{hash_key, or_default}
use goderash.Api.Orgs.{is_member_row}
use goderash.Api.Invites.{is_open}
use goderash.Api.Identity.{
  Services, TokenPair, PairDraw, with_email, with_user_id, normalized, issue_pair, require_session,
}

pub record SignupRequest : Type 0 where
  pub address : String
  pub password : String
  pub full_name : String
  pub org_name : Option String

pub record SignupResponse : Type 0 where
  pub user_id : ℕ
  pub email : String
  pub tenant_id : String
  pub api_key : String
  pub tokens : TokenPair

-- What a signup draws: the identifiers of its rows and the random texts.
pub record SignupDraw : Type 0 where
  pub user_id : ℕ
  pub membership_id : ℕ
  pub key_id : ℕ
  pub verification_id : ℕ
  pub tenant_hex : String
  pub key_secret : String
  pub mail_token : String
  pub pair : PairDraw

pub record AcceptRequest : Type 0 where
  pub token : String
  pub full_name : Option String
  pub password : Option String

pub record AcceptDraw : Type 0 where
  pub user_id : ℕ
  pub membership_id : ℕ
  pub pair : PairDraw

-- Not used and not expired.
abbrev pub is_usable : ℕ → String → AuthToken → Bool
is_usable now token_hash t =
    str_eq t.token_hash token_hash && (is_none t.used_at && ltb now t.expires_at)

abbrev pub new_token : ℕ → ℕ → String → ℕ → AuthToken
new_token token_id user_id token_hash expires_at = record {
  token_id = token_id;
  user_id = user_id;
  token_hash = token_hash;
  expires_at = expires_at;
  used_at = none;
}

abbrev pub new_user : ℕ → ℕ → String → String → String → Option ℕ → User
new_user user_id now email password_hash full_name email_verified_at = record {
  user_id = user_id;
  email = email;
  password_hash = password_hash;
  full_name = full_name;
  created_at = now;
  email_verified_at = email_verified_at;
  last_login_at = none;
  is_active = true;
}

abbrev pub new_membership : ℕ → ℕ → String → String → ℕ → Membership
new_membership membership_id user_id tenant_id role now = record {
  membership_id = membership_id;
  user_id = user_id;
  tenant_id = tenant_id;
  role = role;
  created_at = now;
}

abbrev pub use_token : ℕ → ℕ → List AuthToken → List AuthToken
use_token token_id now =
    update_where (λ t. t.token_id == token_id) (λ t. record t { used_at = some now })

-- `timedelta(hours=1)` and `timedelta(hours=24)`
abbrev pub reset_ttl : ℕ
reset_ttl = 3600

abbrev pub verification_ttl : ℕ
verification_ttl = 86400

abbrev pub accept_row : {F : Type 0} → ℕ → ℕ → Database F → Database F
accept_row invite_id now db = record db {
  invites =
      update_where (λ i. i.invite_id == invite_id) (λ i. record i { accepted_at = some now })
        db.invites;
}

module _ (sv : Services) where
  unfoldable pub slugify_tenant : String → String → String
  unfolding truthy
  slugify_tenant seed hex = or_default (truthy (some (sv.slug_base seed))) "tenant" +s ("-" +s hex)

  module _ {F : Type 0} where
    unfoldable pub send_verification_email :
        ℕ → ℕ → String → User → Database F → Handler (Database F)
    unfolding hash_key add_email_verification
    send_verification_email now token_id raw user db =
        add_email_verification
          (new_token token_id user.user_id (hash_key sv.crypto raw) (now + verification_ttl)) db

    -- The customer at Stripe, for the new tenant's row.
    unfoldable pub attach_customer : String → Tenant → Database F → Handler (Database F)
    unfolding truthy create_stripe_customer
    attach_customer email tenant db =
        if sv.settings.billing_enabled && is_some (truthy sv.settings.stripe_secret_key)
        then (raising log_error (
            create_stripe_customer sv.warnings sv.stripe email tenant.display_name
              tenant.tenant_id))
          >>= (λ customer. returned (elim (truthy customer) [
            | none ↦ db
            | some id ↦ record db {
              tenants =
                  update_where (λ t. str_eq t.tenant_id tenant.tenant_id)
                    (λ t. record t { stripe_customer_id = some id }) db.tenants;
            }
          ]))
        else returned db

    -- The rows of a new tenant with its owner and its first key.
    unfoldable pub add_workspace :
        ℕ → SignupDraw → User → Tenant → String → Database F → Handler (Database F)
    unfolding add_tenant add_membership add_key hash_key
    add_workspace now draw user tenant raw_key db = do
      db1 ← add_tenant tenant db
      db2 ←
          add_membership
            (new_membership draw.membership_id user.user_id tenant.tenant_id "owner" now) db1
      add_key (new_key draw.key_id now tenant.tenant_id "default" (hash_key sv.crypto raw_key)) db2

    unfoldable pub signup :
        ℕ → SignupDraw → SignupRequest → Database F → Handler (SignupResponse × Database F)
    unfolding hash_password add_user add_workspace slugify_tenant truthy attach_customer
        send_verification_email issue_pair
    signup now draw body db = do
      let email = normalized sv body.address
      existing ← scalar_one_or_none (with_email email db.users)
      _ ← abort_if (is_some existing) 409
      password_hash ← raising (λ _. value_error) (hash_password sv.hasher body.password)
      let user = new_user draw.user_id now email password_hash (sv.strip body.full_name) none
      db1 ← add_user user db
      let tenant_id =
          slugify_tenant (or_default (truthy body.org_name) (sv.local_part email)) draw.tenant_hex
      let tenant =
          new_tenant tenant_id
            (or_default (truthy body.org_name) (body.full_name +s "'s workspace"))
      let raw_key = sv.settings.api_key_prefix +s draw.key_secret
      db2 ← on_integrity 409 (add_workspace now draw user tenant raw_key db1)
      db3 ← attach_customer email tenant db2
      db4 ← send_verification_email now draw.verification_id draw.mail_token user db3
      returned (
        record {
          user_id = user.user_id;
          email = email;
          tenant_id = tenant_id;
          api_key = raw_key;
          tokens = issue_pair sv now draw.pair user;
        },
        db4,
      )

    -- The answer is the same whether the address is registered or not.
    unfoldable pub forgot_password :
        ℕ → ℕ → String → String → Database F → Handler (Unit {0} × Database F)
    unfolding hash_key add_password_reset
    forgot_password now token_id raw address db = do
      result ← scalar_one_or_none (with_email (normalized sv address) db.users)
      (elim result [
        | none ↦ returned (tt, db)
        | some user ↦
            (if user.is_active
              then add_password_reset
                  (new_token token_id user.user_id (hash_key sv.crypto raw) (now + reset_ttl)) db
                >>= (λ db'. returned (tt, db'))
              else returned (tt, db))
      ])

    unfoldable pub reset_password :
        ℕ → String → String → Database F → Handler (Unit {0} × Database F)
    unfolding hash_key hash_password
    reset_password now token new_password db = do
      result ←
          scalar_one_or_none (keep (is_usable now (hash_key sv.crypto token)) db.password_resets)
      row ← or_abort 400 result
      password_hash ← raising (λ _. value_error) (hash_password sv.hasher new_password)
      returned (
        tt,
        record db {
          password_resets = use_token row.token_id now db.password_resets;
          users =
              update_where (λ u. u.user_id == row.user_id)
                (λ u. record u { password_hash = password_hash }) db.users;
        },
      )

    unfoldable pub verify_email : ℕ → String → Database F → Handler (Unit {0} × Database F)
    unfolding hash_key
    verify_email now token db = do
      result ←
          scalar_one_or_none
            (keep (is_usable now (hash_key sv.crypto token)) db.email_verifications)
      row ← or_abort 400 result
      returned (
        tt,
        record db {
          email_verifications = use_token row.token_id now db.email_verifications;
          users =
              update_where (λ u. u.user_id == row.user_id)
                (λ u. record u { email_verified_at = some now }) db.users;
        },
      )

    -- The user is what `require_session` returned.
    unfoldable pub change_password :
        User → String → String → Database F → Handler (Unit {0} × Database F)
    unfolding verify_password hash_password
    change_password user current_password new_password db = do
      _ ← abort_if (not (verify_password sv.hasher current_password user.password_hash)) 400
      password_hash ← raising (λ _. value_error) (hash_password sv.hasher new_password)
      returned (
        tt,
        record db {
          users =
              update_where (λ u. u.user_id == user.user_id)
                (λ u. record u { password_hash = password_hash }) db.users;
        },
      )

    -- The membership of the invite, and the invite accepted.
    unfoldable pub join_team :
        ℕ → AcceptDraw → Invite → User → Database F → Handler (TokenPair × Database F)
    unfolding add_membership issue_pair
    join_team now draw invite user db = do
      db' ←
          add_membership
            (new_membership draw.membership_id user.user_id invite.tenant_id invite.role now) db
      returned (issue_pair sv now draw.pair user, accept_row invite.invite_id now db')

    unfoldable pub join_existing :
        ℕ → AcceptDraw → Invite → User → Database F → Handler (TokenPair × Database F)
    unfolding join_team issue_pair
    join_existing now draw invite user db = do
      existing ←
          scalar_one_or_none (keep (is_member_row user.user_id invite.tenant_id) db.memberships)
      (if is_some existing
          then returned (issue_pair sv now draw.pair user, accept_row invite.invite_id now db)
          else join_team now draw invite user db)

    unfoldable pub join_new :
        ℕ → AcceptDraw → Invite → AcceptRequest → Database F → Handler (TokenPair × Database F)
    unfolding truthy hash_password add_user join_team
    join_new now draw invite body db = do
      full_name ← or_abort 422 (truthy body.full_name)
      password ← or_abort 422 (truthy body.password)
      password_hash ← raising (λ _. value_error) (hash_password sv.hasher password)
      let user =
          new_user draw.user_id now invite.email password_hash (sv.strip full_name) (some now)
      db' ← add_user user db
      join_team now draw invite user db'

    unfoldable pub accept_invite :
        ℕ → AcceptDraw → AcceptRequest → Database F → Handler (TokenPair × Database F)
    unfolding hash_key join_existing join_new
    accept_invite now draw body db = do
      result ← scalar_one_or_none (
          keep (λ i. str_eq i.token_hash (hash_key sv.crypto body.token) && is_open now i)
            db.invites)
      invite ← or_abort 400 result
      found ← scalar_one_or_none (with_email invite.email db.users)
      (elim found [
        | none ↦ join_new now draw invite body db
        | some user ↦ join_existing now draw invite user db
      ])
