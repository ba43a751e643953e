-- ===== src/Tests/Accounts.antt =====
-- Accounts and members: runs of the handlers, and the theorems about them.
use goderash.Common.{
  ℕ, String, ◌+s◌, str_eq, true, false, ltb, ◌≡◌, ◌≢◌, refl, ap, none, some, [], ◌∷◌, Outcome,
  returned, raised, if◌then◌else◌, arith,
}
use goderash.Security.{JwtError, Payload, hash_password}
use goderash.Database.{
  Database, User, Membership, http_exception, Handler, new_tenant, new_key, truthy,
}
use goderash.Api.Orgs.{require_membership}
use goderash.Api.Invites.{new_invite, InviteRole, InviteOut, create_invite}
use goderash.Api.Identity.{Services, TokenPair, PairDraw, normalized, login, with_email}
use goderash.Api.Accounts.{
  SignupRequest, SignupResponse, SignupDraw, AcceptDraw, signup, forgot_password, reset_password,
  accept_invite, new_token, new_user, new_membership,
}
use goderash.Api.Accounts.Reset.{reset_password-login}
use goderash.Api.Accounts.Joining.{create_invite-accepted}
use goderash.Api.Team.{Step, Reach, HasOwner}
use goderash.Api.Team.Owners.{signup-HasOwner}
use goderash.Tests.Sample.{drop}

pub true≢false : true ≢ false
true≢false e = cc

abbrev pub alice : User
alice = new_user 1 10 "a@x" "#old" "Alice" none

abbrev pub pair_draw : PairDraw
pair_draw = record { access_jti = "a1"; refresh_jti = "r1" }

abbrev pub first_payload : Payload
first_payload = record {
  sub = 1;
  email = "a@x";
  kind = "access";
  iat = 1000;
  exp = 2800;
  jti = "a1";
  iss = "goderash";
}

abbrev pub second_payload : Payload
second_payload = record {
  sub = 1;
  email = "a@x";
  kind = "refresh";
  iat = 1000;
  exp = 2593000;
  jti = "r1";
  iss = "goderash";
}

-- A library that knows two tokens.
abbrev pub decode : ℕ → String → Outcome JwtError Payload
decode t token =
    if str_eq token "access-a1"
    then (if ltb t 2800 then returned first_payload else raised JwtError.expired_signature)
    else if str_eq token "refresh-r1"
    then (if ltb t 2593000 then returned second_payload else raised JwtError.expired_signature)
    else raised JwtError.invalid_token

abbrev pub sv : Services
sv = record {
  crypto = record { sha256 = λ s. "h" +s s; is_ascii = λ s. true };
  settings = record {
    api_key_prefix = "gdr_";
    admin_api_key = "admin";
    default_tenant = "internal";
    max_event_batch_size = 500;
    ingest_rate_limit_per_minute = 6000;
    require_email_verification = false;
    billing_enabled = false;
    stripe_secret_key = none;
  };
  jwt = record { encode = λ p. p.kind +s ("-" +s p.jti); decode = decode };
  hasher = record { hash = λ s. "#" +s s; verify = λ h p. str_eq h ("#" +s p) };
  lower = λ s. s;
  strip = λ s. s;
  after_space = drop 7;
  local_part = λ s. "bob";
  slug_base = λ s. s;
  stripe = none;
  warnings = true;
}

-- One tenant with its owner.
abbrev pub office : Database ℕ
office = record {
  tenants = new_tenant "acme" "Acme" ∷ [];
  api_keys = [];
  users = alice ∷ [];
  memberships = new_membership 1 1 "acme" "owner" 10 ∷ [];
  password_resets = [];
  email_verifications = [];
  invites = [];
  events = [];
  endpoints = [];
}

abbrev database_after : {A : Type 0} → Handler (A × Database ℕ) → Database ℕ
database_after (returned (a, db)) = db
database_after (raised exc) = office

abbrev pair : TokenPair
pair = record {
  access_token = "access-a1";
  access_expires_at = 2800;
  refresh_token = "refresh-r1";
  refresh_expires_at = 2593000;
}

abbrev draw : SignupDraw
draw = record {
  user_id = 2;
  membership_id = 2;
  key_id = 7;
  verification_id = 1;
  tenant_hex = "c0de";
  key_secret = "s3";
  mail_token = "m1";
  pair = pair_draw;
}

abbrev request : SignupRequest
request = record { address = "b@x"; password = "long password"; full_name = "Bob"; org_name = none }

abbrev welcome : SignupResponse
welcome = record {
  user_id = 2;
  email = "b@x";
  tenant_id = "bob-c0de";
  api_key = "gdr_s3";
  tokens = pair;
}

abbrev joined_office : Database ℕ
joined_office = record office {
  tenants = new_tenant "acme" "Acme" ∷ new_tenant "bob-c0de" "Bob's workspace" ∷ [];
  api_keys = new_key 7 1000 "bob-c0de" "default" "hgdr_s3" ∷ [];
  users = alice ∷ new_user 2 1000 "b@x" "#long password" "Bob" none ∷ [];
  memberships =
      new_membership 1 1 "acme" "owner" 10 ∷ new_membership 2 2 "bob-c0de" "owner" 1000 ∷ [];
  email_verifications = new_token 1 2 "hm1" 87400 ∷ [];
}

signup-run : signup sv 1000 draw request office ≡ returned (welcome, joined_office)
unfolding signup
signup-run = refl

-- Bob logs in after the signup.
login-run :
    login sv 1000 pair_draw "b@x" "long password" joined_office
    ≡ returned (pair, database_after (login sv 1000 pair_draw "b@x" "long password" joined_office))
unfolding login
login-run = refl

signup-HasOwner_example :
    HasOwner "bob-c0de"
      (database_after (login sv 1000 pair_draw "b@x" "long password" joined_office))
signup-HasOwner_example =
    signup-HasOwner sv 1000 draw request welcome office joined_office
      (database_after (login sv 1000 pair_draw "b@x" "long password" joined_office)) signup-run
      (Reach.next Reach.here (Step.logged_in 1000 pair_draw "b@x" "long password" pair login-run))

reset_password-login_example :
    (asked : Database ℕ) × (changed : Database ℕ) × (last : Database ℕ) × (tokens : TokenPair)
    × (forgot_password sv 100 5 "rt" "a@x" office ≡ returned (tt, asked))
    × (reset_password sv 1000 "rt" "new" asked ≡ returned (tt, changed))
    × (login sv 1000 pair_draw "a@x" "new" changed ≡ returned (tokens, last))
    × (reset_password sv 1001 "rt" "new" changed ≡ raised (http_exception 400))
reset_password-login_example =
    reset_password-login sv 100 1000 1001 5 "rt" "a@x" "new" pair_draw alice office refl refl refl
      refl (omega arith) (λ e. true≢false (ap (λ s. str_eq s "new") e))
      (λ e. true≢false (ap (λ s. str_eq s "#new") e)) refl

-- An invite of the office.
abbrev invite_out : InviteOut
invite_out = record {
  invite_id = 3;
  tenant_id = "acme";
  email = "c@x";
  role = "viewer";
  expires_at = 604900;
  created_at = 100;
}

abbrev inviting_office : Database ℕ
inviting_office = record office { invites = new_invite 100 3 "acme" 1 "c@x" "viewer" "hit" ∷ [] }

create_invite-run :
    create_invite sv.crypto (normalized sv) 100 3 "it" alice "acme" "c@x" InviteRole.viewer office
    ≡ returned (invite_out, inviting_office)
unfolding create_invite
create_invite-run = refl

abbrev accept_draw : AcceptDraw
accept_draw = record { user_id = 4; membership_id = 4; pair = pair_draw }

create_invite-accepted_example :
    (tokens : TokenPair) × (joined : Database ℕ) × (member : User) × (m : Membership)
    × (accept_invite sv 200 accept_draw
          (record { token = "it"; full_name = some "Cy"; password = some "pw" })
          inviting_office
        ≡ returned (tokens, joined))
    × (member.email ≡ "c@x")
    × (with_email "c@x" joined.users ≡ member ∷ [])
    × (require_membership member "acme" joined ≡ returned m)
    × (m.role ≡ "viewer")
    × (accept_invite sv 300 accept_draw
          (record { token = "it"; full_name = none; password = none })
          joined
        ≡ raised (http_exception 400))
unfolding truthy hash_password
create_invite-accepted_example =
    create_invite-accepted sv 100 200 300 3 "it" alice "acme" "c@x" InviteRole.viewer invite_out
      office inviting_office accept_draw "Cy" "pw" accept_draw
      (record { token = "it"; full_name = none; password = none }) create_invite-run (omega arith)
      refl refl refl refl refl refl refl refl
