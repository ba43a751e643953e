-- ===== src/Api/Team.antt =====
-- The requests of api/*.py that change the database, in any order and by any users, as steps of the
-- database; and the deliveries of webhooks. A request
-- that raises is rolled back, so it is no step. `session_scope` of db.py gives each its transaction.
pub mod Requests
pub mod Revocation
pub mod Keys
pub mod Owners
use goderash.Common.{ℕ, String, str_eq, Bool, true, ◌&&◌, ◌≡◌, Option, any, returned}
use goderash.Database.{Database, Tenant, User, Membership}
use goderash.Security.{Blocked}
use goderash.Api.Auth.{require_api_key}
use goderash.Api.Orgs.{IssueKeyResponse, issue_key, revoke_key}
use goderash.Api.Invites.{InviteRole, InviteOut, create_invite, revoke_invite, remove_member}
use goderash.Api.Identity.{Services, TokenPair, PairDraw, normalized, login}
use goderash.Api.Accounts.{
  SignupRequest, SignupResponse, SignupDraw, AcceptRequest, AcceptDraw, signup, forgot_password,
  reset_password, verify_email, change_password, accept_invite,
}
use goderash.Api.Auth.{AuthContext}
use goderash.Common.{List}
use goderash.Json.{Fields}
use goderash.Events.{GoderashEventEnvelope}
use goderash.Http.{Answer}
use goderash.Ledger.Chain.{Hasher}
use goderash.Billing.{Redis}
use goderash.Webhooks.{deliver}
use goderash.Api.Routes.{Server, ingest_events, create_tenant, create_api_key}
use goderash.Api.Endpoints.{WebhookCreated, create_webhook, delete_webhook}
use goderash.Api.Billing.{WebhookCall, stripe_webhook}

module _ {F : Type 0} (sv : Services) where
  pub data Step (db db' : Database F) : Type 0 where
    signed_up :
        (now : ℕ) (draw : SignupDraw) (body : SignupRequest) (response : SignupResponse)
        → signup sv now draw body db ≡ returned (response, db')
        → Step db db'
    logged_in :
        (now : ℕ) (draw : PairDraw) (address password : String) (tokens : TokenPair)
        → login sv now draw address password db ≡ returned (tokens, db')
        → Step db db'
    forgot :
        (now token_id : ℕ) (raw address : String)
        → forgot_password sv now token_id raw address db ≡ returned (tt, db')
        → Step db db'
    password_reset :
        (now : ℕ) (token new_password : String)
        → reset_password sv now token new_password db ≡ returned (tt, db')
        → Step db db'
    verified :
        (now : ℕ) (token : String) → verify_email sv now token db ≡ returned (tt, db') → Step db db'
    changed :
        (user : User) (current_password new_password : String)
        → change_password sv user current_password new_password db ≡ returned (tt, db')
        → Step db db'
    invited :
        (now invite_id : ℕ) (raw : String) (user : User) (tenant_id address : String)
        (role : InviteRole) (out : InviteOut)
        → create_invite sv.crypto (normalized sv) now invite_id raw user tenant_id address role db
          ≡ returned (out, db')
        → Step db db'
    uninvited :
        (now : ℕ) (user : User) (tenant_id : String) (invite_id : ℕ)
        → revoke_invite now user tenant_id invite_id db ≡ returned (tt, db')
        → Step db db'
    accepted :
        (now : ℕ) (draw : AcceptDraw) (body : AcceptRequest) (tokens : TokenPair)
        → accept_invite sv now draw body db ≡ returned (tokens, db')
        → Step db db'
    removed :
        (user : User) (tenant_id : String) (user_id : ℕ)
        → remove_member user tenant_id user_id db ≡ returned (tt, db')
        → Step db db'
    issued :
        (now key_id : ℕ) (secret : String) (user : User) (tenant_id label : String)
        (response : IssueKeyResponse)
        → issue_key sv.crypto sv.settings now key_id secret user tenant_id label db
          ≡ returned (response, db')
        → Step db db'
    revoked :
        (now : ℕ) (user : User) (tenant_id : String) (key_id : ℕ)
        → revoke_key now user tenant_id key_id db ≡ returned (tt, db')
        → Step db db'
    key_used :
        (now : ℕ) (key tenant : Option String) (auth : AuthContext)
        → require_api_key sv.crypto sv.settings now key tenant db ≡ returned (auth, db')
        → Step db db'
    tenant_created :
        (auth : AuthContext) (tenant_id display_name : String) (tenant : Tenant)
        → create_tenant auth tenant_id display_name db ≡ returned (tenant, db')
        → Step db db'
    key_created :
        (now key_id : ℕ) (secret : String) (auth : AuthContext) (tenant_id label raw : String)
        → create_api_key sv.crypto sv.settings now key_id secret auth tenant_id label db
          ≡ returned (raw, db')
        → Step db db'
    ingested :
        (hs : Hasher (Fields F)) (server : Server) (auth : AuthContext)
        (events : List (GoderashEventEnvelope F)) (redis : Option Redis)
        → (ingest_events hs server sv.settings auth events redis db).db ≡ db'
        → Step db db'
    webhook_created :
        (now id : ℕ) (secret : String) (user : User) (tenant_id url events_filter : String)
        (out : WebhookCreated)
        → create_webhook now id secret user tenant_id url events_filter db ≡ returned (out, db')
        → Step db db'
    webhook_deleted :
        (user : User) (tenant_id : String) (id : ℕ)
        → delete_webhook user tenant_id id db ≡ returned (tt, db')
        → Step db db'
    delivered :
        (enabled : Bool) (max_retries id now : ℕ) (answers : ℕ → Answer)
        → record db { endpoints = (deliver enabled max_retries id now answers db.endpoints).1 }
          ≡ db'
        → Step db db'
    plan_changed : (call : WebhookCall) → stripe_webhook call db ≡ returned (tt, db') → Step db db'

  -- Any number of requests.
  pub data Reach (db : Database F) : Database F → Type 0 where
    here : Reach db db
    next : {mid last : Database F} → Reach db mid → Step mid last → Reach db last

abbrev pub is_owner : String → Membership → Bool
is_owner tenant_id m = str_eq m.tenant_id tenant_id && str_eq m.role "owner"

abbrev pub HasOwner : {F : Type 0} → String → Database F → Type 0
HasOwner tenant_id db = any (is_owner tenant_id) db.memberships ≡ true
