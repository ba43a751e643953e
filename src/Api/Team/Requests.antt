-- ===== src/Api/Team/Requests.antt =====
-- api/invites.py, api/auth_public.py: what each
-- request that succeeds does to the tables of members and of keys.
use goderash.Common.{Option, ℕ, String, ◌≡◌, [], ◌∷◌, ◌++◌, arith, returned}
use goderash.Database.{
  Database, Invite, Tenant, User, Membership, insert, add_membership, add_user, add_key, add_tenant,
  add_invite, add_password_reset, add_email_verification,
}
use goderash.Common.{List}
use goderash.Json.{Fields}
use goderash.Events.{GoderashEventEnvelope}
use goderash.Ledger.Chain.{Hasher}
use goderash.Billing.{Redis}
use goderash.Api.Routes.{Server, ingest_events, store_batch, create_tenant, create_api_key}
use goderash.Api.Endpoints.{WebhookCreated, create_webhook, delete_webhook}
use goderash.Api.Billing.{
  WebhookCall, stripe_webhook, change_plan, handle_subscription_updated,
  handle_subscription_deleted,
}
use goderash.Api.Auth.{AuthContext, require_api_key, bind_key}
use goderash.Api.Orgs.{
  IssueKeyResponse, issue_key, revoke_key, require_manager, require_membership, require_role,
}
use goderash.Api.Invites.{InviteRole, InviteOut, create_invite, revoke_invite}
use goderash.Api.Identity.{Services, TokenPair, PairDraw, normalized, login}
use goderash.Api.Accounts.{
  SignupRequest, SignupResponse, SignupDraw, AcceptRequest, AcceptDraw, signup, forgot_password,
  reset_password, verify_email, change_password, add_workspace, new_membership, attach_customer,
  send_verification_email, join_new, join_team,
}

module _ {F : Type 0} (sv : Services) where
  pub uninvited_keeps :
      (now : ℕ) (user : User) (t : String) (id : ℕ) (db db' : Database F)
      → revoke_invite now user t id db ≡ returned (tt, db')
      → (db'.memberships ≡ db.memberships) × (db'.api_keys ≡ db.api_keys)
  unfolding revoke_invite require_manager require_membership require_role
  uninvited_keeps now user t id db db' h = (ground arith, ground arith)

  pub revoked-memberships :
      (now : ℕ) (user : User) (t : String) (id : ℕ) (db db' : Database F)
      → revoke_key now user t id db ≡ returned (tt, db')
      → db'.memberships ≡ db.memberships
  unfolding revoke_key
  revoked-memberships now user t id db db' h = ground arith

  pub key_used-memberships :
      (now : ℕ) (key tenant : Option String) (auth : AuthContext) (db db' : Database F)
      → require_api_key sv.crypto sv.settings now key tenant db ≡ returned (auth, db')
      → db'.memberships ≡ db.memberships
  unfolding require_api_key bind_key
  key_used-memberships now key tenant auth db db' h = ground arith

  pub logged_in_keeps :
      (now : ℕ) (draw : PairDraw) (a p : String) (tokens : TokenPair) (db db' : Database F)
      → login sv now draw a p db ≡ returned (tokens, db')
      → (db'.memberships ≡ db.memberships) × (db'.api_keys ≡ db.api_keys)
  unfolding login
  logged_in_keeps now draw a p tokens db db' h = (ground arith, ground arith)

  pub forgot_keeps :
      (now id : ℕ) (raw a : String) (db db' : Database F)
      → forgot_password sv now id raw a db ≡ returned (tt, db')
      → (db'.memberships ≡ db.memberships) × (db'.api_keys ≡ db.api_keys)
  unfolding forgot_password add_password_reset insert
  forgot_keeps now id raw a db db' h = (ground arith, ground arith)

  pub reset_keeps :
      (now : ℕ) (token p : String) (db db' : Database F)
      → reset_password sv now token p db ≡ returned (tt, db')
      → (db'.memberships ≡ db.memberships) × (db'.api_keys ≡ db.api_keys)
  unfolding reset_password
  reset_keeps now token p db db' h = (ground arith, ground arith)

  pub verified_keeps :
      (now : ℕ) (token : String) (db db' : Database F)
      → verify_email sv now token db ≡ returned (tt, db')
      → (db'.memberships ≡ db.memberships) × (db'.api_keys ≡ db.api_keys)
  unfolding verify_email
  verified_keeps now token db db' h = (ground arith, ground arith)

  pub changed_keeps :
      (user : User) (p q : String) (db db' : Database F)
      → change_password sv user p q db ≡ returned (tt, db')
      → (db'.memberships ≡ db.memberships) × (db'.api_keys ≡ db.api_keys)
  unfolding change_password
  changed_keeps user p q db db' h = (ground arith, ground arith)

  pub invited_keeps :
      (now id : ℕ) (raw : String) (user : User) (t a : String) (role : InviteRole) (out : InviteOut)
      (db db' : Database F)
      → create_invite sv.crypto (normalized sv) now id raw user t a role db ≡ returned (out, db')
      → (db'.memberships ≡ db.memberships) × (db'.api_keys ≡ db.api_keys)
  unfolding create_invite add_invite insert
  invited_keeps now id raw user t a role out db db' h = (ground arith, ground arith)

  pub issued-memberships :
      (now id : ℕ) (secret : String) (user : User) (t label : String) (out : IssueKeyResponse)
      (db db' : Database F)
      → issue_key sv.crypto sv.settings now id secret user t label db ≡ returned (out, db')
      → db'.memberships ≡ db.memberships
  unfolding issue_key add_key insert
  issued-memberships now id secret user t label out db db' h = ground arith

  pub add_membership-Grows :
      (row : Membership) (db db' : Database F)
      → add_membership row db ≡ returned db'
      → db'.memberships ≡ db.memberships ++ row ∷ []
  unfolding add_membership insert
  add_membership-Grows row db db' h = ground arith

  pub add_workspace-Grows :
      (now : ℕ) (draw : SignupDraw) (user : User) (tenant : Tenant) (raw : String)
      (db db' : Database F)
      → add_workspace sv now draw user tenant raw db ≡ returned db'
      → db'.memberships
        ≡ db.memberships
          ++ new_membership draw.membership_id user.user_id tenant.tenant_id "owner" now ∷ []
  unfolding add_workspace add_tenant add_membership add_key insert
  add_workspace-Grows now draw user tenant raw db db' h = ground arith

  pub signed_up-Grows :
      (now : ℕ) (draw : SignupDraw) (body : SignupRequest) (response : SignupResponse)
      (db db' : Database F)
      → signup sv now draw body db ≡ returned (response, db')
      → db'.memberships
        ≡ db.memberships
          ++ new_membership draw.membership_id draw.user_id response.tenant_id "owner" now ∷ []
  unfolding signup add_user insert attach_customer send_verification_email add_email_verification
  signed_up-Grows now draw body response db db' h = grind (arith, add_workspace-Grows)

  pub join_team-Grows :
      (now : ℕ) (draw : AcceptDraw) (invite : Invite) (user : User) (tokens : TokenPair)
      (db db' : Database F)
      → join_team sv now draw invite user db ≡ returned (tokens, db')
      → db'.memberships
        ≡ db.memberships
          ++ new_membership draw.membership_id user.user_id invite.tenant_id invite.role now ∷ []
  unfolding join_team
  join_team-Grows now draw invite user tokens db db' h = grind (arith, add_membership-Grows)

  pub join_new-Grows :
      (now : ℕ) (draw : AcceptDraw) (invite : Invite) (body : AcceptRequest) (tokens : TokenPair)
      (db db' : Database F)
      → join_new sv now draw invite body db ≡ returned (tokens, db')
      → db'.memberships
        ≡ db.memberships
          ++ new_membership draw.membership_id draw.user_id invite.tenant_id invite.role now ∷ []
  unfolding join_new add_user insert
  join_new-Grows now draw invite body tokens db db' h = grind (arith, join_team-Grows)

  pub tenant_created_keeps :
      (auth : AuthContext) (t name : String) (tenant : Tenant) (db db' : Database F)
      → create_tenant auth t name db ≡ returned (tenant, db')
      → (db'.memberships ≡ db.memberships) × (db'.api_keys ≡ db.api_keys)
  unfolding create_tenant add_tenant insert
  tenant_created_keeps auth t name tenant db db' h = (ground arith, ground arith)

  pub key_created-memberships :
      (now id : ℕ) (secret : String) (auth : AuthContext) (t label raw : String)
      (db db' : Database F)
      → create_api_key sv.crypto sv.settings now id secret auth t label db ≡ returned (raw, db')
      → db'.memberships ≡ db.memberships
  unfolding create_api_key add_key insert
  key_created-memberships now id secret auth t label raw db db' h = ground arith

  pub ingested_keeps :
      (hs : Hasher (Fields F)) (server : Server) (auth : AuthContext)
      (events : List (GoderashEventEnvelope F)) (redis : Option Redis) (db db' : Database F)
      → (ingest_events hs server sv.settings auth events redis db).db ≡ db'
      → (db'.memberships ≡ db.memberships) × (db'.api_keys ≡ db.api_keys)
  unfolding ingest_events store_batch
  ingested_keeps hs server auth events redis db db' h = (ground arith, ground arith)

  pub webhook_created_keeps :
      (now id : ℕ) (secret : String) (user : User) (t url filter : String) (out : WebhookCreated)
      (db db' : Database F)
      → create_webhook now id secret user t url filter db ≡ returned (out, db')
      → (db'.memberships ≡ db.memberships) × (db'.api_keys ≡ db.api_keys)
  unfolding create_webhook insert
  webhook_created_keeps now id secret user t url filter out db db' h = (ground arith, ground arith)

  pub webhook_deleted_keeps :
      (user : User) (t : String) (id : ℕ) (db db' : Database F)
      → delete_webhook user t id db ≡ returned (tt, db')
      → (db'.memberships ≡ db.memberships) × (db'.api_keys ≡ db.api_keys)
  unfolding delete_webhook
  webhook_deleted_keeps user t id db db' h = (ground arith, ground arith)

  pub plan_changed_keeps :
      (call : WebhookCall) (db db' : Database F)
      → stripe_webhook call db ≡ returned (tt, db')
      → (db'.memberships ≡ db.memberships) × (db'.api_keys ≡ db.api_keys)
  unfolding stripe_webhook handle_subscription_updated handle_subscription_deleted change_plan
  plan_changed_keeps call db db' h = (ground arith, ground arith)
