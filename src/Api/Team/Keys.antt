-- ===== src/Api/Team/Keys.antt =====
-- api/invites.py, api/auth_public.py: what the
-- requests do to the table of keys, and a revoked key stays revoked.
use goderash.Common.{
  Outcome-cases, ◌≢◌, ◌+s◌, ◌||◌, some, Option, ℕ, String, str_eq, true, false, ◌&&◌, ◌==◌, ◌≡◌,
  refl, sym, ap, ◌∙◌, subst, [], ◌∷◌, ◌++◌, any, keep, arith, returned, raised, bind_returns,
  if◌then◌else◌, Bool-cases, inl, inr,
}
use goderash.Database.{
  ApiError, new_key, is_none, Database, ApiKey, Tenant, User, scalar_one_or_none, or_abort,
  update_where, insert, add_membership, add_user, add_key, add_tenant, add_email_verification,
}
use goderash.Api.Auth.{hash_key, AuthContext, require_api_key}
use goderash.Api.Routes.{create_api_key}
use goderash.Api.Orgs.{revoke, IssueKeyResponse, issue_key, revoke_key, require_manager}
use goderash.Api.Invites.{remove_member}
use goderash.Api.Identity.{Services, TokenPair}
use goderash.Api.Accounts.{
  SignupRequest, SignupResponse, SignupDraw, AcceptRequest, AcceptDraw, signup, accept_invite,
  add_workspace, attach_customer, send_verification_email, join_new, join_existing, join_team,
}
use goderash.Api.Auth.Access.{require_api_key-IsBound}
use goderash.Api.Team.{Step, Reach}
use goderash.Api.Team.Requests.{
  tenant_created_keeps, ingested_keeps, webhook_created_keeps, webhook_deleted_keeps,
  plan_changed_keeps, uninvited_keeps, logged_in_keeps, forgot_keeps, reset_keeps, verified_keeps,
  changed_keeps, invited_keeps,
}
use goderash.Api.Team.Revocation.{
  KeysStep, IsRevoked, KeysStep-IsRevokedIn, revoked_now, any_of_keep, true≢false,
}

abbrev default_key : Services → ℕ → SignupDraw → String → ApiKey
default_key sv now draw t =
    new_key draw.key_id now t "default"
      (hash_key sv.crypto (sv.settings.api_key_prefix +s draw.key_secret))

module _ {F : Type 0} (sv : Services) where
  removed-api_keys :
      (user : User) (t : String) (u : ℕ) (db db' : Database F)
      → remove_member user t u db ≡ returned (tt, db')
      → db'.api_keys ≡ db.api_keys
  unfolding remove_member
  removed-api_keys user t u db db' h = ground arith

  accepted-api_keys :
      (now : ℕ) (draw : AcceptDraw) (body : AcceptRequest) (tokens : TokenPair)
      (db db' : Database F)
      → accept_invite sv now draw body db ≡ returned (tokens, db')
      → db'.api_keys ≡ db.api_keys
  unfolding accept_invite join_existing join_new join_team add_user add_membership insert
  accepted-api_keys now draw body tokens db db' h = ground arith

  add_key-api_keys :
      (new : ApiKey) (db db' : Database F)
      → add_key new db ≡ returned db'
      → (any (λ k. k.key_id == new.key_id || str_eq k.key_hash new.key_hash) db.api_keys ≡ false)
        × (db'.api_keys ≡ db.api_keys ++ new ∷ [])
  unfolding add_key insert
  add_key-api_keys new db db' h = (ground arith, ground arith)

  add_workspace-api_keys :
      (now : ℕ) (draw : SignupDraw) (user : User) (tenant : Tenant) (raw : String)
      (db db' : Database F)
      → add_workspace sv now draw user tenant raw db ≡ returned db'
      → let new = new_key draw.key_id now tenant.tenant_id "default" (hash_key sv.crypto raw) in
        (any (λ k. k.key_id == new.key_id || str_eq k.key_hash new.key_hash) db.api_keys ≡ false)
        × (db'.api_keys ≡ db.api_keys ++ new ∷ [])
  unfolding add_workspace add_tenant add_membership insert
  add_workspace-api_keys now draw user tenant raw db db' h = grind (arith, add_key-api_keys)

  signed_up-api_keys :
      (now : ℕ) (draw : SignupDraw) (body : SignupRequest) (response : SignupResponse)
      (db db' : Database F)
      → signup sv now draw body db ≡ returned (response, db')
      → let new = default_key sv now draw response.tenant_id in
        (any (λ k. k.key_id == new.key_id || str_eq k.key_hash new.key_hash) db.api_keys ≡ false)
        × (db'.api_keys ≡ db.api_keys ++ new ∷ [])
  unfolding signup add_user insert attach_customer send_verification_email add_email_verification
  signed_up-api_keys now draw body response db db' h = grind (arith, add_workspace-api_keys)

  issued-api_keys :
      (now id : ℕ) (secret : String) (user : User) (t label : String) (out : IssueKeyResponse)
      (db db' : Database F)
      → issue_key sv.crypto sv.settings now id secret user t label db ≡ returned (out, db')
      → let new =
          new_key id now t label (hash_key sv.crypto (sv.settings.api_key_prefix +s secret)) in
        (any (λ k. k.key_id == new.key_id || str_eq k.key_hash new.key_hash) db.api_keys ≡ false)
        × (db'.api_keys ≡ db.api_keys ++ new ∷ [])
  unfolding issue_key
  issued-api_keys now id secret user t label out db db' h = grind (arith, add_key-api_keys)

  key_created-api_keys :
      (now id : ℕ) (secret : String) (auth : AuthContext) (t label raw : String)
      (db db' : Database F)
      → create_api_key sv.crypto sv.settings now id secret auth t label db ≡ returned (raw, db')
      → let new =
          new_key id now t label (hash_key sv.crypto (sv.settings.api_key_prefix +s secret)) in
        (any (λ k. k.key_id == new.key_id || str_eq k.key_hash new.key_hash) db.api_keys ≡ false)
        × (db'.api_keys ≡ db.api_keys ++ new ∷ [])
  unfolding create_api_key
  key_created-api_keys now id secret auth t label raw db db' h = grind (arith, add_key-api_keys)

  same_keys : (db db' : Database F) → db'.api_keys ≡ db.api_keys → KeysStep db.api_keys db'.api_keys
  same_keys db db' e = subst (KeysStep db.api_keys) (sym e) KeysStep.same

  new_key_step :
      (db db' : Database F) (new : ApiKey)
      → (any (λ k. k.key_id == new.key_id || str_eq k.key_hash new.key_hash) db.api_keys ≡ false)
        × (db'.api_keys ≡ db.api_keys ++ new ∷ [])
      → KeysStep db.api_keys db'.api_keys
  new_key_step db db' new (clash, e) =
      subst (KeysStep db.api_keys) (sym e) (KeysStep.added new clash)

  -- The row that a revocation finds, and the table after it.
  pub revoke_key-row :
      (now : ℕ) (user : User) (t : String) (id : ℕ) (db db' : Database F)
      → revoke_key now user t id db ≡ returned (tt, db')
      → (key : ApiKey) × (keep (λ k. k.key_id == id && str_eq k.tenant_id t) db.api_keys ≡ key ∷ [])
        × (db'.api_keys ≡ (
            if is_none key.revoked_at
            then update_where (λ k. k.key_id == key.key_id) (revoke now) db.api_keys
            else db.api_keys))
  unfolding revoke_key
  revoke_key-row now user t id db db' h =
      let (m, manager, rest) = bind_returns (require_manager user t db) _ h in
      let (found, one, rest₁) =
        bind_returns
          (scalar_one_or_none (keep (λ k. k.key_id == id && str_eq k.tenant_id t) db.api_keys)) _
          rest in
      let (key, there, rest₂) = bind_returns (or_abort 404 found) _ rest₁ in
      (key, ground arith, ground arith)

  revoked-KeysStep :
      (now : ℕ) (user : User) (t : String) (id : ℕ) (db db' : Database F)
      → revoke_key now user t id db ≡ returned (tt, db')
      → KeysStep db.api_keys db'.api_keys
  revoked-KeysStep now user t id db db' h =
      let (key, one, eq) = revoke_key-row now user t id db db' h in
      elim (Bool-cases (is_none key.revoked_at)) [
        | inl e ↦
            subst (KeysStep db.api_keys) (sym (eq ∙ rw e refl)) (KeysStep.ended key.key_id now)
        | inr e ↦ same_keys db db' (eq ∙ rw e refl)
      ]

  key_used-KeysStep :
      (now : ℕ) (key tenant : Option String) (auth : AuthContext) (db db' : Database F)
      → require_api_key sv.crypto sv.settings now key tenant db ≡ returned (auth, db')
      → KeysStep db.api_keys db'.api_keys
  key_used-KeysStep now key tenant auth db db' h =
      elim (require_api_key-IsBound sv.crypto sv.settings now key tenant db db' auth h) [
        | inl (_, _, e) ↦ same_keys db db' (ap (λ (d : Database F). d.api_keys) e)
        | inr (raw, _, bound) ↦
            subst (KeysStep db.api_keys) (sym (ap (λ (d : Database F). d.api_keys) bound.touched))
              (KeysStep.used bound.row.key_id now)
      ]

  Step-KeysStep : {db db' : Database F} → Step sv db db' → KeysStep db.api_keys db'.api_keys
  Step-KeysStep {db} {db'} (Step.signed_up now draw body response h) =
      new_key_step db db' _ (signed_up-api_keys now draw body response db db' h)
  Step-KeysStep {db} {db'} (Step.logged_in now draw a p tokens h) =
      same_keys db db' (logged_in_keeps sv now draw a p tokens db db' h).1
  Step-KeysStep {db} {db'} (Step.forgot now id raw a h) =
      same_keys db db' (forgot_keeps sv now id raw a db db' h).1
  Step-KeysStep {db} {db'} (Step.password_reset now token p h) =
      same_keys db db' (reset_keeps sv now token p db db' h).1
  Step-KeysStep {db} {db'} (Step.verified now token h) =
      same_keys db db' (verified_keeps sv now token db db' h).1
  Step-KeysStep {db} {db'} (Step.changed user p q h) =
      same_keys db db' (changed_keeps sv user p q db db' h).1
  Step-KeysStep {db} {db'} (Step.invited now id raw user v a role out h) =
      same_keys db db' (invited_keeps sv now id raw user v a role out db db' h).1
  Step-KeysStep {db} {db'} (Step.uninvited now user v id h) =
      same_keys db db' (uninvited_keeps sv now user v id db db' h).1
  Step-KeysStep {db} {db'} (Step.accepted now draw body tokens h) =
      same_keys db db' (accepted-api_keys now draw body tokens db db' h)
  Step-KeysStep {db} {db'} (Step.removed user v u h) =
      same_keys db db' (removed-api_keys user v u db db' h)
  Step-KeysStep {db} {db'} (Step.issued now id secret user v label out h) =
      new_key_step db db' _ (issued-api_keys now id secret user v label out db db' h)
  Step-KeysStep {db} {db'} (Step.revoked now user v id h) = revoked-KeysStep now user v id db db' h
  Step-KeysStep {db} {db'} (Step.key_used now key tenant auth h) =
      key_used-KeysStep now key tenant auth db db' h
  Step-KeysStep {db} {db'} (Step.tenant_created auth v name tenant h) =
      same_keys db db' (tenant_created_keeps sv auth v name tenant db db' h).1
  Step-KeysStep {db} {db'} (Step.ingested hs server auth events redis h) =
      same_keys db db' (ingested_keeps sv hs server auth events redis db db' h).1
  Step-KeysStep {db} {db'} (Step.webhook_created now id secret user v url filter out h) =
      same_keys db db' (webhook_created_keeps sv now id secret user v url filter out db db' h).1
  Step-KeysStep {db} {db'} (Step.webhook_deleted user v id h) =
      same_keys db db' (webhook_deleted_keeps sv user v id db db' h).1
  Step-KeysStep {db} {db'} (Step.plan_changed call h) =
      same_keys db db' (plan_changed_keeps sv call db db' h).1
  Step-KeysStep {db} {db'} (Step.key_created now id secret auth v label raw h) =
      new_key_step db db' _ (key_created-api_keys now id secret auth v label raw db db' h)
  Step-KeysStep {db} {db'} (Step.delivered enabled max_retries id now answers h) =
      same_keys db db' (ap (λ (d : Database F). d.api_keys) (sym h))

  Reach-IsRevoked :
      (h : String) {db db' : Database F} → Reach sv db db' → IsRevoked h db → IsRevoked h db'
  Reach-IsRevoked h Reach.here r = r
  Reach-IsRevoked h (Reach.next reached step) r =
      KeysStep-IsRevokedIn h (Step-KeysStep step) (Reach-IsRevoked h reached r)

  -- The hash of a revoked key lets nobody in but the admin.
  IsRevoked-refuses :
      (raw : String) (now : ℕ) (tenant : Option String) (db db' : Database F) (auth : AuthContext)
      → IsRevoked (hash_key sv.crypto raw) db
      → require_api_key sv.crypto sv.settings now (some raw) tenant db ≡ returned (auth, db')
      → raw ≡ sv.settings.admin_api_key
  IsRevoked-refuses raw now tenant db db' auth r let_in =
      elim (require_api_key-IsBound sv.crypto sv.settings now (some raw) tenant db db' auth
        let_in) [
          | inl (e, _, _) ↦ cc
          | inr (raw', e, bound) ↦ absurd (
              clash
                (any_of_keep _ (λ k. is_none k.revoked_at) db.api_keys [] bound.row bound.stored
                  (rw bound.live refl))
                e)
        ]
    where
      clash :
          {raw' : String}
          → any
              (λ k. str_eq k.key_hash (hash_key sv.crypto raw') && is_none k.revoked_at)
              db.api_keys
            ≡ true
          → some raw ≡ some raw'
          → ⊥
      clash {raw'} found e =
          let same : raw' ≡ raw = cc in
          let live : any
                (λ (k : ApiKey). str_eq k.key_hash (hash_key sv.crypto raw) && is_none k.revoked_at)
                db.api_keys
              ≡ true =
            subst
              (λ x.
                any
                  (λ (k : ApiKey). str_eq k.key_hash (hash_key sv.crypto x) && is_none k.revoked_at)
                  db.api_keys
                ≡ true)
              same found in
          absurd (true≢false (sym live ∙ r.1))

  -- Once a key is revoked, and whatever requests succeed after it: a request with any text whose
  -- hash is the key's raises, unless the text is the admin's key; where the table held one row of
  -- the key's hash, as its unique constraint has it.
  pub revoke_key-final :
      (now : ℕ) (user : User) (t : String) (id : ℕ) (key : ApiKey) (db db' later : Database F)
      (raw : String) (time : ℕ) (tenant : Option String)
      → keep (λ k. k.key_id == id && str_eq k.tenant_id t) db.api_keys ≡ key ∷ []
      → keep (λ k. str_eq k.key_hash key.key_hash) db.api_keys ≡ key ∷ []
      → revoke_key now user t id db ≡ returned (tt, db')
      → Reach sv db' later
      → hash_key sv.crypto raw ≡ key.key_hash
      → raw ≢ sv.settings.admin_api_key
      → (exc : ApiError) × (require_api_key sv.crypto sv.settings time (some raw) tenant later
          ≡ raised exc)
  revoke_key-final now user t id key db db' later raw time tenant found unique done reached hashed
        other =
      let (row, one, eq) = revoke_key-row now user t id db db' done in
      let same : row ≡ key = ground arith in
      let dead : IsRevoked (hash_key sv.crypto raw) later = rw hashed (
        Reach-IsRevoked key.key_hash reached
          (rw (eq, same) (revoked_now now key db.api_keys unique))) in
      elim (Outcome-cases (require_api_key sv.crypto sv.settings time (some raw) tenant later)) [
        | inr refused ↦ refused
        | inl ((auth, last), let_in) ↦
            absurd (other (IsRevoked-refuses raw time tenant later last auth dead let_in))
      ]
