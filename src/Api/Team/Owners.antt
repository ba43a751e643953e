-- ===== src/Api/Team/Owners.antt =====
-- api/invites.py, api/auth_public.py: a tenant keeps an owner.
use goderash.Common.{
  ap, sym, any_left, any_last, str-cases, eq_refl, ℕ, String, str_eq, eq_iff, Bool, true, false,
  ◌&&◌, ◌==◌, not, ◌≡◌, sym, List, [], ◌∷◌, any, keep, arith, returned, bind_returns, Bool-cases,
  inl, inr,
}
use goderash.Database.{Database, Invite, User, Membership, scalar_one_or_none, or_abort, abort_if}
use goderash.Api.Orgs.{require_manager, is_member_row, require_membership}
use goderash.Api.Invites.{remove_member}
use goderash.Api.Identity.{Services, TokenPair}
use goderash.Api.Accounts.{
  SignupRequest, SignupResponse, SignupDraw, AcceptRequest, AcceptDraw, signup, accept_invite,
  join_existing,
}
use goderash.Api.Team.{Step, Reach, is_owner, HasOwner}
use goderash.Api.Team.Requests.{
  tenant_created_keeps, ingested_keeps, webhook_created_keeps, webhook_deleted_keeps,
  plan_changed_keeps, key_created-memberships, uninvited_keeps, revoked-memberships,
  key_used-memberships, logged_in_keeps, forgot_keeps, reset_keeps, verified_keeps, changed_keeps,
  invited_keeps, issued-memberships, signed_up-Grows, join_team-Grows, join_new-Grows,
}

keep_head : {A : Type 0} (p : A → Bool) (xs ys : List A) (y : A) → keep p xs ≡ y ∷ ys → p y ≡ true
keep_head p [] ys y h = cc
keep_head p (x ∷ xs) ys y h = ground (arith, keep_head p xs ys y)

any_kept : {A : Type 0} (p q : A → Bool) (xs : List A) → any p (keep q xs) ≡ true → any p xs ≡ true
any_kept p q [] h = cc
any_kept p q (x ∷ xs) h = ground (arith, any_kept p q xs)

any_unkept :
    {A : Type 0} (p q : A → Bool) (xs : List A)
    → any p xs ≡ true
    → any p (keep q xs) ≡ false
    → any p (keep (λ x. not (q x)) xs) ≡ true
any_unkept p q [] h k = cc
any_unkept p q (x ∷ xs) h k = ground (arith, any_unkept p q xs)

any_disjoint :
    (t : String) (a u : ℕ) (xs : List Membership)
    → (u == a) ≡ false
    → any (is_owner t) (keep (is_member_row a t) xs) ≡ true
    → any (is_owner t) (keep (λ m. not (is_member_row u t m)) xs) ≡ true
any_disjoint t a u [] ne h = cc
any_disjoint t a u (x ∷ xs) ne h = ground (arith, any_disjoint t a u xs ne)

any_elsewhere :
    (t v : String) (u : ℕ) (xs : List Membership)
    → str_eq v t ≡ false
    → any (is_owner t) xs ≡ true
    → any (is_owner t) (keep (λ m. not (is_member_row u v m)) xs) ≡ true
any_elsewhere t v u [] ne h = cc
any_elsewhere t v u (x ∷ xs) ne h =
    ground
      (arith, any_elsewhere t v u xs ne, eq_iff x.tenant_id t, eq_iff x.tenant_id v, eq_iff v t)

-- One user of a tenant is removed by another: an owner is left, where the first was none or the
-- second is one.
any_owner-removed :
    (t : String) (a u : ℕ) (xs : List Membership) (m target : Membership)
    → (u == a) ≡ false
    → keep (is_member_row a t) xs ≡ m ∷ []
    → keep (is_member_row u t) xs ≡ target ∷ []
    → (str_eq target.role "owner" && not (str_eq m.role "owner")) ≡ false
    → any (is_owner t) xs ≡ true
    → any (is_owner t) (keep (λ m. not (is_member_row u t m)) xs) ≡ true
any_owner-removed t a u xs m target ne acting gone allowed own =
    elim (Bool-cases (str_eq m.role "owner")) [
      | inl e ↦
          any_disjoint t a u xs ne
            (rw acting ground (arith, keep_head (is_member_row a t) xs [] m acting))
      | inr e ↦ any_unkept (is_owner t) (is_member_row u t) xs own (rw gone ground (arith))
    ]

module _ {F : Type 0} (sv : Services) where
  join_existing-HasOwner :
      (t : String) (now : ℕ) (draw : AcceptDraw) (invite : Invite) (user : User)
      (tokens : TokenPair) (db db' : Database F)
      → join_existing sv now draw invite user db ≡ returned (tokens, db')
      → HasOwner t db
      → HasOwner t db'
  unfolding join_existing
  join_existing-HasOwner t now draw invite user tokens db db' h own =
      grind (arith, join_team-Grows, any_left)

  accepted-HasOwner :
      (t : String) (now : ℕ) (draw : AcceptDraw) (body : AcceptRequest) (tokens : TokenPair)
      (db db' : Database F)
      → accept_invite sv now draw body db ≡ returned (tokens, db')
      → HasOwner t db
      → HasOwner t db'
  unfolding accept_invite
  accepted-HasOwner t now draw body tokens db db' h own =
      grind (arith, join_new-Grows, join_existing-HasOwner, any_left)

  require_manager-row :
      (user : User) (t : String) (db : Database F) (m : Membership)
      → require_manager user t db ≡ returned m
      → keep (is_member_row user.user_id t) db.memberships ≡ m ∷ []
  unfolding require_manager require_membership
  require_manager-row user t db m h = ground arith

  -- What a removal went through.
  abbrev Removal : User → String → ℕ → Database F → Database F → Membership → Membership → Type 0
  Removal user t u db db' m target =
      (keep (is_member_row user.user_id t) db.memberships ≡ m ∷ [])
      × ((u == user.user_id) ≡ false)
      × (keep (is_member_row u t) db.memberships ≡ target ∷ [])
      × ((str_eq target.role "owner" && not (str_eq m.role "owner")) ≡ false)
      × (db'.memberships ≡ keep (λ m. not (is_member_row u t m)) db.memberships)

  pub remove_member-Removal :
      (user : User) (t : String) (u : ℕ) (db db' : Database F)
      → remove_member user t u db ≡ returned (tt, db')
      → (m : Membership) × (target : Membership) × Removal user t u db db' m target
  unfolding remove_member
  remove_member-Removal user t u db db' h =
      let (m, acting, rest) = bind_returns (require_manager user t db) _ h in
      let (_, other, rest₁) = bind_returns (abort_if (u == user.user_id) 400) _ rest in
      let (found, row, rest₂) =
        bind_returns (scalar_one_or_none (keep (is_member_row u t) db.memberships)) _ rest₁ in
      let (target, there, rest₃) = bind_returns (or_abort 404 found) _ rest₂ in
      (
        m,
        target,
        (
          require_manager-row user t db m acting,
          ground arith,
          ground arith,
          ground arith,
          ground arith,
        ),
      )

  removed-HasOwner :
      (t v : String) (user : User) (u : ℕ) (db db' : Database F)
      → remove_member user v u db ≡ returned (tt, db')
      → HasOwner t db
      → HasOwner t db'
  removed-HasOwner t v user u db db' h own =
      let (m, target, (acting, other, gone, allowed, left)) =
        remove_member-Removal user v u db db' h in
      elim (str-cases v t) [
        | inl (e, _) ↦
            rw (left, e)
              (any_owner-removed t user.user_id u db.memberships m target other (rw (sym e) acting)
                (rw (sym e) gone) allowed own)
        | inr (_, ne) ↦ rw left (any_elsewhere t v u db.memberships ne own)
      ]

  Step-HasOwner :
      (t : String) {db db' : Database F} → Step sv db db' → HasOwner t db → HasOwner t db'
  Step-HasOwner t {db} {db'} (Step.signed_up now draw body response h) own =
      rw (signed_up-Grows sv now draw body response db db' h)
        (any_left (is_owner t) db.memberships _ own)
  Step-HasOwner t {db} {db'} (Step.logged_in now draw a p tokens h) own =
      rw ((logged_in_keeps sv now draw a p tokens db db' h).0) own
  Step-HasOwner t {db} {db'} (Step.forgot now id raw a h) own =
      rw ((forgot_keeps sv now id raw a db db' h).0) own
  Step-HasOwner t {db} {db'} (Step.password_reset now token p h) own =
      rw ((reset_keeps sv now token p db db' h).0) own
  Step-HasOwner t {db} {db'} (Step.verified now token h) own =
      rw ((verified_keeps sv now token db db' h).0) own
  Step-HasOwner t {db} {db'} (Step.changed user p q h) own =
      rw ((changed_keeps sv user p q db db' h).0) own
  Step-HasOwner t {db} {db'} (Step.invited now id raw user v a role out h) own =
      rw ((invited_keeps sv now id raw user v a role out db db' h).0) own
  Step-HasOwner t {db} {db'} (Step.uninvited now user v id h) own =
      rw ((uninvited_keeps sv now user v id db db' h).0) own
  Step-HasOwner t {db} {db'} (Step.accepted now draw body tokens h) own =
      accepted-HasOwner t now draw body tokens db db' h own
  Step-HasOwner t {db} {db'} (Step.removed user v u h) own =
      removed-HasOwner t v user u db db' h own
  Step-HasOwner t {db} {db'} (Step.issued now id secret user v label out h) own =
      rw (issued-memberships sv now id secret user v label out db db' h) own
  Step-HasOwner t {db} {db'} (Step.revoked now user v id h) own =
      rw (revoked-memberships sv now user v id db db' h) own
  Step-HasOwner t {db} {db'} (Step.key_used now key tenant auth h) own =
      rw (key_used-memberships sv now key tenant auth db db' h) own
  Step-HasOwner t {db} {db'} (Step.tenant_created auth v name tenant h) own =
      rw ((tenant_created_keeps sv auth v name tenant db db' h).0) own
  Step-HasOwner t {db} {db'} (Step.ingested hs server auth events redis h) own =
      rw ((ingested_keeps sv hs server auth events redis db db' h).0) own
  Step-HasOwner t {db} {db'} (Step.webhook_created now id secret user v url filter out h) own =
      rw ((webhook_created_keeps sv now id secret user v url filter out db db' h).0) own
  Step-HasOwner t {db} {db'} (Step.webhook_deleted user v id h) own =
      rw ((webhook_deleted_keeps sv user v id db db' h).0) own
  Step-HasOwner t {db} {db'} (Step.plan_changed call h) own =
      rw ((plan_changed_keeps sv call db db' h).0) own
  Step-HasOwner t {db} {db'} (Step.key_created now id secret auth v label raw h) own =
      rw (key_created-memberships sv now id secret auth v label raw db db' h) own
  Step-HasOwner t {db} {db'} (Step.delivered enabled max_retries id now answers h) own =
      rw (ap (λ (d : Database F). d.memberships) (sym h)) own

  Reach-HasOwner :
      (t : String) {db db' : Database F} → Reach sv db db' → HasOwner t db → HasOwner t db'
  Reach-HasOwner t Reach.here own = own
  Reach-HasOwner t (Reach.next reached step) own =
      Step-HasOwner t step (Reach-HasOwner t reached own)

  -- After a signup that succeeds, and whatever requests succeed after it in any order, by whatever
  -- users: the new tenant has a member whose role is owner.
  pub signup-HasOwner :
      (now : ℕ) (draw : SignupDraw) (body : SignupRequest) (response : SignupResponse)
      (db db' later : Database F)
      → signup sv now draw body db ≡ returned (response, db')
      → Reach sv db' later
      → HasOwner response.tenant_id later
  signup-HasOwner now draw body response db db' later h reached =
      Reach-HasOwner response.tenant_id reached (
        rw (signed_up-Grows sv now draw body response db db' h) (
          any_last (is_owner response.tenant_id) db.memberships _
            (ground (arith, eq_refl response.tenant_id))))
