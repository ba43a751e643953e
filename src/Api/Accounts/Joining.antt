-- ===== src/Api/Accounts/Joining.antt =====
-- api/invites.py, api/auth_public.py: from an invite to a membership.
use goderash.Common.{
  any_last, keep_last, ℕ, ◌+◌, ◌<◌, String, str_eq, eq_refl, Bool, true, false, ◌&&◌, ◌||◌, ◌==◌,
  ◌≡◌, refl, ap, ◌∙◌, some, List, [], ◌∷◌, ◌++◌, any, keep, arith, returned, raised,
}
use goderash.Security.{hash_password}
use goderash.Database.{
  Database, User, Membership, Invite, http_exception, truthy, update_where, insert, add_user,
  add_membership, add_invite, has_tenant, membership_clash,
}
use goderash.Api.Auth.{hash_key}
use goderash.Api.Orgs.{require_membership, is_member_row}
use goderash.Api.Invites.{InviteRole, role_name, InviteOut, new_invite, is_open, create_invite}
use goderash.Api.Identity.{Services, TokenPair, with_email, normalized, issue_pair}
use goderash.Api.Accounts.{
  AcceptRequest, AcceptDraw, new_user, new_membership, accept_invite, join_new, join_team,
  accept_row,
}

-- The rows that a token finds.
abbrev found_by : String → ℕ → Invite → Bool
found_by hash now i = str_eq i.token_hash hash && is_open now i

abbrev clashes : Invite → Invite → Bool
clashes row i = i.invite_id == row.invite_id || str_eq i.token_hash row.token_hash

module _ (row : Invite) where
  keep-found_none :
      (now : ℕ) (rows : List Invite)
      → any (clashes row) rows ≡ false
      → keep (found_by row.token_hash now) rows ≡ []
  keep-found_none now [] h = refl
  keep-found_none now (i ∷ rows) h = ground (arith, keep-found_none now rows)

  accepted-append :
      (now time : ℕ) (rows : List Invite)
      → any (clashes row) rows ≡ false
      → keep (found_by row.token_hash time) (
          update_where
            (λ i. i.invite_id == row.invite_id)
            (λ i. record i { accepted_at = some now })
            (rows ++ row ∷ []))
        ≡ []
  accepted-append now time [] h = ground (arith, eq_refl row.token_hash)
  accepted-append now time (i ∷ rows) h = ground (arith, accepted-append now time rows)

no_clash-User :
    (id : ℕ) (email : String) (users : List User)
    → with_email email users ≡ []
    → any (λ u. u.user_id == id) users ≡ false
    → any (λ u. u.user_id == id || str_eq u.email email) users ≡ false
no_clash-User id email [] h k = refl
no_clash-User id email (u ∷ users) h k = ground (arith, no_clash-User id email users)

no_clash-Membership :
    (row : Membership) (rows : List Membership)
    → any (λ m. m.membership_id == row.membership_id) rows ≡ false
    → keep (is_member_row row.user_id row.tenant_id) rows ≡ []
    → any (membership_clash row) rows ≡ false
no_clash-Membership row [] h k = refl
no_clash-Membership row (m ∷ rows) h k = ground (arith, no_clash-Membership row rows)

module _ {F : Type 0} (sv : Services) where
  create_invite-row :
      (now id : ℕ) (raw : String) (user : User) (t address : String) (role : InviteRole)
      (out : InviteOut) (db db' : Database F)
      → create_invite sv.crypto (normalized sv) now id raw user t address role db
        ≡ returned (out, db')
      → let row =
          new_invite now id t user.user_id
            (normalized sv address)
            (role_name role)
            (hash_key sv.crypto raw) in
        (db' ≡ record db { invites = db.invites ++ row ∷ [] })
        × (any (clashes row) db.invites ≡ false)
        × (has_tenant t db ≡ true)
  unfolding create_invite add_invite insert
  create_invite-row now id raw user t address role out db db' h =
      (ground arith, ground arith, ground arith)

  -- The account and the membership of an invitee who has no account yet.
  join_new-returns :
      (now : ℕ) (draw : AcceptDraw) (invite : Invite) (body : AcceptRequest)
      (name password : String) (db : Database F)
      → truthy body.full_name ≡ some name
      → truthy body.password ≡ some password
      → hash_password sv.hasher password ≡ returned (sv.hasher.hash password)
      → with_email invite.email db.users ≡ []
      → any (λ u. u.user_id == draw.user_id) db.users ≡ false
      → any (λ m. m.membership_id == draw.membership_id) db.memberships ≡ false
      → keep (is_member_row draw.user_id invite.tenant_id) db.memberships ≡ []
      → has_tenant invite.tenant_id db ≡ true
      → let user =
          new_user draw.user_id now invite.email
            (sv.hasher.hash password)
            (sv.strip name)
            (some now) in
        let m = new_membership draw.membership_id draw.user_id invite.tenant_id invite.role now in
        join_new sv now draw invite body db
        ≡ returned (
          issue_pair sv now draw.pair user,
          accept_row invite.invite_id now
              (record db { users = db.users ++ user ∷ []; memberships = db.memberships ++ m ∷ [] }),
        )
  unfolding join_new join_team add_user add_membership insert
  join_new-returns now draw invite body name password db named given hashed nobody new_id new_row
        no_member tenant =
      let user =
        new_user draw.user_id now invite.email (sv.hasher.hash password) (sv.strip name)
          (some now) in
      let m = new_membership draw.membership_id draw.user_id invite.tenant_id invite.role now in
      rw
        (
          named,
          given,
          hashed,
          no_clash-User draw.user_id invite.email db.users nobody new_id,
          tenant,
          no_clash-Membership m db.memberships new_row no_member,
          any_last (λ (u : User). u.user_id == draw.user_id) db.users user (ground arith),
        )
        refl

  accept_invite-refused :
      (now : ℕ) (draw : AcceptDraw) (body : AcceptRequest) (db : Database F)
      → keep (found_by (hash_key sv.crypto body.token) now) db.invites ≡ []
      → accept_invite sv now draw body db ≡ raised (http_exception 400)
  unfolding accept_invite
  accept_invite-refused now draw body db none_left = rw none_left refl

  -- An invite that was created, and its token sent back within seven days with a name and a
  -- password, by someone without an account, the draws being new: accept_invite returns; the new
  -- user has a membership of the tenant with the role of the invite; and the token is refused after
  -- that, whoever sends it.
  pub create_invite-accepted :
      (now later time id : ℕ) (raw : String) (user : User) (t address : String) (role : InviteRole)
      (out : InviteOut) (db invited : Database F) (draw : AcceptDraw) (name password : String)
      (again : AcceptDraw) (other : AcceptRequest)
      → create_invite sv.crypto (normalized sv) now id raw user t address role db
        ≡ returned (out, invited)
      → later < now + 604800
      → truthy (some name) ≡ some name
      → truthy (some password) ≡ some password
      → hash_password sv.hasher password ≡ returned (sv.hasher.hash password)
      → with_email (normalized sv address) db.users ≡ []
      → any (λ u. u.user_id == draw.user_id) db.users ≡ false
      → any (λ m. m.membership_id == draw.membership_id) db.memberships ≡ false
      → keep (is_member_row draw.user_id t) db.memberships ≡ []
      → other.token ≡ raw
      → (tokens : TokenPair) × (joined : Database F) × (member : User) × (m : Membership)
        × (accept_invite sv later draw
              (record { token = raw; full_name = some name; password = some password })
              invited
            ≡ returned (tokens, joined))
        × (member.email ≡ normalized sv address)
        × (with_email (normalized sv address) joined.users ≡ member ∷ [])
        × (require_membership member t joined ≡ returned m)
        × (m.role ≡ role_name role)
        × (accept_invite sv time again other joined ≡ raised (http_exception 400))
  unfolding accept_invite require_membership
  create_invite-accepted now later time id raw user t address role out db invited draw name password
        again other created early named given hashed nobody new_id new_row no_member same =
      let email = normalized sv address in
      let row = new_invite now id t user.user_id email (role_name role) (hash_key sv.crypto raw) in
      let (after, fresh, tenant) =
        create_invite-row now id raw user t address role out db invited created in
      let middle : Database F = record db { invites = db.invites ++ row ∷ [] } in
      let body : AcceptRequest = record {
        token = raw;
        full_name = some name;
        password = some password;
      } in
      let member =
        new_user draw.user_id later email (sv.hasher.hash password) (sv.strip name) (some later) in
      let m = new_membership draw.membership_id draw.user_id t (role_name role) later in
      let found : keep (found_by (hash_key sv.crypto raw) later) (db.invites ++ row ∷ [])
          ≡ row ∷ [] =
        keep_last _ db.invites row (keep-found_none row later db.invites fresh)
          (ground (arith, eq_refl (hash_key sv.crypto raw))) in
      (
        issue_pair sv later draw.pair member,
        accept_row id later (record middle {
          users = db.users ++ member ∷ [];
          memberships = db.memberships ++ m ∷ [];
        }),
        member,
        m,
        ap (accept_invite sv later draw body) after
            ∙ rw (found, nobody)
                (join_new-returns later draw row body name password middle named given hashed nobody
                  new_id new_row no_member tenant),
        refl,
        keep_last _ db.users member nobody (eq_refl email),
        rw
            (keep_last (is_member_row draw.user_id t) db.memberships m no_member
              (ground (arith, eq_refl t)))
            refl,
        refl,
        accept_invite-refused time again other _
            (rw same (accepted-append row later time db.invites fresh)),
      )
