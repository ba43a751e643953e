-- ===== src/Api/Invites.antt =====
-- api/invites.py: the invites and the members of a tenant. `normalize` is Python's `lower` and
-- `strip`; the mail with the token is left out. The role of a request is one of three, as the
-- pattern of `InviteRequest` has it.
use goderash.Common.{
  ℕ, ◌+◌, String, str_eq, Bool, ◌&&◌, ◌==◌, not, ltb, leb, List, [], ◌∷◌, ◌++◌, any, keep, map,
  if◌then◌else◌, returned, ◌>>=◌, some, none,
}
use goderash.Database.{
  Database, User, Membership, Invite, Handler, is_none, is_some, abort_if, or_abort,
  scalar_one_or_none, update_where, order_by, add_invite,
}
use goderash.Api.Auth.{Crypto, hash_key}
use goderash.Api.Orgs.{require_membership, require_manager, is_member_row}

pub data InviteRole : Type 0 where
  admin developer viewer : InviteRole

abbrev pub role_name : InviteRole → String
role_name admin = "admin"
role_name developer = "developer"
role_name viewer = "viewer"

pub record InviteOut : Type 0 where
  pub invite_id : ℕ
  pub tenant_id : String
  pub email : String
  pub role : String
  pub expires_at : ℕ
  pub created_at : ℕ

abbrev pub invite_out : Invite → InviteOut
invite_out inv = record {
  invite_id = inv.invite_id;
  tenant_id = inv.tenant_id;
  email = inv.email;
  role = inv.role;
  expires_at = inv.expires_at;
  created_at = inv.created_at;
}

pub record MemberOut : Type 0 where
  pub user_id : ℕ
  pub email : String
  pub full_name : String
  pub role : String
  pub joined_at : ℕ
  pub email_verified : Bool

-- Neither accepted, nor revoked, nor expired.
abbrev pub is_open : ℕ → Invite → Bool
is_open now i = is_none i.accepted_at && (is_none i.revoked_at && ltb now i.expires_at)

abbrev pub is_pending : ℕ → String → String → Invite → Bool
is_pending now tenant_id email i =
    str_eq i.tenant_id tenant_id && (str_eq i.email email && is_open now i)

-- `timedelta(days=7)`
abbrev pub invite_ttl : ℕ
invite_ttl = 604800

-- The users a membership is joined with; `User.id` is a primary key.
abbrev pub joined : List User → Membership → List MemberOut
joined [] m = []
joined (u ∷ users) m =
    let rest = joined users m in
    if u.user_id == m.user_id
    then record {
      user_id = m.user_id;
      email = u.email;
      full_name = u.full_name;
      role = m.role;
      joined_at = m.created_at;
      email_verified = is_some u.email_verified_at;
    }
      ∷ rest
    else rest

abbrev pub join_all : List User → List Membership → List MemberOut
join_all users [] = []
join_all users (m ∷ rest) = joined users m ++ join_all users rest

-- The row that `create_invite` adds.
abbrev pub new_invite : ℕ → ℕ → String → ℕ → String → String → String → Invite
new_invite now invite_id tenant_id inviter email role token_hash = record {
  invite_id = invite_id;
  tenant_id = tenant_id;
  inviter_user_id = some inviter;
  email = email;
  role = role;
  token_hash = token_hash;
  expires_at = now + invite_ttl;
  accepted_at = none;
  revoked_at = none;
  created_at = now;
}

module _ {F : Type 0} where
  -- The memberships of the tenant, joined with the users of the address.
  abbrev pub members_with : String → String → Database F → List Membership
  members_with tenant_id email db =
      keep
        (λ m.
          str_eq m.tenant_id tenant_id
          && any (λ u. u.user_id == m.user_id && str_eq u.email email) db.users)
        db.memberships

  unfoldable pub create_invite :
      Crypto
      → (String → String)
      → ℕ
      → ℕ
      → String
      → User
      → String
      → String
      → InviteRole
      → Database F
      → Handler (InviteOut × Database F)
  unfolding require_manager hash_key add_invite
  create_invite cr normalize now invite_id raw user tenant_id address role db = do
    _ ← require_manager user tenant_id db
    let email = normalize address
    pending ← scalar_one_or_none (keep (is_pending now tenant_id email) db.invites)
    _ ← abort_if (is_some pending) 409
    already ← scalar_one_or_none (members_with tenant_id email db)
    _ ← abort_if (is_some already) 409
    let invite =
        new_invite now invite_id tenant_id user.user_id email (role_name role) (hash_key cr raw)
    db' ← add_invite invite db
    returned (invite_out invite, db')

  unfoldable pub list_invites : ℕ → User → String → Database F → Handler (List InviteOut)
  unfolding require_manager
  list_invites now user tenant_id db = do
    _ ← require_manager user tenant_id db
    returned (
        map invite_out (
          order_by (λ i j. leb j.created_at i.created_at)
            (keep (λ i. str_eq i.tenant_id tenant_id && is_open now i) db.invites)))

  unfoldable pub revoke_invite :
      ℕ → User → String → ℕ → Database F → Handler (Unit {0} × Database F)
  unfolding require_manager
  revoke_invite now user tenant_id invite_id db = do
    _ ← require_manager user tenant_id db
    result ←
        scalar_one_or_none
          (keep (λ i. i.invite_id == invite_id && str_eq i.tenant_id tenant_id) db.invites)
    invite ← or_abort 404 result
    let invites =
        update_where (λ i. i.invite_id == invite_id) (λ i. record i { revoked_at = some now })
          db.invites
    returned (tt, if is_none invite.revoked_at then record db { invites = invites } else db)

  unfoldable pub list_members : User → String → Database F → Handler (List MemberOut)
  unfolding require_membership
  list_members user tenant_id db = do
    _ ← require_membership user tenant_id db
    returned (
        join_all db.users (
          order_by (λ m k. leb m.created_at k.created_at)
            (keep (λ m. str_eq m.tenant_id tenant_id) db.memberships)))

  unfoldable pub remove_member : User → String → ℕ → Database F → Handler (Unit {0} × Database F)
  unfolding require_manager
  remove_member acting_user tenant_id user_id db = do
    membership ← require_manager acting_user tenant_id db
    _ ← abort_if (user_id == acting_user.user_id) 400
    result ← scalar_one_or_none (keep (is_member_row user_id tenant_id) db.memberships)
    target ← or_abort 404 result
    _ ← abort_if (str_eq target.role "owner" && not (str_eq membership.role "owner")) 403
    returned (
      tt,
      record db {
        memberships = keep (λ m. not (is_member_row user_id tenant_id m)) db.memberships;
      },
    )
