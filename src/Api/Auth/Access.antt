-- ===== src/Api/Auth/Access.antt =====
-- api/auth.py: whom a request is bound to.
use text.Mathlib.Text.{starts_with}
use goderash.Common.{
  if◌then◌else◌, str-cases, subst, ℕ, String, str_eq, eq_iff, Bool, true, false, ◌==◌, ◌≡◌, ◌⊎◌,
  inl, inr, Option, none, some, [], ◌∷◌, keep, arith, returned, raised, bind_returns,
}
use goderash.Database.{
  Database, ApiKey, truthy, update_where, scalar_one_or_none, or_abort, http_exception,
}
use goderash.Api.Auth.{
  Settings, Crypto, AuthContext, hash_key, mismatch, bind_key, admin_context, compare_digest,
  require_api_key,
}

truthy-some : (o : Option String) (raw : String) → truthy o ≡ some raw → o ≡ some raw
unfolding truthy
truthy-some none raw h = cc
truthy-some (some x) raw h = ground arith

matches-given :
    (given own : String) → mismatch (truthy (some given)) own ≡ false → (given ≡ "") ⊎ (given ≡ own)
unfolding truthy mismatch
matches-given given own h = elim (str-cases given "") [
  | inl (empty, _) ↦ inl empty
  | inr (_, nonempty) ↦ inr (ground (arith, nonempty, eq_iff given own))
]

matches-header :
    (tenant : Option String) (own : String)
    → mismatch (truthy tenant) own ≡ false
    → (header : String) → tenant ≡ some header
    → (header ≡ "") ⊎ (header ≡ own)
matches-header none own h header e = cc
matches-header (some given) own h header e =
    let same : given ≡ header = cc in
    subst (λ x. (x ≡ "") ⊎ (x ≡ own)) same (matches-given given own h)

module _ {F : Type 0} (cr : Crypto) (s : Settings) where
  -- The stored row behind a context that is no admin's.
  pub record IsBound (raw : String) (x_goderash_tenant : Option String) (now : ℕ)
      (db db' : Database F) (auth : AuthContext) : Type 0 where
    pub row : ApiKey
    pub stored : keep (λ k. str_eq k.key_hash (hash_key cr raw)) db.api_keys ≡ row ∷ []
    pub live : row.revoked_at ≡ none
    pub tenant : auth.tenant_id ≡ row.tenant_id
    pub key : auth.api_key_id ≡ some row.key_id
    pub matches :
        (header : String)
        → x_goderash_tenant ≡ some header
        → (header ≡ "") ⊎ (header ≡ row.tenant_id)
    pub plain : auth.is_admin ≡ false
    pub touched : db' ≡ record db {
      api_keys =
          update_where
            (λ k. k.key_id == row.key_id)
            (λ k. record k { last_used_at = some now })
            db.api_keys;
    }

  bind_key-IsBound :
      (now : ℕ) (raw : String) (tenant : Option String) (db db' : Database F) (auth : AuthContext)
      → bind_key cr s now raw tenant db ≡ returned (auth, db')
      → IsBound raw tenant now db db' auth
  unfolding bind_key
  bind_key-IsBound now raw tenant db db' auth h =
      let (found, one, rest) =
        bind_returns
          (scalar_one_or_none (keep (λ k. str_eq k.key_hash (hash_key cr raw)) db.api_keys)) _ h in
      let (row, there, rest₁) = bind_returns (or_abort 401 found) _ rest in
      record {
        row = row;
        stored = ground arith;
        live = ground arith;
        tenant = ground arith;
        key = ground arith;
        matches = matches-header tenant row.tenant_id (ground arith);
        plain = ground arith;
        touched = ground arith;
      }

  -- A context that is returned was made for the admin's key, with the header's tenant or the
  -- default and no change of the database; or for a key with exactly one stored row of its hash,
  -- which is not revoked, whose tenant and identifier the context has, and whose tenant the header
  -- names if it names one; such a context is no admin's, and only the time of the row's last use
  -- changes.
  pub require_api_key-IsBound :
      (now : ℕ) (key tenant : Option String) (db db' : Database F) (auth : AuthContext)
      → require_api_key cr s now key tenant db ≡ returned (auth, db')
      → ((key ≡ some s.admin_api_key) × (auth ≡ admin_context s tenant) × (db' ≡ db))
        ⊎ ((raw : String) × (key ≡ some raw) × IsBound raw tenant now db db' auth)
  unfolding require_api_key compare_digest
  require_api_key-IsBound now key tenant db db' auth h =
      let (raw, given, rest) = bind_returns (or_abort 401 (truthy key)) _ h in
      let (is_admin, compared, rest₁) =
        bind_returns (compare_digest cr raw s.admin_api_key) _ rest in
      by_key raw is_admin (truthy-some key raw (ground arith)) compared rest₁
    where
      by_key :
          (raw : String) (is_admin : Bool)
          → key ≡ some raw
          → compare_digest cr raw s.admin_api_key ≡ returned is_admin
          → (if is_admin
              then returned (admin_context s tenant, db)
              else if starts_with raw s.api_key_prefix
              then bind_key cr s now raw tenant db
              else raised (http_exception 401))
            ≡ returned (auth, db')
          → ((key ≡ some s.admin_api_key) × (auth ≡ admin_context s tenant) × (db' ≡ db))
            ⊎ ((raw : String) × (key ≡ some raw) × IsBound raw tenant now db db' auth)
      by_key raw true given compared rest =
          inl (ground (arith, eq_iff raw s.admin_api_key), ground arith, ground arith)
      by_key raw false given compared rest =
          inr (raw, given, bind_key-IsBound now raw tenant db db' auth (ground arith))
