-- ===== src/Api/Orgs/Keys.antt =====
-- api/orgs.py, api/auth.py: the life of an API key.
use text.Mathlib.Text.{starts_with}
use text.Mathlib.TextPositions.{starts_with-append}
use goderash.Common.{
  keep_last, ℕ, String, ◌+s◌, str_eq, eq_iff, eq_refl, Bool, true, false, ◌||◌, ◌==◌, ◌≡◌, ◌≢◌,
  refl, none, some, List, [], ◌∷◌, ◌++◌, keep, any, arith, returned, ◌>>=◌,
}
use goderash.Database.{
  Database, ApiKey, User, truthy, abort_if, is_some, insert, add_key, new_key, update_where,
}
use goderash.Api.Auth.{
  Settings, Crypto, hash_key, mismatch, bind_key, compare_digest, require_api_key,
}
use goderash.Api.Orgs.{IssueKeyResponse, issue_key}

keep_none :
    {A : Type 0} (p q : A → Bool) (xs : List A) → any (λ x. q x || p x) xs ≡ false → keep p xs ≡ []
keep_none p q [] h = refl
keep_none p q (x ∷ xs) h = ground (arith, keep_none p q xs)

truthy-nonempty : (raw : String) → raw ≢ "" → truthy (some raw) ≡ some raw
unfolding truthy
truthy-nonempty raw ne = ground (arith, eq_iff raw "")

compare_digest-other :
    (cr : Crypto) (s : Settings) (raw : String)
    → cr.is_ascii raw ≡ true
    → cr.is_ascii s.admin_api_key ≡ true
    → raw ≢ s.admin_api_key
    → compare_digest cr raw s.admin_api_key ≡ returned false
unfolding compare_digest
compare_digest-other cr s raw a b ne = rw (a, b) (ground (arith, eq_iff raw s.admin_api_key))

module _ {F : Type 0} (cr : Crypto) (s : Settings) where
  -- The key table behind an issue: the new row is the only one of its hash and of its identifier.
  issue_key-row :
      (now id : ℕ) (secret : String) (user : User) (t label : String) (out : IssueKeyResponse)
      (db db' : Database F)
      → issue_key cr s now id secret user t label db ≡ returned (out, db')
      → (out.api_key ≡ s.api_key_prefix +s secret)
        × (db'.api_keys
            ≡ db.api_keys ++ new_key id now t label (hash_key cr (s.api_key_prefix +s secret)) ∷ [])
        × (any
              (λ k. k.key_id == id || str_eq k.key_hash (hash_key cr (s.api_key_prefix +s secret)))
              db.api_keys
            ≡ false)
  unfolding issue_key add_key insert
  issue_key-row now id secret user t label out db db' h = (ground arith, ground arith, ground arith)

  -- The one row that the hash of a raw key finds decides the request, where the key has the form
  -- of an issued one and is not the admin's.
  require_api_key-row :
      (now : ℕ) (raw : String) (k : ApiKey) (db : Database F)
      → truthy (some raw) ≡ some raw
      → compare_digest cr raw s.admin_api_key ≡ returned false
      → starts_with raw s.api_key_prefix ≡ true
      → keep (λ k. str_eq k.key_hash (hash_key cr raw)) db.api_keys ≡ k ∷ []
      → require_api_key cr s now (some raw) none db ≡ (
          abort_if (is_some k.revoked_at) 401 >>= (λ _. returned (
            record { tenant_id = k.tenant_id; api_key_id = some k.key_id; is_admin = false },
            record db {
              api_keys =
                  update_where
                    (λ j. j.key_id == k.key_id)
                    (λ j. record j { last_used_at = some now })
                    db.api_keys;
            },
          )))
  unfolding require_api_key bind_key mismatch truthy
  require_api_key-row now raw k db given other prefixed row = rw (given, other, prefixed, row) refl

  -- A key that was issued, shown without a tenant header, binds the request to its tenant and its
  -- row: where the raw key is not empty, is ASCII as the admin's key is, and is not the admin's.
  pub issue_key-accepted :
      (now later id : ℕ) (secret : String) (user : User) (t label : String) (out : IssueKeyResponse)
      (db db' : Database F)
      → issue_key cr s now id secret user t label db ≡ returned (out, db')
      → out.api_key ≢ ""
      → cr.is_ascii out.api_key ≡ true
      → cr.is_ascii s.admin_api_key ≡ true
      → out.api_key ≢ s.admin_api_key
      → (last : Database F) × (require_api_key cr s later (some out.api_key) none db'
          ≡ returned (record { tenant_id = t; api_key_id = some id; is_admin = false }, last))
  issue_key-accepted now later id secret user t label out db db' issued nonempty ascii admin_ascii
        other =
      let (e, table, fresh) = issue_key-row now id secret user t label out db db' issued in
      let raw = s.api_key_prefix +s secret in
      let key = new_key id now t label (hash_key cr raw) in
      (
        _,
        require_api_key-row later out.api_key key db' (truthy-nonempty out.api_key nonempty)
            (compare_digest-other cr s out.api_key ascii admin_ascii other)
            (rw e (starts_with-append s.api_key_prefix secret))
            (rw (table, e)
              (keep_last _ db.api_keys key (keep_none _ (λ k. k.key_id == id) db.api_keys fresh)
                (eq_refl (hash_key cr raw)))),
      )
