-- ===== src/Api/Team/Revocation.antt =====
-- api/orgs.py, api/auth.py: tables of keys among which a key is revoked.
use goderash.Common.{
  any_left, any_none, ◌≢◌, ◌||◌, some, ℕ, String, str_eq, eq_iff, Bool, true, false, ◌&&◌, ◌==◌,
  ◌≡◌, refl, List, [], ◌∷◌, ◌++◌, any, keep, arith, if◌then◌else◌, Bool-cases, inl, inr,
}
use goderash.Database.{is_none, Database, ApiKey, update_where}
use goderash.Api.Orgs.{revoke}

-- What a request may do to the keys: nothing, a new row under the constraints, or an update
-- that keeps the hashes and revokes or keeps.
pub data KeysStep (keys : List ApiKey) : List ApiKey → Type 0 where
  same : KeysStep keys keys
  added :
      (new : ApiKey)
      → any (λ k. k.key_id == new.key_id || str_eq k.key_hash new.key_hash) keys ≡ false
      → KeysStep keys (keys ++ new ∷ [])
  used :
      (id now : ℕ)
      → KeysStep keys
          (update_where (λ k. k.key_id == id) (λ k. record k { last_used_at = some now }) keys)
  ended : (id now : ℕ) → KeysStep keys (update_where (λ k. k.key_id == id) (revoke now) keys)

-- A row has the hash, and none that has it is live.
abbrev pub IsRevokedIn : String → List ApiKey → Type 0
IsRevokedIn h keys =
    (any (λ k. str_eq k.key_hash h) keys ≡ true)
    × (any (λ k. str_eq k.key_hash h && is_none k.revoked_at) keys ≡ false)

-- The same of a database.
abbrev pub IsRevoked : {F : Type 0} → String → Database F → Type 0
IsRevoked h db = IsRevokedIn h db.api_keys

differs :
    (h : String) (new : ApiKey) (keys : List ApiKey)
    → any (λ k. k.key_id == new.key_id || str_eq k.key_hash new.key_hash) keys ≡ false
    → any (λ k. str_eq k.key_hash h) keys ≡ true
    → str_eq new.key_hash h ≡ false
differs h new [] clash r = cc
differs h new (k ∷ keys) clash r = ground (
  arith,
  differs h new keys,
  eq_iff k.key_hash h,
  eq_iff k.key_hash new.key_hash,
  eq_iff new.key_hash h,
)

-- An update that keeps the hashes and never takes a revocation back.
module _ (h : String) (p : ApiKey → Bool) (f : ApiKey → ApiKey)
    (same_hash : (k : ApiKey) → (f k).key_hash ≡ k.key_hash)
    (stays : (k : ApiKey) → is_none k.revoked_at ≡ false → is_none (f k).revoked_at ≡ false) where
  any-update_where :
      (keys : List ApiKey)
      → any (λ k. str_eq k.key_hash h) keys ≡ true
      → any (λ k. str_eq k.key_hash h) (update_where p f keys) ≡ true
  any-update_where [] r = cc
  any-update_where (k ∷ keys) r = ground (arith, any-update_where keys, same_hash k)

  live-update_where :
      (keys : List ApiKey)
      → any (λ k. str_eq k.key_hash h && is_none k.revoked_at) keys ≡ false
      → any (λ k. str_eq k.key_hash h && is_none k.revoked_at) (update_where p f keys) ≡ false
  live-update_where [] r = refl
  live-update_where (k ∷ keys) r = ground (arith, live-update_where keys, same_hash k, stays k)

pub KeysStep-IsRevokedIn :
    (h : String) {keys keys' : List ApiKey}
    → KeysStep keys keys'
    → IsRevokedIn h keys
    → IsRevokedIn h keys'
KeysStep-IsRevokedIn h KeysStep.same r = r
KeysStep-IsRevokedIn h {keys} (KeysStep.added new clash) r = (
  any_left (λ k. str_eq k.key_hash h) keys (new ∷ []) r.0,
  any_none (λ k. str_eq k.key_hash h && is_none k.revoked_at) keys new r.1
      (ground (arith, differs h new keys clash r.0)),
)
KeysStep-IsRevokedIn h {keys} (KeysStep.used id now) r = (
  any-update_where h _ _ (λ k. refl) (λ k stays. stays) keys r.0,
  live-update_where h _ _ (λ k. refl) (λ k stays. stays) keys r.1,
)
KeysStep-IsRevokedIn h {keys} (KeysStep.ended id now) r = (
  any-update_where h _ _ (λ k. refl) (λ k stays. refl) keys r.0,
  live-update_where h _ _ (λ k. refl) (λ k stays. refl) keys r.1,
)

pub any_of_keep :
    {A : Type 0} (p q : A → Bool) (xs ys : List A) (y : A)
    → keep p xs ≡ y ∷ ys
    → q y ≡ true
    → any (λ x. p x && q x) xs ≡ true
any_of_keep p q [] ys y h k = cc
any_of_keep p q (x ∷ xs) ys y h k = ground (arith, any_of_keep p q xs ys y)

any_kept_one :
    {A : Type 0} (p : A → Bool) (xs : List A) (y : A) → keep p xs ≡ y ∷ [] → any p xs ≡ true
any_kept_one p [] y h = cc
any_kept_one p (x ∷ xs) y h = ground (arith, any_kept_one p xs y)

any_of_none :
    {A : Type 0} (p q : A → Bool) (xs : List A) → keep p xs ≡ [] → any (λ x. p x && q x) xs ≡ false
any_of_none p q [] h = refl
any_of_none p q (x ∷ xs) h = ground (arith, any_of_none p q xs)

keep-revoke :
    (h : String) (id now : ℕ) (keys : List ApiKey)
    → keep (λ k. str_eq k.key_hash h) keys ≡ []
    → keep (λ k. str_eq k.key_hash h) (update_where (λ k. k.key_id == id) (revoke now) keys) ≡ []
keep-revoke h id now [] e = refl
keep-revoke h id now (k ∷ keys) e = ground (arith, keep-revoke h id now keys)

pub true≢false : true ≢ false
true≢false e = cc

dead_if_old :
    (key : ApiKey) (keys : List ApiKey)
    → keep (λ k. str_eq k.key_hash key.key_hash) keys ≡ key ∷ []
    → is_none key.revoked_at ≡ false
    → any (λ k. str_eq k.key_hash key.key_hash && is_none k.revoked_at) keys ≡ false
dead_if_old key [] e old = cc
dead_if_old key (k ∷ keys) e old = ground (
  arith,
  dead_if_old key keys,
  any_of_none (λ k. str_eq k.key_hash key.key_hash) (λ k. is_none k.revoked_at) keys,
)

dead_if_new :
    (now : ℕ) (key : ApiKey) (keys : List ApiKey)
    → keep (λ k. str_eq k.key_hash key.key_hash) keys ≡ key ∷ []
    → any
        (λ k. str_eq k.key_hash key.key_hash && is_none k.revoked_at)
        (update_where (λ k. k.key_id == key.key_id) (revoke now) keys)
      ≡ false
dead_if_new now key [] e = cc
dead_if_new now key (k ∷ keys) e = ground (
  arith,
  dead_if_new now key keys,
  keep-revoke key.key_hash key.key_id now keys,
  any_of_none (λ k. str_eq k.key_hash key.key_hash) (λ k. is_none k.revoked_at)
      (update_where (λ k. k.key_id == key.key_id) (revoke now) keys),
)

-- What a revocation leaves, of a key whose hash no other row has.
pub revoked_now :
    (now : ℕ) (key : ApiKey) (keys : List ApiKey)
    → keep (λ k. str_eq k.key_hash key.key_hash) keys ≡ key ∷ []
    → IsRevokedIn key.key_hash (
        if is_none key.revoked_at
        then update_where (λ k. k.key_id == key.key_id) (revoke now) keys
        else keys)
revoked_now now key keys e =
    let there = any_kept_one (λ k. str_eq k.key_hash key.key_hash) keys key e in
    elim (Bool-cases (is_none key.revoked_at)) [
      | inl new ↦ rw new (
        any-update_where key.key_hash _ _ (λ k. refl) (λ k stays. refl) keys there,
        dead_if_new now key keys e,
      )
      | inr old ↦ rw old (there, dead_if_old key keys e old)
    ]
