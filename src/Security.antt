-- ===== src/Security.antt =====
-- security/: session tokens, their revocation and passwords. `jwt.encode`, `jwt.decode` and the
-- argon2 hasher are parameters; times are seconds, and a claim the library checks is a field.
use goderash.Common.{
  ℕ, ◌+◌, String, str_eq, Bool, false, ◌==◌, Option, none, some, List, ◌∷◌, any, if◌then◌else◌,
  Outcome, returned, raised, ◌>>=◌, ltb,
}

-- `TokenKind`
pub data TokenKind : Type 0 where
  access refresh : TokenKind

abbrev pub kind_name : TokenKind → String
kind_name access = "access"
kind_name refresh = "refresh"

-- The dictionary that is signed. `kind` is any text: the token may be another program's.
pub record Payload : Type 0 where
  pub sub : ℕ
  pub email : String
  pub kind : String
  pub iat : ℕ
  pub exp : ℕ
  pub jti : String
  pub iss : String

pub record SessionClaims : Type 0 where
  pub user_id : ℕ
  pub email : String
  pub kind : String
  pub exp : ℕ
  pub iat : ℕ
  pub jti : String

-- `jwt.PyJWTError` and its two subclasses that the code tells apart or raises.
pub data JwtError : Type 0 where
  expired_signature invalid_token : JwtError

-- The library under the secret and the algorithm of the settings; `decode` also checks the
-- issuer, the required claims and, at the time it is given, the expiry.
pub record Jwt : Type 0 where
  pub encode : Payload → String
  pub decode : ℕ → String → Outcome JwtError Payload

abbrev pub access_ttl : ℕ
access_ttl = 1800

abbrev pub refresh_ttl : ℕ
refresh_ttl = 2592000

abbrev pub ttl_of : TokenKind → ℕ
ttl_of access = access_ttl
ttl_of refresh = refresh_ttl

unfoldable pub issue_session_token : Jwt → ℕ → ℕ → String → TokenKind → String → String × ℕ
issue_session_token jwt now user_id email kind jti =
    let exp = now + ttl_of kind in
    (
      jwt.encode (record {
        sub = user_id;
        email = email;
        kind = kind_name kind;
        iat = now;
        exp = exp;
        jti = jti;
        iss = "goderash";
      }),
      exp,
    )

abbrev pub claims_of : Payload → SessionClaims
claims_of payload = record {
  user_id = payload.sub;
  email = payload.email;
  kind = payload.kind;
  exp = payload.exp;
  iat = payload.iat;
  jti = payload.jti;
}

unfoldable pub decode_session_token : Jwt → ℕ → String → TokenKind → Outcome JwtError SessionClaims
decode_session_token jwt now token expected_kind = do
  payload ← jwt.decode now token
  (if str_eq payload.kind (kind_name expected_kind)
      then returned (claims_of payload)
      else raised JwtError.invalid_token)

-- The blocked identifiers in Redis, with the time each entry expires. No Redis, or one that does
-- not answer, is `none`.
abbrev pub Blocked : Type 0
Blocked = Option (List (String × ℕ))

unfoldable pub revoke_jti : ℕ → String → ℕ → Blocked → Blocked
revoke_jti now jti ttl_seconds none = none
revoke_jti now jti ttl_seconds (some entries) =
    if ttl_seconds == 0 then some entries else some ((jti, now + ttl_seconds) ∷ entries)

unfoldable pub is_jti_revoked : ℕ → Blocked → String → Bool
is_jti_revoked now none jti = false
is_jti_revoked now (some entries) jti =
    any (λ e. if str_eq e.0 jti then ltb now e.1 else false) entries

-- argon2's `PasswordHasher`: `verify` is whether it returns; it raises on a mismatch or a bad hash.
pub record PasswordHasher : Type 0 where
  pub hash : String → String
  pub verify : String → String → Bool

pub data ValueError : Type 0 where
  empty_password : ValueError

unfoldable pub hash_password : PasswordHasher → String → Outcome ValueError String
hash_password ph plain =
    if str_eq plain "" then raised ValueError.empty_password else returned (ph.hash plain)

unfoldable pub verify_password : PasswordHasher → String → String → Bool
verify_password ph plain hashed =
    if str_eq plain "" then false else if str_eq hashed "" then false else ph.verify hashed plain
