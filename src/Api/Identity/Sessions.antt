-- ===== src/Api/Identity/Sessions.antt =====
-- api/auth_public.py, security/tokens.py, security/revocation.py: how long a session lasts.
use goderash.Common.{
  Outcome-cases, ℕ, ◌+◌, ◌<◌, String, str_eq, eq_refl, true, false, ◌≡◌, refl, Option, none, some,
  List, [], ◌∷◌, arith, returned, raised, bind_returns, inl, inr, if◌then◌else◌,
}
use goderash.Security.{
  TokenKind, access, refresh, kind_name, ttl_of, Payload, SessionClaims, claims_of, JwtError, Jwt,
  issue_session_token, decode_session_token, Blocked, revoke_jti, is_jti_revoked,
}
use goderash.Database.{Database, User, http_exception}
use goderash.Api.Identity.{
  Services, PairDraw, with_user_id, issue_pair, bearer_token, session_of, require_session,
  revoke_refresh, logout, revocation_ttl,
}

-- What the library documents of `decode`: a token decodes to one dictionary only, and not once
-- that has expired.
pub record JwtLaws (jwt : Jwt) : Type 0 where
  pub steady :
      (token : String) (t u : ℕ) (p q : Payload)
      → jwt.decode t token ≡ returned p
      → jwt.decode u token ≡ returned q
      → p ≡ q
  pub expires : (token : String) (t : ℕ) (p : Payload) → jwt.decode t token ≡ returned p → t < p.exp

-- The dictionary of a token that is issued.
abbrev pub signed : ℕ → User → TokenKind → String → Payload
signed now user kind jti = record {
  sub = user.user_id;
  email = user.email;
  kind = kind_name kind;
  iat = now;
  exp = now + ttl_of kind;
  jti = jti;
  iss = "goderash";
}

revoke_jti-blocks :
    (now t : ℕ) (p : Payload) (entries : List (String × ℕ))
    → t < p.exp
    → is_jti_revoked t (revoke_jti now p.jti (revocation_ttl now p.exp) (some entries)) p.jti ≡ true
unfolding revoke_jti is_jti_revoked
revoke_jti-blocks now t p entries early = ground (arith, eq_refl p.jti)

revoke_jti-keeps :
    (now t ttl : ℕ) (jti other : String) (blocked : Blocked)
    → is_jti_revoked t blocked jti ≡ true
    → is_jti_revoked t (revoke_jti now other ttl blocked) jti ≡ true
unfolding revoke_jti is_jti_revoked
revoke_jti-keeps now t ttl jti other none h = h
revoke_jti-keeps now t ttl jti other (some entries) h = ground arith

revoke_refresh-keeps :
    (sv : Services) (now t : ℕ) (refresh_token : Option String) (blocked : Blocked) (jti : String)
    → is_jti_revoked t blocked jti ≡ true
    → is_jti_revoked t (revoke_refresh sv now refresh_token blocked) jti ≡ true
unfolding revoke_refresh
revoke_refresh-keeps sv now t refresh_token blocked jti h = grind (arith, revoke_jti-keeps)

decode-issued :
    (jwt : Jwt) (now t : ℕ) (user : User) (kind expected : TokenKind) (jti : String)
    → jwt.decode t (jwt.encode (signed now user kind jti)) ≡ returned (signed now user kind jti)
    → decode_session_token jwt t (jwt.encode (signed now user kind jti)) expected ≡ (
        if str_eq (kind_name kind) (kind_name expected)
        then returned (claims_of (signed now user kind jti))
        else raised JwtError.invalid_token)
unfolding decode_session_token
decode-issued jwt now t user kind expected jti e = rw e refl

module _ {F : Type 0} (sv : Services) where
  -- While the library decodes both tokens of a pair to what was signed, their user is stored and
  -- active, and neither is revoked: each gives a session with the stored user where its own kind is
  -- expected, and a 401 where the other kind is.
  pub issue_pair-kinds :
      (now t : ℕ) (draw : PairDraw) (user stored : User) (blocked : Blocked) (db : Database F)
      → sv.jwt.decode t (sv.jwt.encode (signed now user access draw.access_jti))
        ≡ returned (signed now user access draw.access_jti)
      → sv.jwt.decode t (sv.jwt.encode (signed now user refresh draw.refresh_jti))
        ≡ returned (signed now user refresh draw.refresh_jti)
      → with_user_id user.user_id db.users ≡ stored ∷ []
      → stored.is_active ≡ true
      → is_jti_revoked t blocked draw.access_jti ≡ false
      → is_jti_revoked t blocked draw.refresh_jti ≡ false
      → let pair = issue_pair sv now draw user in
        (session_of sv t access pair.access_token blocked db
          ≡ returned (claims_of (signed now user access draw.access_jti), stored))
        × (session_of sv t refresh pair.refresh_token blocked db
            ≡ returned (claims_of (signed now user refresh draw.refresh_jti), stored))
        × (session_of sv t access pair.refresh_token blocked db ≡ raised (http_exception 401))
        × (session_of sv t refresh pair.access_token blocked db ≡ raised (http_exception 401))
  unfolding issue_pair issue_session_token session_of
  issue_pair-kinds now t draw user stored blocked db first second found active live live' = (
    rw (decode-issued sv.jwt now t user access access draw.access_jti first, live, found, active)
        refl,
    rw
        (
          decode-issued sv.jwt now t user refresh refresh draw.refresh_jti second,
          live',
          found,
          active,
        )
        refl,
    rw (decode-issued sv.jwt now t user refresh access draw.refresh_jti second) refl,
    rw (decode-issued sv.jwt now t user access refresh draw.access_jti first) refl,
  )

module _ {F : Type 0} (sv : Services) (laws : JwtLaws sv.jwt) where
  session_of-claims :
      (now : ℕ) (token : String) (blocked : Blocked) (db : Database F) (claims : SessionClaims)
      (user : User)
      → session_of sv now access token blocked db ≡ returned (claims, user)
      → (p : Payload) × (sv.jwt.decode now token ≡ returned p) × (claims ≡ claims_of p)
  unfolding session_of decode_session_token
  session_of-claims now token blocked db claims user h =
      elim (Outcome-cases (sv.jwt.decode now token)) [
        | inl (p, e) ↦ (p, e, ground arith)
        | inr (x, e) ↦ absurd (ground arith)
      ]

  session_of-blocked :
      (t : ℕ) (token : String) (blocked : Blocked) (db : Database F) (now : ℕ) (p : Payload)
      → sv.jwt.decode now token ≡ returned p
      → (t < p.exp → is_jti_revoked t blocked p.jti ≡ true)
      → session_of sv t access token blocked db ≡ raised (http_exception 401)
  unfolding session_of decode_session_token
  session_of-blocked t token blocked db now p decoded blocks =
      elim (Outcome-cases (sv.jwt.decode t token)) [
        | inr (x, e) ↦ rw e refl
        | inl (q, e) ↦
            let same = laws.steady token now t p q decoded e in
            let dead = blocks (rw same (laws.expires token t q e)) in ground arith
      ]

  -- After a logout that returns while Redis answers, the same Authorization header gives a 401 at
  -- every time at which Redis, whatever else it holds, blocks all that the logout's list blocks at
  -- that time, whatever the database holds then. (A Redis that does not answer blocks nothing.)
  pub logout-ends :
      (now t : ℕ) (authorization refresh_token : Option String) (entries : List (String × ℕ))
      (blocked then_blocked : Blocked) (db later : Database F)
      → logout sv now authorization refresh_token (some entries) db ≡ returned blocked
      → ((jti : String)
          → is_jti_revoked t blocked jti ≡ true
          → is_jti_revoked t then_blocked jti ≡ true)
      → require_session sv t authorization then_blocked later ≡ raised (http_exception 401)
  unfolding logout require_session
  logout-ends now t authorization refresh_token entries blocked then_blocked db later out kept =
      let ((claims, user), in_session, rest) =
        bind_returns (require_session sv now authorization (some entries) db) _ out in
      let (token, header, in_session₁) =
        bind_returns (bearer_token sv authorization) _ in_session in
      let (p, decoded, e) = session_of-claims now token (some entries) db claims user in_session₁ in
      rw header (ended token claims p decoded e (ground arith))
    where
      ended :
          (token : String) (claims : SessionClaims) (p : Payload)
          → sv.jwt.decode now token ≡ returned p
          → claims ≡ claims_of p
          → blocked
            ≡ revoke_refresh sv now refresh_token
                (revoke_jti now claims.jti (revocation_ttl now claims.exp) (some entries))
          → session_of sv t access token then_blocked later ≡ raised (http_exception 401)
      ended token claims p decoded e eq =
          session_of-blocked t token then_blocked later now p decoded (λ early. kept p.jti (
            rw (eq, e)
              (revoke_refresh-keeps sv now t refresh_token _ p.jti
                (revoke_jti-blocks now t p entries early))))
