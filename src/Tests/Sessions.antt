-- ===== src/Tests/Sessions.antt =====
-- Sessions: runs of the handlers, and the theorems about them.
use goderash.Common.{ℕ, ◌<◌, String, ◌≡◌, refl, none, some, [], ◌∷◌, returned, raised, arith}
use goderash.Security.{issue_session_token, Payload, access, refresh, claims_of, is_jti_revoked}
use goderash.Database.{http_exception}
use goderash.Api.Identity.{issue_pair, session_of, require_session, logout}
use goderash.Api.Identity.Sessions.{issue_pair-kinds, logout-ends}
use goderash.Tests.Accounts.{alice, office, sv, pair_draw, first_payload, second_payload, decode}

issue_pair-kinds_example :
    (session_of sv 1500 access "access-a1" none office ≡ returned (claims_of first_payload, alice))
    × (session_of sv 1500 refresh "refresh-r1" none office
        ≡ returned (claims_of second_payload, alice))
    × (session_of sv 1500 access "refresh-r1" none office ≡ raised (http_exception 401))
    × (session_of sv 1500 refresh "access-a1" none office ≡ raised (http_exception 401))
unfolding is_jti_revoked issue_pair issue_session_token
issue_pair-kinds_example =
    issue_pair-kinds sv 1000 1500 pair_draw alice alice none office refl refl refl refl refl refl

decode_steady :
    (token : String) (t u : ℕ) (p q : Payload)
    → decode t token ≡ returned p
    → decode u token ≡ returned q
    → p ≡ q
decode_steady token t u p q h k = ground arith

decode_expires : (token : String) (t : ℕ) (p : Payload) → decode t token ≡ returned p → t < p.exp
decode_expires token t p h = ground arith

logout-run :
    logout sv 1200 (some "bearer access-a1") none (some []) office
    ≡ returned (some (("a1", 2860) ∷ []))
unfolding logout
logout-run = refl

logout-ends_example :
    require_session sv 2000
      (some "bearer access-a1")
      (some (("b7", 3000) ∷ ("a1", 2860) ∷ []))
      office
    ≡ raised (http_exception 401)
unfolding is_jti_revoked
logout-ends_example =
    logout-ends sv (record { steady = decode_steady; expires = decode_expires }) 1200 2000
      (some "bearer access-a1") none [] (some (("a1", 2860) ∷ []))
      (some (("b7", 3000) ∷ ("a1", 2860) ∷ [])) office office logout-run
      (λ jti h. ground (arith, h))
