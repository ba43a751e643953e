-- ===== src/Tests/Keys.antt =====
-- API keys: runs of the handlers, and the theorems about them.
use goderash.Common.{
  ℕ, String, str_eq, false, ◌≡◌, refl, ap, Option, none, some, [], ◌∷◌, returned, raised, ◌⊎◌,
}
use goderash.Database.{Database, ApiError, new_key}
use goderash.Api.Auth.{hash_key, AuthContext, admin_context, require_api_key}
use goderash.Api.Orgs.{IssueKeyResponse, issue_key, revoke_key}
use goderash.Api.Orgs.Keys.{issue_key-accepted}
use goderash.Api.Auth.Access.{IsBound, require_api_key-IsBound}
use goderash.Api.Team.Keys.{revoke_key-final}
use goderash.Api.Team.{Step, Reach}
use goderash.Tests.Accounts.{alice, office, sv, true≢false}

-- A key of the office, issued and shown.
abbrev issued : IssueKeyResponse
issued = record { key_id = 9; tenant_id = "acme"; label = "ci"; api_key = "gdr_k"; created_at = 20 }

abbrev keyed_office : Database ℕ
keyed_office = record office { api_keys = new_key 9 20 "acme" "ci" "hgdr_k" ∷ [] }

issue_key-run :
    issue_key sv.crypto sv.settings 20 9 "k" alice "acme" "ci" office
    ≡ returned (issued, keyed_office)
unfolding issue_key
issue_key-run = refl

issue_key-accepted-office :
    (last : Database ℕ) × (require_api_key sv.crypto sv.settings 30 (some "gdr_k") none keyed_office
      ≡ returned (record { tenant_id = "acme"; api_key_id = some 9; is_admin = false }, last))
issue_key-accepted-office =
    issue_key-accepted sv.crypto sv.settings 20 30 9 "k" alice "acme" "ci" issued office
      keyed_office issue_key-run (λ e. true≢false (ap (λ s. str_eq s "gdr_k") e)) refl refl
      (λ e. true≢false (ap (λ s. str_eq s "gdr_k") e))

abbrev context : AuthContext
context = record { tenant_id = "acme"; api_key_id = some 9; is_admin = false }

abbrev shown : Option String
shown = some "gdr_k"

abbrev used_office : Database ℕ
used_office = record keyed_office {
  api_keys = record (new_key 9 20 "acme" "ci" "hgdr_k") { last_used_at = some 30 } ∷ [];
}

require_api_key-run :
    require_api_key sv.crypto sv.settings 30 (some "gdr_k") none keyed_office
    ≡ returned (context, used_office)
unfolding require_api_key
require_api_key-run = refl

require_api_key-IsBound_example :
    ((shown ≡ some "admin")
      × (context ≡ admin_context sv.settings none)
      × (used_office ≡ keyed_office))
    ⊎ ((raw : String) × (shown ≡ some raw)
        × IsBound sv.crypto sv.settings raw none 30 keyed_office used_office context)
require_api_key-IsBound_example =
    require_api_key-IsBound sv.crypto sv.settings 30 (some "gdr_k") none keyed_office used_office
      context require_api_key-run

abbrev closed_office : Database ℕ
closed_office = record keyed_office {
  api_keys = record (new_key 9 20 "acme" "ci" "hgdr_k") { revoked_at = some 40 } ∷ [];
}

revoke_key-run : revoke_key 40 alice "acme" 9 keyed_office ≡ returned (tt, closed_office)
unfolding revoke_key
revoke_key-run = refl

-- After the revocation another key is issued.
abbrev reissued : IssueKeyResponse
reissued = record issued { key_id = 10; api_key = "gdr_k2"; created_at = 50 }

abbrev reopened_office : Database ℕ
reopened_office = record keyed_office {
  api_keys =
      record (new_key 9 20 "acme" "ci" "hgdr_k") { revoked_at = some 40 }
      ∷ new_key 10 50 "acme" "ci" "hgdr_k2"
      ∷ [];
}

issue_key-again :
    issue_key sv.crypto sv.settings 50 10 "k2" alice "acme" "ci" closed_office
    ≡ returned (reissued, reopened_office)
unfolding issue_key
issue_key-again = refl

revoke_key-final_example :
    (exc : ApiError) × (require_api_key sv.crypto sv.settings 60 (some "gdr_k") none reopened_office
      ≡ raised exc)
unfolding hash_key
revoke_key-final_example =
    revoke_key-final sv 40 alice "acme" 9 (new_key 9 20 "acme" "ci" "hgdr_k") keyed_office
      closed_office reopened_office "gdr_k" 60 none refl refl revoke_key-run
      (Reach.next Reach.here (Step.issued 50 10 "k2" alice "acme" "ci" reissued issue_key-again))
      refl (λ e. true≢false (ap (λ s. str_eq s "gdr_k") e))
