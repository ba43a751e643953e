-- ===== src/Tests/Routes.antt =====
-- The routes over the ledger: runs of the handlers, and the theorems about them.
use goderash.Common.{
  List, ℕ, ◌+s◌, true, false, ◌≡◌, refl, none, some, [], ◌∷◌, returned, raised, ◌⊎◌,
}
use goderash.Ledger.Chain.Evidence.{IsBroken}
use goderash.Ledger.Store.{
  rows_of, fits, row_of, append_many, seal_all, insert_rows, fetch_head_sequence, newest,
  fetch_head_hash,
}
use goderash.Ledger.Chain.{compute_hash}
use goderash.Ledger.Store.Fresh.{hashed}
use goderash.Events.Dump.{event_type, model_dump}
use goderash.Billing.{get_usage, is_quota_exceeded, get_usage_from_db}
use goderash.Database.{Database, ApiError}
use goderash.Api.Auth.{AuthContext}
use goderash.Api.Routes.{Server, IngestResponse, ingest_events}
use goderash.Api.Routes.Storing.{IsStored}
use goderash.Api.Routes.Log.{Refused, ingest_events-refines}
use goderash.Tests.Sample.{toy, count-digest, e3}
use goderash.Tests.Ledger.{r1, r2, table, table-IsChain}
use goderash.Tests.Accounts.{office, sv}

abbrev server : Server
server = record {
  now = 600;
  minute = "202511251700";
  period_key = λ t. "gdr:usage:" +s t;
  period_start = 0;
  warnings = true;
  split = λ s. s ∷ [];
  eighty_percent = λ q. q;
}

abbrev caller : AuthContext
caller = record { tenant_id = "acme"; api_key_id = some 9; is_admin = false }

abbrev full_office : Database ℕ
full_office = record office { events = table }

-- The third event of the tenant, and where it is.
ingest-run :
    (ingest_events toy server sv.settings caller (e3 ∷ []) none full_office).outcome
    ≡ returned (record { accepted = 1; first_event_id = 3; last_event_id = 3 })
unfolding ingest_events append_many get_usage is_quota_exceeded get_usage_from_db row_of seal_all
    insert_rows fits fetch_head_sequence newest compute_hash model_dump fetch_head_hash
ingest-run = refl

ingest_events-refines_example :
    let r = ingest_events toy server sv.settings caller (e3 ∷ []) none full_office in
    ((response : IngestResponse) × (r.outcome ≡ returned response)
      × IsStored toy "acme" (e3 ∷ []) response full_office r.db)
    ⊎ ((exc : ApiError) × (r.outcome ≡ raised exc)
        × (r.db ≡ full_office)
        × Refused server sv.settings "acme" (e3 ∷ []) none full_office exc)
    ⊎ IsBroken toy (hashed toy (rows_of "acme" table) (e3 ∷ []))
unfolding row_of fits event_type model_dump
ingest_events-refines_example =
    ingest_events-refines toy server count-digest sv.settings caller e3 [] none full_office
      (refl, refl, tt) table-IsChain (refl, refl, tt)

-- The rows stand in the table in the other order.
abbrev shuffled_office : Database ℕ
shuffled_office = record office { events = r2 ∷ r1 ∷ [] }
