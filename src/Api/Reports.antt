-- ===== src/Api/Reports.antt =====
-- api/packs.py, api/whatif.py and the evidence packs of api/orgs.py: the packs and the projections
-- over a window of the ledger. `render` makes the controls of a regulation. The window
-- ends now and starts thirty days before its end where the request does not say; times are
-- seconds, and the earliest time is 0.
use goderash.Common.{
  ℕ, ◌-◌, String, str_eq, true, not, Option, none, some, List, [], map, length, if◌then◌else◌,
  returned, ◌>>=◌,
}
use goderash.Json.{Json, Fields}
use goderash.Real.{Real}
use goderash.Ledger.Chain.{Hasher}
use goderash.Ledger.Store.{EventRow, iter_tenant}
use goderash.Packs.{PackGenerator, Regulation, Artifact, collect, build}
use goderash.WhatIf.{WhatIfPolicy, SourceEvent, CounterfactualEvent, OccurredAt, diffs}
use goderash.WhatIf.Projector.{project}
use goderash.WhatIf.Summary.{Summary, summary}
use goderash.Database.{Database, User, Handler, unhandled, abort_if, or_abort, raising}
use goderash.Api.Orgs.{require_membership}

-- `PACK_REGISTRY.get(regulation)`
abbrev pub registered : String → Option Regulation
registered name =
    if str_eq name "soc2"
    then some Regulation.soc2
    else if str_eq name "hipaa"
    then some Regulation.hipaa
    else if str_eq name "ffiec"
    then some Regulation.ffiec
    else if str_eq name "finra"
    then some Regulation.finra
    else if str_eq name "sec_17a4"
    then some Regulation.sec_17a4
    else none

-- `body.end or now`, `body.start or (end - timedelta(days=30))`
abbrev pub or_time : Option ℕ → ℕ → ℕ
or_time none t = t
or_time (some given) t = given

abbrev pub window_start : Option ℕ → ℕ → ℕ
window_start start end = or_time start (end - 2592000)

abbrev pub pack_for : {F : Type 0} → Regulation → String → ℕ → ℕ → PackGenerator F
pack_for regulation tenant_id start end = record {
  regulation = regulation;
  tenant_id = tenant_id;
  start = start;
  end = end;
  events = [];
  chain_ok = true;
  chain_broken_at = none;
}

pub record WhatIfResponse : Type 0 where
  pub tenant_id : String
  pub total_real_events : ℕ
  pub diff_count : ℕ
  pub summary : Summary
  pub diffs : List CounterfactualEvent

module _ {F : Type 0} (hs : Hasher (Fields F))
    (render : Regulation → List (EventRow F) → Fields F) where
  -- `generate_pack` of api/packs.py, for the tenant of the API key.
  unfoldable pub generate_pack :
      ℕ → String → String → Option ℕ → Option ℕ → Database F → Handler (Artifact F)
  generate_pack now tenant_id regulation start end db = do
    cls ← or_abort 404 (registered regulation)
    let until = or_time end now
    let gen = collect hs (pack_for cls tenant_id (window_start start until) until) db.events
    _ ← abort_if (not gen.chain_ok) 409
    raising (λ _. unhandled) (build render gen)

  -- `generate_pack` of api/orgs.py
  unfoldable pub generate_org_pack :
      ℕ → User → String → String → Option ℕ → Option ℕ → Database F → Handler (Artifact F)
  unfolding require_membership generate_pack
  generate_org_pack now user tenant_id regulation start end db = do
    _ ← require_membership user tenant_id db
    generate_pack now tenant_id regulation start end db

module _ {F : Type 0} where
  -- The dictionary that the route makes of a row.
  abbrev pub timed : (ℕ → OccurredAt) → EventRow F → SourceEvent F
  timed day_of r = record {
    payload = some r.payload;
    event_type = some r.event_type;
    sequence_no = some r.sequence_no;
    occurred_at = some (day_of r.occurred_at);
  }

module _ {F : Type 0} (real : Real F) (python_str : Json F → String) (int_text : ℕ → String) where
  -- `project` of api/whatif.py
  unfoldable pub project_events_route :
      (ℕ → OccurredAt)
      → ℕ
      → String
      → WhatIfPolicy F
      → Option ℕ
      → Option ℕ
      → Database F
      → Handler WhatIfResponse
  project_events_route day_of now tenant_id policy start end db = do
    let until = or_time end now
    let rows = iter_tenant tenant_id (some (window_start start until)) (some until) none db.events
    report ←
        raising (λ _. unhandled)
          (project real python_str int_text tenant_id policy (map (timed day_of) rows)
            (record { counts = []; amounts = [] }))
    returned (record {
      tenant_id = report.tenant_id;
      total_real_events = report.total_real_events;
      diff_count = length (diffs report);
      summary = summary report;
      diffs = diffs report;
    })
