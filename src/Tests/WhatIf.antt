-- ===== src/Tests/WhatIf.antt =====
-- The what-if projector: runs, and the theorems about it.
use goderash.Common.{
  raised, if◌then◌else◌, Bool, true, false, ℕ, String, ◌≡◌, refl, none, some, List, [], ◌∷◌, map,
  keep, returned,
}
use goderash.Json.{get, Json, end, field, str, get}
use goderash.Tests.Sample.{whole, no_text}
use goderash.WhatIf.{
  ProjectError, CounterfactualEvent, Verdict, escalate, SourceEvent, OccurredAt, WhatIfReport,
  allow, deny, diffs, cap_of, day_key, prefix, text_or, truthy,
}
use goderash.WhatIf.Projector.{is_unhashable, project, event_type_of, tool_of, is_relevant}
use goderash.WhatIf.NoOverride.{
  has_unhashable, no_override, relevant, allowed, was_denied, report_of, project-no_override,
}
use goderash.Packs.{count_at, counter_from, count_one}
use goderash.WhatIf.Summary.{summary, tools_with, summary-occurring}
use goderash.WhatIf.Caps.{only_caps, fresh, key_of, capped_verdicts, project-capped_verdicts}

abbrev no_str : Json ℕ → String
no_str v = ""

abbrev event : ℕ → String → String → SourceEvent ℕ
event i kind day = record {
  payload = some (field "event_type" (str kind) (field "tool_name" (str "wire") end));
  event_type = none;
  sequence_no = some i;
  occurred_at = some (OccurredAt.text day);
}

-- Two calls of one day, each with a grant and an invocation; a denial; a call of the next day; and
-- an event that the projector passes over.
abbrev ledger : List (SourceEvent ℕ)
ledger =
    event 1 "permission.granted" "2026-03-01T10:00"
    ∷ event 2 "tool.invoked" "2026-03-01T10:00"
    ∷ event 3 "tool.completed" "2026-03-01T10:01"
    ∷ event 4 "permission.granted" "2026-03-01T11:00"
    ∷ event 5 "tool.invoked" "2026-03-01T11:00"
    ∷ event 6 "permission.denied" "2026-03-01T12:00"
    ∷ event 7 "permission.granted" "2026-03-02T09:00"
    ∷ []

-- A cap of two calls a day denies the second call already: a grant and its invocation count twice.
verdicts_wire :
    capped_verdicts
      (("wire", 2) ∷ [])
      []
      (map (key_of whole no_str no_text) (relevant whole no_str no_text ledger))
    ≡ allow ∷ allow ∷ deny ∷ deny ∷ deny ∷ allow ∷ []
unfolding get capped_verdicts cap_of tool_of event_type_of is_relevant day_key prefix text_or truthy
verdicts_wire = refl

project-capped_verdicts_example :
    (report : WhatIfReport ℕ) × (project whole no_str no_text "acme"
        (only_caps (("wire", 2) ∷ []))
        ledger
        fresh
      ≡ returned report)
    × (map (λ c. c.counter_decision) report.counter_events
        ≡ capped_verdicts
            (("wire", 2) ∷ [])
            []
            (map (key_of whole no_str no_text) (relevant whole no_str no_text ledger)))
unfolding is_unhashable get
project-capped_verdicts_example =
    project-capped_verdicts whole no_str no_text "acme" (("wire", 2) ∷ []) ledger refl

project-no_override_example :
    (project whole no_str no_text "acme" no_override ledger fresh ≡ (
      if has_unhashable whole no_str no_text ledger
      then raised ProjectError.type_error
      else returned (report_of whole no_str no_text "acme" ledger)))
    × (diffs (report_of whole no_str no_text "acme" ledger)
        ≡ map (allowed whole no_str no_text) (keep (was_denied whole no_str no_text) ledger))
project-no_override_example = project-no_override whole no_str no_text "acme" ledger fresh

-- A report with one denial and one escalation that differ from the ledger, and one event that does not.
abbrev counted : ℕ → Verdict → Bool → CounterfactualEvent
counted i verdict differs = record {
  sequence_no = i;
  event_type = "tool.invoked";
  tool_name = some "wire";
  real_decision = allow;
  counter_decision = verdict;
  reason = none;
  diff = differs;
}

abbrev small_report : WhatIfReport ℕ
small_report = record {
  tenant_id = "acme";
  policy = no_override;
  total_real_events = 3;
  counter_events = counted 1 deny true ∷ counted 2 escalate true ∷ counted 3 allow false ∷ [];
}

summary-small_report : summary small_report ≡ record {
  tenant_id = "acme";
  total_real_events = 3;
  diffs_count = 2;
  would_deny_by_tool = ("wire", 1) ∷ [];
  would_escalate_by_tool = ("wire", 1) ∷ [];
}
unfolding summary tools_with counter_from count_one
summary-small_report = refl

summary-occurring_example :
    (count_at "wire" (summary small_report).would_deny_by_tool ≡ 1)
    × (count_at "wire" (summary small_report).would_escalate_by_tool ≡ 1)
    × ((summary small_report).diffs_count ≡ 2)
summary-occurring_example = summary-occurring small_report "wire" refl
