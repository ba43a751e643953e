-- ===== src/WhatIf/Summary.antt =====
-- goderash_core/whatif/projector.py: the summary of a report.
use goderash.Common.{
  Bool, false, ◌&&◌, keep, ◌≡◌, ◌∙◌, refl, Option-cases, inl, inr, eq_iff, ℕ, String, str_eq, none,
  some, List, [], ◌∷◌, length, arith, if◌then◌else◌,
}
use goderash.WhatIf.{
  Verdict, deny, escalate, CounterfactualEvent, WhatIfReport, same_verdict, diffs,
}
use goderash.Packs.{counter, count_at}
use goderash.Packs.Counts.{counter-counts}

-- The tools of the events with a verdict, where there is a tool: what one of the counts counts.
unfoldable pub tools_with : Verdict → List CounterfactualEvent → List String
tools_with verdict [] = []
tools_with verdict (d ∷ events) =
    let rest = tools_with verdict events in
    elim d.tool_name [
      | none ↦ rest
      | some tool ↦
          if str_eq tool ""
          then rest
          else if same_verdict d.counter_decision verdict
          then tool ∷ rest
          else rest
    ]

pub record Summary : Type 0 where
  pub tenant_id : String
  pub total_real_events : ℕ
  pub diffs_count : ℕ
  pub would_deny_by_tool : List (String × ℕ)
  pub would_escalate_by_tool : List (String × ℕ)

unfoldable pub summary : {F : Type 0} → WhatIfReport F → Summary
summary report = record {
  tenant_id = report.tenant_id;
  total_real_events = report.total_real_events;
  diffs_count = length (diffs report);
  would_deny_by_tool = counter (tools_with deny (diffs report));
  would_escalate_by_tool = counter (tools_with escalate (diffs report));
}

-- The events of one tool with a verdict.
abbrev pub of_tool : String → Verdict → CounterfactualEvent → Bool
of_tool tool verdict d =
    (elim d.tool_name [ none ↦ false | some t ↦ str_eq t tool ])
    && same_verdict d.counter_decision verdict

-- How many of the report's events differ and are of one tool with a verdict.
abbrev pub occurring : {F : Type 0} → WhatIfReport F → String → Verdict → ℕ
occurring report tool verdict =
    length (keep (λ d. d.diff && of_tool tool verdict d) report.counter_events)

tools_with-occurring :
    (tool : String) (verdict : Verdict) (events : List CounterfactualEvent)
    → str_eq tool "" ≡ false
    → length (keep (λ t. str_eq t tool) (tools_with verdict (keep (λ c. c.diff) events)))
      ≡ length (keep (λ d. d.diff && of_tool tool verdict d) events)
unfolding tools_with
tools_with-occurring tool verdict [] h = refl
tools_with-occurring tool verdict (d ∷ events) h =
    let rest = tools_with-occurring tool verdict events h in
    elim (Option-cases d.tool_name) [
      | inl absent ↦ ground (arith, absent, rest)
      | inr (t, there) ↦ ground (arith, there, rest, eq_iff t tool, eq_iff t "", eq_iff tool "")
    ]

-- The summary of any report counts, for every tool with a name, exactly the report's events of this
-- tool that differ and are denied, and those that differ and are escalated; and the differences are
-- all events that differ.
pub summary-occurring :
    {F : Type 0} (report : WhatIfReport F) (tool : String)
    → str_eq tool "" ≡ false
    → (count_at tool (summary report).would_deny_by_tool ≡ occurring report tool deny)
      × (count_at tool (summary report).would_escalate_by_tool ≡ occurring report tool escalate)
      × ((summary report).diffs_count ≡ length (keep (λ c. c.diff) report.counter_events))
unfolding summary diffs
summary-occurring report tool named = (
  (counter-counts tool (tools_with deny (diffs report))).0
      ∙ tools_with-occurring tool deny report.counter_events named,
  (counter-counts tool (tools_with escalate (diffs report))).0
      ∙ tools_with-occurring tool escalate report.counter_events named,
  refl,
)
