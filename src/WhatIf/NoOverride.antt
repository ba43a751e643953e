-- ===== src/WhatIf/NoOverride.antt =====
-- goderash_core/whatif/projector.py: the replay under a policy that overrides nothing.
use goderash.Common.{
  any, if◌then◌else◌, raised, ℕ, String, str_eq, eq_iff, Bool, ◌≡◌, refl, ◌∙◌, none, List, [], ◌∷◌,
  map, keep, length, Bool-cases, inl, inr, returned, Option, arith,
}
use goderash.Real.{Real}
use goderash.Json.{Json, Fields}
use goderash.WhatIf.{
  WhatIfPolicy, ProjectError, CounterfactualEvent, WhatIfReport, OccurredAt, SourceEvent, Seen,
  allow, cap_of, diffs,
}
use goderash.WhatIf.Projector.{
  is_unhashable, decide, check_count_cap, check_amount_cap, event_type_of, is_relevant,
  counter_event, project_events, project, project_events-cons, project_events-skip,
}

abbrev pub no_override : {F : Type 0} → WhatIfPolicy F
no_override = record {
  velocity_caps = [];
  velocity_amount_caps = [];
  deny_tools = [];
  require_confirmation = [];
  new_permission_mode = none;
}

module _ {F : Type 0} (real : Real F) (python_str : Json F → String) (int_text : ℕ → String) where
  decide-no_override :
      (payload : Fields F) (tool : String) (at : Option OccurredAt) (seen : Seen F)
      → decide real python_str int_text no_override payload tool at seen
        ≡ returned ((allow, none), seen)
  unfolding decide check_count_cap check_amount_cap cap_of
  decide-no_override payload tool at seen = ground arith

  -- The events that the projector looks at, and what it makes of one that it allows.
  abbrev pub relevant : List (SourceEvent F) → List (SourceEvent F)
  relevant events =
      keep (λ e. is_relevant real python_str int_text (event_type_of real python_str int_text e))
        events

  abbrev pub allowed : SourceEvent F → CounterfactualEvent
  allowed e = counter_event real python_str int_text e (allow, none)

  abbrev pub was_denied : SourceEvent F → Bool
  was_denied e = str_eq (event_type_of real python_str int_text e) "permission.denied"

  abbrev pub has_unhashable : List (SourceEvent F) → Bool
  has_unhashable = any (is_unhashable real python_str int_text)

  project_events-no_override :
      (events : List (SourceEvent F)) (seen : Seen F)
      → project_events real python_str int_text no_override events seen ≡ (
          if has_unhashable events
          then raised ProjectError.type_error
          else returned (map allowed (relevant events)))
  unfolding project_events
  project_events-no_override [] seen = refl
  project_events-no_override (e ∷ events) seen =
      elim (Bool-cases (is_unhashable real python_str int_text e)) [
        | inl listed ↦ rw (listed, project_events) refl
        | inr plain ↦
            elim (Bool-cases
              (is_relevant real python_str int_text (event_type_of real python_str int_text e))) [
                | inl here ↦
                    project_events-cons real python_str int_text no_override e events seen seen
                      (allow, none) plain here (decide-no_override _ _ e.occurred_at seen)
                    ∙ rw (project_events-no_override events seen, here, plain)
                        (elim (Bool-cases (has_unhashable events)) [
                          | inl more ↦ rw more refl
                          | inr none_left ↦ rw none_left refl
                        ])
                | inr other ↦
                    project_events-skip real python_str int_text no_override e events seen plain
                      other
                    ∙ project_events-no_override events seen
                    ∙ rw (other, plain) refl
              ]
      ]

  diffs-allowed :
      (events : List (SourceEvent F))
      → keep (λ c. c.diff) (map allowed (relevant events)) ≡ map allowed (keep was_denied events)
  unfolding is_relevant
  diffs-allowed [] = refl
  diffs-allowed (e ∷ events) = ground (
    arith,
    diffs-allowed events,
    eq_iff (event_type_of real python_str int_text e) "permission.denied",
  )

  abbrev pub report_of : String → List (SourceEvent F) → WhatIfReport F
  report_of tenant_id events = record {
    tenant_id = tenant_id;
    policy = no_override;
    total_real_events = length events;
    counter_events = map allowed (relevant events);
  }

  -- Under a policy that overrides nothing the projector raises, with a TypeError, exactly if some
  -- payload has a nonempty list or dictionary for its event_type. Otherwise the report has one
  -- counter event for each invocation, grant and denial, in order, and the counter decision is
  -- "allow" in all of them; so its differences are exactly the denials of the real ledger.
  pub project-no_override :
      (tenant_id : String) (events : List (SourceEvent F)) (seen : Seen F)
      → (project real python_str int_text tenant_id no_override events seen ≡ (
          if has_unhashable events
          then raised ProjectError.type_error
          else returned (report_of tenant_id events)))
        × (diffs (report_of tenant_id events) ≡ map allowed (keep was_denied events))
  unfolding project
  project-no_override tenant_id events seen = (
    rw (project_events-no_override events seen) (elim (Bool-cases (has_unhashable events)) [
      | inl listed ↦ rw listed refl
      | inr plain ↦ rw plain refl
    ]),
    diffs-allowed events,
  )
