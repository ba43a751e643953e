-- ===== src/WhatIf/Projector.antt =====
-- goderash_core/whatif/projector.py: the projector, `_decide` and `project`.
use goderash.Common.{
  ℕ, ◌+◌, String, str_eq, ◌+s◌, Bool, true, false, ◌&&◌, not, Option, none, some, List, [], ◌∷◌,
  any, length, ltb, if◌then◌else◌, ◌≡◌, refl, Outcome, returned, raised, ◌>>=◌,
}
use goderash.Real.{Real}
use goderash.Json.{Json, Fields, end, get, arr, obj}
use goderash.Guards.PermissionMode.{PermissionMode}
use goderash.WhatIf.{
  WhatIfPolicy, Verdict, allow, deny, escalate, CounterfactualEvent, WhatIfReport, OccurredAt,
  SourceEvent, ProjectError, Seen, seen_at, set_seen, cap_of, day_key, same_verdict, text_or,
  attempted_amount, truthy,
}

module _ {F : Type 0} (real : Real F) (python_str : Json F → String) (int_text : ℕ → String) where
  -- How one check of `_decide` ends: with the method's result, or with the state for the next one.
  pub data Check : Type 0 where
    decided : Verdict × Option String → Seen F → Check
    passed : Seen F → Check

  abbrev pub count_reason : String → ℕ → ℕ → String
  count_reason tool n limit =
      "policy:velocity_count " +s (tool +s ("=" +s (int_text n +s ("/" +s int_text limit))))

  -- Per-day count caps
  unfoldable pub check_count_cap : WhatIfPolicy F → String → String → Seen F → Check
  check_count_cap policy tool day seen =
      if str_eq tool "" then passed seen else elim (cap_of tool policy.velocity_caps) [
        | none ↦ passed seen
        | some limit ↦
            let n = seen_at 0 (tool, day) seen.counts + 1 in
            let seen' = record seen { counts = set_seen (tool, day) n seen.counts } in
            if ltb limit n
            then decided (deny, some (count_reason tool n limit)) seen'
            else passed seen'
      ]

  -- Per-day caps on amounts
  unfoldable pub check_amount_cap :
      WhatIfPolicy F → Fields F → String → String → Seen F → Outcome ProjectError Check
  check_amount_cap policy payload tool day seen =
      if str_eq tool ""
      then returned (passed seen)
      else elim (cap_of tool policy.velocity_amount_caps) [
        | none ↦ returned (passed seen)
        | some limit ↦ attempted_amount real python_str int_text payload >>= (λ attempted.
            let projected = real.add (seen_at real.zero (tool, day) seen.amounts) attempted in
            let seen' = record seen { amounts = set_seen (tool, day) projected seen.amounts } in
            if real.lt limit projected
            then returned (
                decided
                  (
                    deny,
                    some (
                        "policy:velocity_amount "
                        +s (tool +s ("=" +s (real.fixed projected +s ("/" +s real.fixed limit))))),
                  )
                  seen')
            else returned (passed seen'))
      ]

  abbrev pub is_plan : Option PermissionMode → Bool
  is_plan (some PermissionMode.plan) = true
  is_plan _ = false

  -- The checks of `_decide` behind the caps on counts.
  abbrev pub decide_amount :
      WhatIfPolicy F
      → Fields F
      → String
      → String
      → Check
      → Outcome ProjectError ((Verdict × Option String) × Seen F)
  decide_amount policy payload tool day (decided result seen) = returned (result, seen)
  decide_amount policy payload tool day (passed seen) =
      check_amount_cap policy payload tool day seen >>= (λ check. elim check [
        | decided result seen' ↦ returned (result, seen')
        | passed seen' ↦
            if any (str_eq tool) policy.require_confirmation
            then returned ((escalate, some "policy:require_confirmation"), seen')
            else returned ((allow, none), seen')
      ])

  unfoldable pub decide :
      WhatIfPolicy F
      → Fields F
      → String
      → Option OccurredAt
      → Seen F
      → Outcome ProjectError ((Verdict × Option String) × Seen F)
  decide policy payload tool occurred_at seen =
      if any (str_eq tool) policy.deny_tools
      then returned ((deny, some "policy:deny_tools"), seen)
      else if is_plan policy.new_permission_mode
          && str_eq (text_or real python_str int_text "tool_category" "query" payload) "action"
      then returned ((deny, some "policy:plan_mode_action_blocked"), seen)
      else decide_amount policy payload tool (day_key occurred_at)
          (check_count_cap policy tool (day_key occurred_at) seen)

  -- What the loop reads of an event: `payload.get("event_type") or e.get("event_type")`, and so on.
  abbrev pub payload_of : SourceEvent F → Fields F
  payload_of e = elim e.payload [ none ↦ end | some p ↦ p ]

  abbrev pub or_empty : Option String → String
  or_empty none = ""
  or_empty (some s) = s

  unfoldable pub event_type_of : SourceEvent F → String
  event_type_of e =
      text_or real python_str int_text "event_type" (or_empty e.event_type) (payload_of e)

  -- `event_type not in {…}` raises where the payload's value is a list or a dictionary.
  unfoldable pub is_unhashable : SourceEvent F → Bool
  is_unhashable e = elim (get "event_type" (payload_of e)) [
    | some (arr items) ↦ truthy real python_str int_text (arr items)
    | some (obj fields) ↦ truthy real python_str int_text (obj fields)
    | _ ↦ false
  ]

  unfoldable pub tool_of : SourceEvent F → String
  tool_of e = text_or real python_str int_text "tool_name" "" (payload_of e)

  unfoldable pub is_relevant : String → Bool
  is_relevant t = any (str_eq t) ("tool.invoked" ∷ "permission.granted" ∷ "permission.denied" ∷ [])

  abbrev pub real_decision_of : String → Verdict
  real_decision_of t = if str_eq t "permission.denied" then deny else allow

  abbrev pub counter_event : SourceEvent F → Verdict × Option String → CounterfactualEvent
  counter_event e (verdict, reason) = record {
    sequence_no = elim e.sequence_no [ none ↦ 0 | some n ↦ n ];
    event_type = event_type_of e;
    tool_name = if str_eq (tool_of e) "" then none else some (tool_of e);
    real_decision = real_decision_of (event_type_of e);
    counter_decision = verdict;
    reason = reason;
    diff = not (same_verdict (real_decision_of (event_type_of e)) verdict);
  }

  -- The loop of `project`.
  unfoldable pub project_events :
      WhatIfPolicy F
      → List (SourceEvent F)
      → Seen F
      → Outcome ProjectError (List CounterfactualEvent)
  project_events policy [] seen = returned []
  project_events policy (e ∷ events) seen =
      if is_unhashable e
      then raised ProjectError.type_error
      else if is_relevant (event_type_of e)
      then (decide policy (payload_of e) (tool_of e) e.occurred_at seen >>= (λ (result, seen').
          project_events policy events seen'
          >>= (λ rest. returned (counter_event e result ∷ rest))))
      else project_events policy events seen

  unfoldable pub project :
      String
      → WhatIfPolicy F
      → List (SourceEvent F)
      → Seen F
      → Outcome ProjectError (WhatIfReport F)
  project tenant_id policy events seen = project_events policy events seen >>= (λ out.
      returned (record {
        tenant_id = tenant_id;
        policy = policy;
        total_real_events = length events;
        counter_events = out;
      }))

  -- One round of the loop.
  pub project_events-cons :
      (policy : WhatIfPolicy F) (e : SourceEvent F) (events : List (SourceEvent F))
      (seen seen' : Seen F) (result : Verdict × Option String)
      → is_unhashable e ≡ false
      → is_relevant (event_type_of e) ≡ true
      → decide policy (payload_of e) (tool_of e) e.occurred_at seen ≡ returned (result, seen')
      → project_events policy (e ∷ events) seen ≡ (
          project_events policy events seen' >>= (λ rest. returned (counter_event e result ∷ rest)))
  unfolding project_events
  project_events-cons policy e events seen seen' result hashable relevant eq =
      rw (hashable, relevant, eq) refl

  pub project_events-skip :
      (policy : WhatIfPolicy F) (e : SourceEvent F) (events : List (SourceEvent F)) (seen : Seen F)
      → is_unhashable e ≡ false
      → is_relevant (event_type_of e) ≡ false
      → project_events policy (e ∷ events) seen ≡ project_events policy events seen
  unfolding project_events
  project_events-skip policy e events seen hashable other = rw (hashable, other) refl
