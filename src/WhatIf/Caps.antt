-- ===== src/WhatIf/Caps.antt =====
-- goderash_core/whatif/projector.py: the replay under caps on counts alone.
use goderash.Common.{
  any, ℕ, ◌+◌, String, str_eq, eq_iff, Bool, true, false, ◌≡◌, refl, sym, ap, ◌∙◌, Option, none,
  some, List, [], ◌∷◌, map, keep, length, ltb, if◌then◌else◌, Bool-cases, str-cases, subst,
  Option-cases, inl, inr, returned, Outcome, arith,
}
use goderash.Real.{Real}
use goderash.Json.{Json, Fields}
use goderash.WhatIf.{
  WhatIfPolicy, Verdict, CounterfactualEvent, OccurredAt, SourceEvent, WhatIfReport, ProjectError,
  Seen, allow, deny, cap_of, same_key, seen_at, set_seen, day_key,
}
use goderash.WhatIf.NoOverride.{relevant}
use goderash.WhatIf.Projector.{
  is_unhashable, decide, check_count_cap, check_amount_cap, event_type_of, tool_of, payload_of,
  is_relevant, counter_event, project_events, project, project_events-cons, project_events-skip,
  decided, passed, count_reason, Check, decide_amount,
}

-- The events before, by tool and day, and how many of them are of one tool and day.
abbrev pub Key : Type 0
Key = String × String

abbrev pub occurrences : Key → List Key → ℕ
occurrences k before = length (keep (λ j. same_key j k) before)

-- The reference: an event is denied exactly if its tool has a cap and the events of the same tool
-- and day up to this one are more than the cap.
abbrev pub exceeded : List (String × ℕ) → List Key → Key → Bool
exceeded caps before k =
    if str_eq k.0 ""
    then false
    else elim (cap_of k.0 caps) [ none ↦ false | some limit ↦ ltb limit (occurrences k before + 1) ]

unfoldable pub capped_verdicts : List (String × ℕ) → List Key → List Key → List Verdict
capped_verdicts caps before [] = []
capped_verdicts caps before (k ∷ ks) =
    let later = capped_verdicts caps (k ∷ before) ks in
    (if exceeded caps before k then deny else allow) ∷ later

abbrev pub only_caps : {F : Type 0} → List (String × ℕ) → WhatIfPolicy F
only_caps caps = record {
  velocity_caps = caps;
  velocity_amount_caps = [];
  deny_tools = [];
  require_confirmation = [];
  new_permission_mode = none;
}

seen_at-set_seen :
    (j k : Key) (v d : ℕ) (l : List (Key × ℕ))
    → seen_at d k (set_seen j v l) ≡ (if same_key j k then v else seen_at d k l)
unfolding seen_at set_seen
seen_at-set_seen j k v d [] = refl
seen_at-set_seen j k v d ((i, w) ∷ l) = ground (
  arith,
  eq_iff j.0 k.0,
  eq_iff j.1 k.1,
  eq_iff i.0 j.0,
  eq_iff i.1 j.1,
  eq_iff i.0 k.0,
  eq_iff i.1 k.1,
  seen_at-set_seen j k v d l,
)

-- The counters hold the events so far, for every tool that has a cap.
Counts : List (String × ℕ) → List Key → List (Key × ℕ) → Type 0
Counts caps before counts =
    (k : Key) (limit : ℕ)
    → str_eq k.0 "" ≡ false
    → cap_of k.0 caps ≡ some limit
    → seen_at 0 k counts ≡ occurrences k before

Counts-set :
    (caps : List (String × ℕ)) (before : List Key) (counts : List (Key × ℕ)) (j : Key)
    → Counts caps before counts
    → (limit : ℕ) → str_eq j.0 "" ≡ false
    → cap_of j.0 caps ≡ some limit
    → Counts caps (j ∷ before) (set_seen j (seen_at 0 j counts + 1) counts)
unfolding Counts
Counts-set caps before counts j inv limit named capped k limit' named' capped' = ground (
  arith,
  inv j limit named capped,
  inv k limit' named' capped',
  eq_iff j.0 k.0,
  eq_iff j.1 k.1,
  seen_at-set_seen j k (seen_at 0 j counts + 1) 0 counts,
)

Counts-same :
    (caps : List (String × ℕ)) (before : List Key) (counts : List (Key × ℕ)) (j : Key)
    → Counts caps before counts
    → (if str_eq j.0 "" then none else cap_of j.0 caps) ≡ none
    → Counts caps (j ∷ before) counts
unfolding Counts
Counts-same caps before counts j inv free k limit named capped = elim (str-cases j.0 k.0) [
  | inl (same, _) ↦ ground (
    arith,
    named,
    capped,
    subst (λ t. (if str_eq t "" then none else cap_of t caps) ≡ none) same free,
  )
  | inr (_, other) ↦ ground (arith, other, inv k limit named capped)
]

abbrev pub fresh : {F : Type 0} → Seen F
fresh = record { counts = []; amounts = [] }

module _ {F : Type 0} (real : Real F) (python_str : Json F → String) (int_text : ℕ → String) where
  amount_passes :
      (caps : List (String × ℕ)) (payload : Fields F) (tool day : String) (seen : Seen F)
      → check_amount_cap real python_str int_text (only_caps caps) payload tool day seen
        ≡ returned (passed seen)
  unfolding check_amount_cap cap_of
  amount_passes caps payload tool day seen = elim (Bool-cases (str_eq tool "")) [
    | inl h ↦ rw h refl
    | inr h ↦ rw h refl
  ]

  abbrev by_count :
      Check real python_str int_text → Outcome ProjectError ((Verdict × Option String) × Seen F)
  by_count (decided result seen) = returned (result, seen)
  by_count (passed seen) = returned ((allow, none), seen)

  decide_amount-by_count :
      (caps : List (String × ℕ)) (payload : Fields F) (tool day : String)
      (check : Check real python_str int_text)
      → decide_amount real python_str int_text (only_caps caps) payload tool day check
        ≡ by_count check
  decide_amount-by_count caps payload tool day (decided result seen) = refl
  decide_amount-by_count caps payload tool day (passed seen) =
      rw (amount_passes caps payload tool day seen) refl

  decide-by_count :
      (caps : List (String × ℕ)) (payload : Fields F) (tool : String) (at : Option OccurredAt)
      (seen : Seen F)
      → decide real python_str int_text (only_caps caps) payload tool at seen
        ≡ by_count
            (check_count_cap real python_str int_text (only_caps caps) tool (day_key at) seen)
  unfolding decide
  decide-by_count caps payload tool at seen =
      decide_amount-by_count caps payload tool (day_key at)
        (check_count_cap real python_str int_text (only_caps caps) tool (day_key at) seen)

  -- One event: the verdict is the reference's, and the counters stay right.
  Decides : List (String × ℕ) → List Key → Fields F → String → Option OccurredAt → Seen F → Type 0
  Decides caps before payload tool at seen =
      (result : Verdict × Option String) × (seen' : Seen F) × (decide real python_str int_text
          (only_caps caps) payload tool at seen
        ≡ returned (result, seen'))
      × (result.0 ≡ (if exceeded caps before (tool, day_key at) then deny else allow))
      × Counts caps ((tool, day_key at) ∷ before) seen'.counts

  decide-Decides :
      (caps : List (String × ℕ)) (before : List Key) (payload : Fields F) (tool : String)
      (at : Option OccurredAt) (seen : Seen F)
      → Counts caps before seen.counts
      → Decides caps before payload tool at seen
  unfolding Decides check_count_cap Counts
  decide-Decides caps before payload tool at seen inv =
      let k : Key = (tool, day_key at) in
      let n = seen_at 0 k seen.counts + 1 in
      let counted_one : Seen F = record {
        counts = set_seen k n seen.counts;
        amounts = seen.amounts;
      } in
      let by = decide-by_count caps payload tool at seen in
      let free = Counts-same caps before seen.counts k inv in
      elim (Bool-cases (str_eq tool "")) [
        | inl unnamed ↦
            ((allow, none), seen, by ∙ rw unnamed refl, rw unnamed refl, free (rw unnamed refl))
        | inr named ↦ elim (Option-cases (cap_of tool caps)) [
          | inl uncapped ↦ (
            (allow, none),
            seen,
            by ∙ rw (named, uncapped) refl,
            rw (named, uncapped) refl,
            free (rw (named, uncapped) refl),
          )
          | inr (limit, capped) ↦
              let counted = Counts-set caps before seen.counts k inv limit named capped in
              let right = inv k limit named capped in
              elim (Bool-cases (ltb limit (occurrences k before + 1))) [
                | inl over ↦
                    let over_now : ltb limit n ≡ true = ap (λ m. ltb limit (m + 1)) right ∙ over in
                    (
                      (deny, some (count_reason real python_str int_text tool n limit)),
                      counted_one,
                      by ∙ rw (named, capped, over_now) refl,
                      rw (named, capped, over) refl,
                      counted,
                    )
                | inr under ↦
                    let under_now : ltb limit n ≡ false =
                      ap (λ m. ltb limit (m + 1)) right ∙ under in
                    (
                      (allow, none),
                      counted_one,
                      by ∙ rw (named, capped, under_now) refl,
                      rw (named, capped, under) refl,
                      counted,
                    )
              ]
        ]
      ]

  -- The tool and day of an event.
  abbrev pub key_of : SourceEvent F → Key
  key_of e = (tool_of real python_str int_text e, day_key e.occurred_at)

  capped_events :
      (caps : List (String × ℕ)) (events : List (SourceEvent F)) (before : List Key) (seen : Seen F)
      → Counts caps before seen.counts
      → any (is_unhashable real python_str int_text) events ≡ false
      → (out : List CounterfactualEvent) × (project_events real python_str int_text
            (only_caps caps)
            events
            seen
          ≡ returned out)
        × (map (λ c. c.counter_decision) out
            ≡ capped_verdicts caps before (map key_of (relevant real python_str int_text events)))
  unfolding project_events capped_verdicts Decides
  capped_events caps [] before seen inv hashable = ([], refl, refl)
  capped_events caps (e ∷ events) before seen inv hashable =
      elim (Bool-cases
        (is_relevant real python_str int_text (event_type_of real python_str int_text e))) [
          | inr other ↦
              let (out, eq, same) =
                capped_events caps events before seen inv (ground (arith, hashable)) in
              (
                out,
                project_events-skip real python_str int_text (only_caps caps) e events seen
                      (ground (arith, hashable)) other
                    ∙ eq,
                same ∙ rw other refl,
              )
          | inl here ↦
              let (result, seen', eq, verdict, counts) =
                decide-Decides caps before (payload_of real python_str int_text e)
                  (tool_of real python_str int_text e) e.occurred_at seen inv in
              let (out, rest, same) =
                capped_events caps events (key_of e ∷ before) seen' counts
                  (ground (arith, hashable)) in
              (
                counter_event real python_str int_text e result ∷ out,
                project_events-cons real python_str int_text (only_caps caps) e events seen seen'
                      result (ground (arith, hashable)) here eq
                    ∙ rw rest refl,
                rw (here, sym same, sym verdict) refl,
              )
        ]

  -- Under caps on counts alone, and if no payload has a nonempty list or dictionary for its
  -- event_type, a fresh projector does not raise, and its counter decisions are, in
  -- order, the reference's: of the invocations, grants and denials of one tool on one day, each
  -- counted as one, those behind the first `cap` are denied and all else is allowed.
  pub project-capped_verdicts :
      (tenant_id : String) (caps : List (String × ℕ)) (events : List (SourceEvent F))
      → any (is_unhashable real python_str int_text) events ≡ false
      → (report : WhatIfReport F) × (project real python_str int_text tenant_id
            (only_caps caps)
            events
            fresh
          ≡ returned report)
        × (map (λ c. c.counter_decision) report.counter_events
            ≡ capped_verdicts caps [] (map key_of (relevant real python_str int_text events)))
  unfolding project Counts seen_at
  project-capped_verdicts tenant_id caps events hashable =
      let (out, eq, same) =
        capped_events caps events [] fresh (λ k limit named capped. refl) hashable in
      (
        record {
          tenant_id = tenant_id;
          policy = only_caps caps;
          total_real_events = length events;
          counter_events = out;
        },
        rw eq refl,
        same,
      )
