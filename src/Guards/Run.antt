-- ===== src/Guards/Run.antt =====
-- goderash_sdk/guards/chain.py: which guards a chain runs, what it decides and what it emits.
use goderash.Common.{
  Bool, true, false, ◌≡◌, refl, sym, ap, subst, if◌then◌else◌, ◌⊎◌, inl, inr, none, List, [], ◌∷◌,
  ◌++◌, returned, raised, Outcome-cases, Bool-cases,
}
use goderash.Events.{DenySource, GoderashEventPayload, permission_denied}
use goderash.Guards.{
  GoderashContext, Call, Source, Guard, GuardDecision, GuardError, validation, ChainResult, Send,
  or_text, grant, granted_event, deny_source, denied_event, announce, refuse, evaluate,
}

-- The literal of the event for a source; "bypass" has none.
pub data IsLiteral : Source → DenySource → Type 0 where
  by_rule : IsLiteral Source.rule DenySource.rule
  by_user : IsLiteral Source.user DenySource.user
  by_hook : IsLiteral Source.hook DenySource.hook
  by_classifier : IsLiteral Source.classifier DenySource.classifier
  by_fraud_guard : IsLiteral Source.fraud_guard DenySource.fraud_guard
  by_velocity : IsLiteral Source.velocity DenySource.velocity
  by_budget : IsLiteral Source.budget DenySource.budget

deny_source-cases :
    (s : Source)
    → ((source : DenySource) × (deny_source s ≡ returned source) × IsLiteral s source)
      ⊎ ((s ≡ Source.bypass) × (deny_source s ≡ raised validation))
unfolding deny_source
deny_source-cases Source.rule = inl (DenySource.rule, refl, by_rule)
deny_source-cases Source.user = inl (DenySource.user, refl, by_user)
deny_source-cases Source.hook = inl (DenySource.hook, refl, by_hook)
deny_source-cases Source.classifier = inl (DenySource.classifier, refl, by_classifier)
deny_source-cases Source.fraud_guard = inl (DenySource.fraud_guard, refl, by_fraud_guard)
deny_source-cases Source.velocity = inl (DenySource.velocity, refl, by_velocity)
deny_source-cases Source.budget = inl (DenySource.budget, refl, by_budget)
deny_source-cases Source.bypass = inr (refl, refl)

module _ {F S : Type 0} (send : Send F) (ctx : GoderashContext) (call : Call F) where
  -- All guards of the list let the call pass, one after another.
  pub data Passes : List (Guard F S) → S → S → Type 0 where
    all_passed : {s : S} → Passes [] s s
    passes :
        {guards : List (Guard F S)} {s s' : S} (guard : Guard F S) (decision : GuardDecision F)
        → (guard ctx call s).0 ≡ returned decision
        → decision.allow ≡ true
        → Passes guards (guard ctx call s).1 s'
        → Passes (guard ∷ guards) s s'

  -- The event is emitted, and the result is the decision unless the emission raises.
  pub data Announces (event : GoderashEventPayload F) (decision : GuardDecision F)
      (r : ChainResult F S) : Type 0 where
    sent :
        r.emitted ≡ event ∷ []
        → send event ≡ returned tt
        → r.decision ≡ returned decision
        → Announces event decision r
    unsent :
        (e : GuardError)
        → r.emitted ≡ event ∷ []
        → send event ≡ raised e
        → r.decision ≡ raised e
        → Announces event decision r

  announce-Announces :
      (event : GoderashEventPayload F) (decision : GuardDecision F) (s : S)
      → Announces event decision (announce send event decision s)
  unfolding announce
  announce-Announces event decision s = elim (Outcome-cases (send event)) [
    | inl (done, ended) ↦ sent refl (rw ended refl) (rw ended refl)
    | inr (e, failed) ↦ unsent e refl failed (rw failed refl)
  ]

  -- What a chain makes of a denial.
  pub data Refuses (decision : GuardDecision F) : Bool → ChainResult F S → Type 0 where
    silent :
        {r : ChainResult F S}
        → r.emitted ≡ []
        → r.decision ≡ returned decision
        → Refuses decision false r
    named :
        {r : ChainResult F S} (source : DenySource)
        → IsLiteral decision.source source
        → Announces
            (permission_denied (record {
              tool_name = call.tool_name;
              source = source;
              reason = or_text decision.reason "denied";
            }))
            decision
            r
        → Refuses decision true r
    nameless :
        {r : ChainResult F S}
        → decision.source ≡ Source.bypass
        → r.emitted ≡ []
        → r.decision ≡ raised validation
        → Refuses decision true r

  refuse-Refuses :
      (emit : Bool) (decision : GuardDecision F) (s : S)
      → Refuses decision emit (refuse send emit call decision s)
  unfolding refuse denied_event
  refuse-Refuses false decision s = silent refl refl
  refuse-Refuses true decision s = elim (deny_source-cases decision.source) [
    | inl (source, is, literal) ↦
        rw (is, refuse, denied_event) (named source literal (announce-Announces _ decision s))
    | inr (bypass, refused) ↦ rw (refused, refuse, denied_event) (nameless bypass refl refl)
  ]

  refuse-state :
      (emit : Bool) (decision : GuardDecision F) (s : S)
      → (refuse send emit call decision s).state ≡ s
  unfolding refuse denied_event announce
  refuse-state false decision s = refl
  refuse-state true decision s = elim (Outcome-cases (deny_source decision.source)) [
    | inl (source, is) ↦ rw (is, refuse, denied_event) refl
    | inr (e, refused) ↦ rw (refused, refuse, denied_event) refl
  ]

  -- How a run of a chain ends.
  pub data Ends (guards : List (Guard F S)) (emit : Bool) (s : S) (r : ChainResult F S)
      : Type 0 where
    granted_silently :
        emit ≡ false
        → Passes guards s r.state
        → r.emitted ≡ []
        → r.decision ≡ returned (grant Source.rule none)
        → Ends guards emit s r
    granted :
        emit ≡ true
        → Passes guards s r.state
        → Announces (granted_event call) (grant Source.rule none) r
        → Ends guards emit s r
    denied :
        (before : List (Guard F S)) (guard : Guard F S) (after : List (Guard F S)) (s₁ : S)
        (decision : GuardDecision F)
        → guards ≡ before ++ guard ∷ after
        → Passes before s s₁
        → (guard ctx call s₁).0 ≡ returned decision
        → (guard ctx call s₁).1 ≡ r.state
        → decision.allow ≡ false
        → Refuses decision emit r
        → Ends guards emit s r
    failed :
        (before : List (Guard F S)) (guard : Guard F S) (after : List (Guard F S)) (s₁ : S)
        (e : GuardError)
        → guards ≡ before ++ guard ∷ after
        → Passes before s s₁
        → (guard ctx call s₁).0 ≡ raised e
        → (guard ctx call s₁).1 ≡ r.state
        → r.emitted ≡ []
        → r.decision ≡ raised e
        → Ends guards emit s r

  Ends-cons :
      (guard : Guard F S) (guards : List (Guard F S)) (emit : Bool) (s : S)
      (decision : GuardDecision F) (r : ChainResult F S)
      → (guard ctx call s).0 ≡ returned decision
      → decision.allow ≡ true
      → Ends guards emit (guard ctx call s).1 r
      → Ends (guard ∷ guards) emit s r
  Ends-cons guard guards emit s decision r decides allowed (granted_silently e run none_sent eq) =
      granted_silently e (passes guard decision decides allowed run) none_sent eq
  Ends-cons guard guards emit s decision r decides allowed (granted e run ends) =
      granted e (passes guard decision decides allowed run) ends
  Ends-cons guard guards emit s decision r decides allowed
        (denied before g after s₁ d split run stops state no_allow refuses) =
      denied (guard ∷ before) g after s₁ d (ap (λ gs. guard ∷ gs) split)
        (passes guard decision decides allowed run) stops state no_allow refuses
  Ends-cons guard guards emit s decision r decides allowed
        (failed before g after s₁ e split run fails state none_sent eq) =
      failed (guard ∷ before) g after s₁ e (ap (λ gs. guard ∷ gs) split)
        (passes guard decision decides allowed run) fails state none_sent eq

  -- A run of the chain ends in one of three ways. All guards let the call pass, each run once on the
  -- state that the one before it left; then the chain grants with source "rule", behind one event, if
  -- it is to emit, with the reason "all guards passed". Or there is a first guard that does not let
  -- the call pass: it denies, and then its decision is the result, behind one event, if the chain is
  -- to emit, that names the tool, the decision's source and its reason, or "denied" without one; but
  -- the source "bypass" raises a validation error in place of the event. Or that guard raises, and
  -- its exception is the result, with no event. In both cases the guards behind it do not run, and
  -- the state is the one that it left. An event whose emission raises is emitted all the same, and
  -- that exception is the result.
  pub evaluate-Passes :
      (guards : List (Guard F S)) (emit : Bool) (s : S)
      → Ends guards emit s (evaluate send guards emit ctx call s)
  unfolding evaluate announce
  evaluate-Passes [] false s = granted_silently refl all_passed refl refl
  evaluate-Passes [] true s =
      granted refl all_passed (announce-Announces (granted_event call) (grant Source.rule none) s)
  evaluate-Passes (guard ∷ guards) emit s =
      let s' = (guard ctx call s).1 in
      elim (Outcome-cases (guard ctx call s).0) [
        | inr (e, fails) ↦
            rw fails (failed [] guard guards s e refl all_passed fails refl refl refl)
        | inl (decision, decides) ↦
            let rest = evaluate send guards emit ctx call s' in
            let refused = refuse send emit call decision s' in
            let Goal : Bool → Type 0 =
              λ b. Ends (guard ∷ guards) emit s (if b then rest else refused) in
            rw decides (elim (Bool-cases decision.allow) [
              | inl allowed ↦ subst Goal (sym allowed) (
                  Ends-cons guard guards emit s decision rest decides allowed
                    (evaluate-Passes guards emit s'))
              | inr stops ↦ subst Goal (sym stops) (
                  denied [] guard guards s decision refl all_passed decides
                    (sym (refuse-state emit decision s')) stops (refuse-Refuses emit decision s'))
            ])
      ]
