-- ===== src/Guards/Fraud/Rejection.antt =====
-- goderash_sdk/guards/fraud.py: which messages are denied, and what the chain keeps of a warning.
use goderash.Common.{
  String, str_eq, Bool, true, false, not, ◌&&◌, ◌||◌, ◌≡◌, refl, ap, ◌∙◌, none, List, [], ◌∷◌, ◌++◌,
  any, arith, if◌then◌else◌, Bool-cases, inl, inr,
}
use goderash.Events.{DenySource, permission_denied}
use goderash.Guards.{
  GoderashContext, Call, Source, Send, or_text, as_guard, grant, granted_event, announce, refuse,
  denied_event, deny_source, evaluate,
}
use goderash.Guards.Fraud.{
  Verdict, FraudVerdict, Pattern, FraudGuard, reject_patterns, warn_patterns, found, verdict_for,
  scan, decide, fraud_evaluate,
}

module _ (search : Pattern → String → Bool) where
  -- Some pattern of the list is found in the text.
  abbrev pub matches : List (String × Pattern) → String → Bool
  matches patterns text = any (λ p. search p.1 text) patterns

  is_empty : List String → Bool
  is_empty [] = true
  is_empty (_ ∷ _) = false

  is_empty-found :
      (patterns : List (String × Pattern)) (text : String)
      → is_empty (found search patterns text) ≡ not (matches patterns text)
  unfolding found is_empty
  is_empty-found [] text = refl
  is_empty-found (p ∷ patterns) text = ground (arith, is_empty-found patterns text)

  any-append :
      (ps qs : List (String × Pattern)) (text : String)
      → matches (ps ++ qs) text ≡ (matches ps text || matches qs text)
  any-append [] qs text = refl
  any-append (p ∷ ps) qs text = ground (arith, any-append ps qs text)

  abbrev pub rejected : FraudGuard → String → Bool
  rejected guard text =
      not (str_eq text "")
      && (matches reject_patterns text || matches guard.extra_reject_patterns text)

  allow-verdict_for :
      (F : Type 0) (rejects warns : List String)
      → (decide {F = F} (verdict_for rejects warns)).allow ≡ is_empty rejects
  unfolding verdict_for is_empty
  allow-verdict_for F (r ∷ rejects) warns = refl
  allow-verdict_for F [] (w ∷ warns) = refl
  allow-verdict_for F [] [] = refl

  allow-scan :
      (F : Type 0) (guard : FraudGuard) (text : String)
      → (decide {F = F} (scan search guard text)).allow ≡ not (rejected guard text)
  unfolding scan
  allow-scan F guard text =
      let rejects = reject_patterns ++ guard.extra_reject_patterns in
      let warns = warn_patterns ++ guard.extra_warn_patterns in
      elim (Bool-cases (str_eq text "")) [
        | inl empty ↦ rw empty refl
        | inr full ↦ rw full (
            allow-verdict_for F (found search rejects text) (found search warns text)
            ∙ is_empty-found rejects text
            ∙ ap not (any-append reject_patterns guard.extra_reject_patterns text))
      ]

  module _ {F S : Type 0} (send : Send F) (guard : FraudGuard) (ctx : GoderashContext)
      (call : Call F) (s : S) where
    -- A denial of this guard is announced under its own source.
    refuse-rejected :
        (verdict : Verdict) (reasons matched : List String)
        → let v : FraudVerdict = record {
          verdict = verdict;
          reasons = reasons;
          matched_patterns = matched;
        } in
          (decide {F = F} v).allow ≡ false
          → refuse send true call (decide v) s
            ≡ announce send
                (permission_denied (record {
                  tool_name = call.tool_name;
                  source = DenySource.fraud_guard;
                  reason = or_text (decide {F = F} v).reason "denied";
                }))
                (decide v)
                s
    unfolding refuse denied_event deny_source
    refuse-rejected Verdict.allow reasons matched denies = cc
    refuse-rejected Verdict.warn reasons matched denies = cc
    refuse-rejected Verdict.reject reasons matched denies = refl

    -- The guard denies a call exactly if the user's message is not empty and one of the built-in or
    -- of the extra reject patterns is found in it; the warn patterns have no say. It leaves the
    -- state as it is. And a chain of this guard alone then emits, for every message that it lets
    -- pass, the same event, with the reason "all guards passed", whatever it has warned of.
    pub fraud_evaluate-rejected :
        ((fraud_evaluate search {F = F} guard ctx call s).0.allow
          ≡ not (rejected guard call.user_message))
        × ((fraud_evaluate search {F = F} guard ctx call s).1 ≡ s)
        × (evaluate send (as_guard (fraud_evaluate search guard) ∷ []) true ctx call s ≡ (
            if rejected guard call.user_message
            then announce send
                (permission_denied (record {
                  tool_name = call.tool_name;
                  source = DenySource.fraud_guard;
                  reason =
                      or_text
                        (decide {F = F} (scan search guard call.user_message)).reason
                        "denied";
                }))
                (decide (scan search guard call.user_message))
                s
            else announce send (granted_event call) (grant Source.rule none) s))
    unfolding fraud_evaluate evaluate
    fraud_evaluate-rejected =
        let verdict = scan search guard call.user_message in
        let allowed = allow-scan F guard call.user_message in
        (
          allowed,
          refl,
          elim (Bool-cases (rejected guard call.user_message)) [
            | inl out ↦
                rw (allowed, out)
                  (refuse-rejected verdict.verdict verdict.reasons verdict.matched_patterns
                    (allowed ∙ ap not out))
            | inr fine ↦ rw (allowed, fine) refl
          ],
        )
