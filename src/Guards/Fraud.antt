-- ===== src/Guards/Fraud.antt =====
-- goderash_sdk/guards/fraud.py: the scan of the user's message. `search` is `re`'s search of a
-- compiled pattern in a text; the compiled patterns are texts and a flag here.
pub mod Rejection
use goderash.Common.{
  String, str_eq, ◌+s◌, Bool, true, false, Option, none, some, List, [], ◌∷◌, ◌++◌, map, keep,
  if◌then◌else◌,
}
use goderash.Json.{arr, texts, dict}
use goderash.Guards.{GoderashContext, GuardDecision, Call, Source, Decider, grant, deny}

pub data Verdict : Type 0 where
  allow warn reject : Verdict

pub record FraudVerdict : Type 0 where
  pub verdict : Verdict
  pub reasons : List String
  pub matched_patterns : List String

-- `re.compile(source, re.I)`, or without the flag
pub record Pattern : Type 0 where
  pub source : String
  pub ignore_case : Bool

abbrev pub re_i : String → Pattern
re_i s = record { source = s; ignore_case = true }

-- `_REJECT_PATTERNS`
abbrev pub reject_patterns : List (String × Pattern)
reject_patterns =
    (
      "prompt_injection_ignore_instructions",
      re_i "\\bignore\\s+(all\\s+)?(previous|prior|above)\\s+instructions?\\b",
    )
    ∷ (
      "prompt_injection_system_prompt_leak",
      re_i "\\b(reveal|show|print|return)\\s+(your\\s+)?system\\s+prompt\\b",
    )
    ∷ (
      "seed_phrase_share",
      re_i "\\b(seed|recovery)\\s+phrase\\b|\\b(12|24)\\s*words?\\b\\s*(?:seed|wallet)?",
    )
    ∷ (
      "otp_share",
      re_i
          "\\b(send|share|tell|give)\\s+(?:(?:me|the|your)\\s+)*(otp|one[\\- ]time|2fa|verification)\\s+code\\b",
    )
    ∷ ("pin_share", re_i "\\b(send|share|tell|give)\\s+(?:(?:me|the|your)\\s+)*(pin|password)\\b")
    ∷ (
      "api_key_share",
      re_i
          "\\b(send|share|paste)\\s+(?:(?:me|the|your)\\s+)*(api\\s+key|secret\\s+key|access\\s+token)\\b",
    )
    ∷ (
      "private_key_leak",
      record {
        source = "-----BEGIN (RSA |EC |DSA |OPENSSH |)PRIVATE KEY-----";
        ignore_case = false;
      },
    )
    ∷ []

-- `_WARN_PATTERNS`
abbrev pub warn_patterns : List (String × Pattern)
warn_patterns =
    ("urgency_pressure", re_i "\\b(urgent|right\\s+now|immediately|asap|emergency)\\b")
    ∷ (
      "authority_impersonation",
      re_i "\\b(this\\s+is\\s+(your|the)\\s+(ceo|cfo|admin|support|bank|irs|ssn))\\b",
    )
    ∷ (
      "unusual_recipient",
      re_i "\\b(?:wire|transfer|send)\\s+(?:money|funds|payment)\\s+to\\s+\\w+@\\w+",
    )
    ∷ []

pub record FraudGuard : Type 0 where
  pub extra_reject_patterns : List (String × Pattern)
  pub extra_warn_patterns : List (String × Pattern)

-- `separator.join(parts)`
abbrev pub join : String → List String → String
join separator [] = ""
join separator (s ∷ []) = s
join separator (s ∷ t ∷ parts) = s +s (separator +s join separator (t ∷ parts))

abbrev pub verdict_of : Verdict → List String → FraudVerdict
verdict_of verdict names = record { verdict = verdict; reasons = names; matched_patterns = names }

-- What the scan returns for the names that were found.
unfoldable pub verdict_for : List String → List String → FraudVerdict
verdict_for (name ∷ rejects) warns = verdict_of Verdict.reject (name ∷ rejects)
verdict_for [] (name ∷ warns) = verdict_of Verdict.warn (name ∷ warns)
verdict_for [] [] = verdict_of Verdict.allow []

-- `("fraud_guard:warn:" + ",".join(reasons)) if reasons else None`
abbrev warning : List String → Option String
warning [] = none
warning (r ∷ rs) = some ("fraud_guard:warn:" +s join "," (r ∷ rs))

abbrev pub decide : {F : Type 0} → FraudVerdict → GuardDecision F
decide v = elim v.verdict [
  | reject ↦
      deny Source.fraud_guard ("fraud_guard rejected: " +s join "," v.reasons)
        (some (dict (("matched", arr (texts v.matched_patterns)) ∷ [])))
  | _ ↦ grant Source.rule (warning v.reasons)
]

module _ (search : Pattern → String → Bool) where
  -- The names of the patterns that are found in the text, in order.
  unfoldable pub found : List (String × Pattern) → String → List String
  found patterns text = map (λ p. p.0) (keep (λ p. search p.1 text) patterns)

  unfoldable pub scan : FraudGuard → String → FraudVerdict
  scan guard text =
      if str_eq text ""
      then verdict_of Verdict.allow []
      else verdict_for (found (reject_patterns ++ guard.extra_reject_patterns) text)
          (found (warn_patterns ++ guard.extra_warn_patterns) text)

  unfoldable pub fraud_evaluate : {F S : Type 0} → FraudGuard → Decider F S
  fraud_evaluate guard ctx call s = (decide (scan guard call.user_message), s)
