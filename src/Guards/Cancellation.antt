-- ===== src/Guards/Cancellation.antt =====
-- goderash_sdk/guards/cancellation.py: the cooperative cancellation token.
use goderash.Common.{
  String, Bool, true, false, Option, none, List, [], ◌∷◌, ◌≡◌, refl, Outcome, returned, raised,
  if◌then◌else◌,
}
use goderash.Guards.{or_text}

pub record CancellationToken : Type 0 where
  pub event_set : Bool
  pub reason : Option String

-- The message that the exception carries.
pub data CancelledError : Type 0 where
  cancelled : String → CancelledError

abbrev pub fresh_token : CancellationToken
fresh_token = record { event_set = false; reason = none }

unfoldable pub cancel : Option String → CancellationToken → CancellationToken
cancel reason token = record { event_set = true; reason = reason }

unfoldable pub is_cancelled : CancellationToken → Bool
is_cancelled token = token.event_set

unfoldable pub raise_if_cancelled : CancellationToken → Outcome CancelledError (Unit {0})
raise_if_cancelled token =
    if token.event_set then raised (cancelled (or_text token.reason "cancelled")) else returned tt

-- The calls of `cancel`, oldest first.
pub cancel_all : List (Option String) → CancellationToken → CancellationToken
cancel_all [] token = token
cancel_all (reason ∷ reasons) token = cancel_all reasons (cancel reason token)

abbrev pub last_reason : Option String → List (Option String) → Option String
last_reason r [] = r
last_reason r (s ∷ reasons) = last_reason s reasons

-- After any calls of `cancel` on a fresh token, none of them or more: a check raises exactly if
-- there was a call, and then with the reason of the last call, or "cancelled" where that is None or
-- empty.
pub raise_if_cancelled-cancel_all :
    (reasons : List (Option String))
    → raise_if_cancelled (cancel_all reasons fresh_token) ≡ elim reasons [
      | [] ↦ returned tt
      | r ∷ rest ↦ raised (cancelled (or_text (last_reason r rest) "cancelled"))
    ]
unfolding raise_if_cancelled cancel_all cancel
raise_if_cancelled-cancel_all [] = refl
raise_if_cancelled-cancel_all (r ∷ rest) = go r rest
  where
    go :
        (r : Option String) (rest : List (Option String))
        → raise_if_cancelled (cancel_all rest (record { event_set = true; reason = r }))
          ≡ raised (cancelled (or_text (last_reason r rest) "cancelled"))
    go r [] = refl
    go r (s ∷ rest) = go s rest
