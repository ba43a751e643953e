-- ===== src/Webhooks.antt =====
-- webhooks/dispatcher.py and the endpoints of models/tenant.py: which endpoints an event goes to,
-- and the delivery with its retries. `split` takes the filter of an endpoint apart: Python's
-- `split(",")` and `strip`. Times are numbers; signing and the body are left out.
pub mod Retries
use goderash.Common.{
  ℕ, zero, suc, ◌+◌, String, str_eq, Bool, true, false, ◌&&◌, ◌==◌, Option, none, some, List, [],
  ◌∷◌, any, keep, map, ltb, if◌then◌else◌, Outcome, returned, raised,
}
use goderash.Http.{Answer, status, no_response, LogError, warn_with_names}

pub record WebhookEndpoint : Type 0 where
  pub endpoint_id : ℕ
  pub tenant_id : String
  pub url : String
  pub hmac_secret : String
  pub events_filter : String
  pub is_active : Bool
  pub created_at : ℕ
  pub last_fired_at : Option ℕ
  pub last_status : Option ℕ

unfoldable pub subscribes_to : (String → List String) → String → WebhookEndpoint → Bool
subscribes_to split event_type endpoint = any (str_eq event_type) (split endpoint.events_filter)

-- The endpoints that `dispatch` makes a task for.
unfoldable pub targets :
    (String → List String) → String → String → List WebhookEndpoint → List WebhookEndpoint
targets split tenant_id event_type rows =
    keep (subscribes_to split event_type)
      (keep (λ r. str_eq r.tenant_id tenant_id && r.is_active) rows)

-- How the body of the `try` ends: it leaves the loop, it goes on to the next attempt, or it raises
-- (httpx's exception, or what the call of the logger raises).
pub data Attempt : Type 0 where
  break continue raises : Attempt

abbrev pub warns : Bool → Attempt
warns enabled = elim (warn_with_names enabled) [ returned _ ↦ continue | raised _ ↦ raises ]

-- The body of the `try`, and `last_status` after it.
unfoldable pub try_post : Bool → Answer → Option ℕ → Attempt × Option ℕ
unfolding warn_with_names
try_post enabled no_response last_status = (raises, last_status)
try_post enabled (status code) last_status =
    (if ltb code 500 then break else warns enabled, some code)

-- How the loop ends, and the requests it made.
pub record Delivery : Type 0 where
  pub outcome : Outcome LogError (Option ℕ)
  pub requests : ℕ

abbrev pub one_more : Delivery → Delivery
one_more d = record { outcome = d.outcome; requests = d.requests + 1 }

-- The loop of `_deliver`, with the handler of the `try`: the attempts left, the number of the next
-- one, and `last_status`.
unfoldable pub attempts : Bool → ℕ → ℕ → (ℕ → Answer) → Option ℕ → Delivery
unfolding warn_with_names
attempts enabled zero attempt answers last_status = record {
  outcome = returned last_status;
  requests = 0;
}
attempts enabled (suc rounds) attempt answers last_status =
    let (result, last) = try_post enabled (answers attempt) last_status in
    let rest = one_more (attempts enabled rounds (attempt + 1) answers last) in
    elim result [
      | break ↦ record { outcome = returned last; requests = 1 }
      | continue ↦ rest
      | raises ↦ elim (warn_with_names enabled) [
        | returned _ ↦ rest
        | raised e ↦ record { outcome = raised e; requests = 1 }
      ]
    ]

-- The endpoint's row afterwards.
abbrev pub fired : ℕ → Option ℕ → ℕ → WebhookEndpoint → WebhookEndpoint
fired now last_status id r =
    if r.endpoint_id == id
    then record r { last_fired_at = some now; last_status = last_status }
    else r

-- `_deliver`: the requests made, and the table afterwards. The update of the row succeeds here.
unfoldable pub deliver :
    Bool → ℕ → ℕ → ℕ → (ℕ → Answer) → List WebhookEndpoint → ℕ × List WebhookEndpoint
deliver enabled max_retries id now answers rows =
    let d = attempts enabled (suc max_retries) 0 answers none in
    (
      d.requests,
      elim d.outcome [
        | returned last_status ↦ map (fired now last_status id) rows
        | raised _ ↦ rows
      ],
    )
