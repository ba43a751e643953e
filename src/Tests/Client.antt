-- ===== src/Tests/Client.antt =====
-- The client, webhooks and usage: runs, and the theorems about them.
use goderash.Common.{
  ℕ, zero, suc, ◌+◌, ◌<◌, String, ◌≡◌, ◌⊎◌, refl, true, false, none, some, List, [], ◌∷◌, ◌++◌,
  length, Outcome, returned, raised, arith, if◌then◌else◌, map,
}
use goderash.Http.{Answer, status, no_response, LogError}
use goderash.Client.{
  PostError, transport_error, http_status_error, judge, is_retryable, post, post_attempts, emit,
  flush_sync, drain,
}
use goderash.Client.Attempts.{Settles, Retries, post-Retries}
use goderash.Client.Buffer.{emit_all, concat, emit_all-concat}
use goderash.Webhooks.{WebhookEndpoint, deliver, attempts, try_post, fired, targets, subscribes_to}
use goderash.Webhooks.Retries.{is_final, status_of, deliver-one_request}
use goderash.Billing.{counter_at, get_usage, is_quota_exceeded}
use goderash.Billing.Usage.{increment_all, get_usage-increment_all}
use goderash.Int.{pos, negsuc}

-- Two failures that are tried again, then success.
abbrev recovers : ℕ → Answer
recovers zero = no_response
recovers (suc zero) = status 503
recovers (suc (suc n)) = status 200

abbrev down : ℕ → Answer
down n = status 500

post-recovers : post recovers ≡ record { outcome = returned tt; requests = 3 }
unfolding post post_attempts judge is_retryable
post-recovers = refl

post-down : post down ≡ record { outcome = raised (http_status_error 500); requests = 4 }
unfolding post post_attempts judge is_retryable
post-down = refl

post-Retries_example :
    ((k : ℕ) × (exc : PostError) × (o : Outcome PostError (Unit {0})) × (k < 4)
      × Retries recovers 0 transport_error k exc
      × Settles (recovers k) o
      × (post recovers ≡ record { outcome = o; requests = k + 1 }))
    ⊎ ((exc : PostError) × Retries recovers 0 transport_error 4 exc
        × (post recovers ≡ record { outcome = raised exc; requests = 4 }))
post-Retries_example = post-Retries recovers

-- Three events in batches of two, the first of which the server refuses.
abbrev calls : List (ℕ × (ℕ → Answer))
calls = (1, recovers) ∷ (2, down) ∷ (3, recovers) ∷ []

emit_three : emit_all 2 calls [] ≡ ([] ∷ (1 ∷ 2 ∷ []) ∷ [] ∷ [], 3 ∷ [])
unfolding emit_all emit flush_sync drain
emit_three = refl

emit_all-concat_example :
    (concat 2 (emit_all 2 calls []).0 ++ (emit_all 2 calls []).1 ≡ 1 ∷ 2 ∷ 3 ∷ [])
    × (length (emit_all 2 calls []).1 < 2)
emit_all-concat_example = emit_all-concat 2 calls [] (omega arith) (omega arith)

abbrev endpoint : WebhookEndpoint
endpoint = record {
  endpoint_id = 7;
  tenant_id = "acme";
  url = "https://hooks.acme.test";
  hmac_secret = "s";
  events_filter = "chain.broken,quota.warning";
  is_active = true;
  created_at = 5;
  last_fired_at = none;
  last_status = none;
}

abbrev split : String → List String
split filter = "chain.broken" ∷ "quota.warning" ∷ []

targets_warning : targets split "acme" "quota.warning" (endpoint ∷ []) ≡ endpoint ∷ []
unfolding targets subscribes_to
targets_warning = refl

-- The same endpoint recovers at the third attempt, which only a silent logger lets happen.
deliver_loud : (deliver true 3 7 50 recovers (endpoint ∷ [])).0 ≡ 1
unfolding deliver attempts try_post goderash.Http.warn_with_names
deliver_loud = refl

deliver_silent : (deliver false 3 7 50 recovers (endpoint ∷ [])).0 ≡ 3
unfolding deliver attempts try_post goderash.Http.warn_with_names
deliver_silent = refl

deliver-one_request_example : deliver true 3 7 50 recovers (endpoint ∷ []) ≡ (
  1,
  if is_final (recovers 0)
      then map (fired 50 (status_of (recovers 0)) 7) (endpoint ∷ [])
      else endpoint ∷ [],
)
deliver-one_request_example = deliver-one_request 3 7 50 recovers (endpoint ∷ [])

-- A batch of 50 events that is sent twice, and one of another tenant.
abbrev batches : List (String × ℕ)
batches = ("acme", 50) ∷ ("globex", 8) ∷ ("acme", 50) ∷ []

quota_reached : is_quota_exceeded 10000 (pos 10000) ≡ true
unfolding is_quota_exceeded
quota_reached = refl

quota_unlimited : is_quota_exceeded 10000 (negsuc 0) ≡ false
unfolding is_quota_exceeded
quota_unlimited = refl

get_usage-increment_all_example :
    get_usage {F = ℕ} true "acme" "acme" 0
      (some (increment_all true batches (record { reachable = true; counters = ("acme", 3) ∷ [] })))
      []
    ≡ returned 103
unfolding counter_at
get_usage-increment_all_example =
    get_usage-increment_all true "acme" "acme" 0 batches (("acme", 3) ∷ []) []
