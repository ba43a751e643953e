-- ===== src/Client.antt =====
-- goderash_sdk/client.py: the buffer of events, and the posts of batches with their retries. `E` is
-- the type of events. The answer of each attempt of a post is a function of the attempt's number.
-- Drain and append hold the lock, so each is one step; delays between attempts are left out, and
-- `post` and `_post_async` differ in nothing else.
pub mod Attempts
pub mod Buffer
use goderash.Common.{
  ℕ, zero, suc, ◌+◌, Bool, Option, none, some, List, [], ◌∷◌, ◌++◌, any, length, ltb, leb, ◌==◌,
  if◌then◌else◌, Outcome, returned, raised,
}
use goderash.Http.{Answer, status, no_response}

pub data PostError : Type 0 where
  transport_error : PostError
  http_status_error : ℕ → PostError

abbrev pub retry_max : ℕ
retry_max = 3

unfoldable pub is_retryable : ℕ → Bool
is_retryable code = any (λ c. c == code) (429 ∷ 500 ∷ 502 ∷ 503 ∷ 504 ∷ [])

-- How a post ends, and the requests it made.
pub record Post : Type 0 where
  pub outcome : Outcome PostError (Unit {0})
  pub requests : ℕ

abbrev pub one_more : Post → Post
one_more post = record { outcome = post.outcome; requests = post.requests + 1 }

abbrev pub ends : Outcome PostError (Unit {0}) → Post
ends outcome = record { outcome = outcome; requests = 1 }

-- What an attempt leads to: the end of the post, or another attempt with the exception kept.
pub data Verdict : Type 0 where
  stop : Outcome PostError (Unit {0}) → Verdict
  again : PostError → Verdict

unfoldable pub judge : Answer → Verdict
judge no_response = again transport_error
judge (status code) =
    if ltb code 400
    then stop (returned tt)
    else if is_retryable code
    then again (http_status_error code)
    else stop (raised (http_status_error code))

-- The attempts left to make, the number of the next one, and `last_exc`.
unfoldable pub post_attempts : ℕ → ℕ → (ℕ → Answer) → PostError → Post
post_attempts zero attempt answers last_exc = record { outcome = raised last_exc; requests = 0 }
post_attempts (suc rounds) attempt answers last_exc = elim (judge (answers attempt)) [
  | stop outcome ↦ ends outcome
  | again exc ↦ one_more (post_attempts rounds (attempt + 1) answers exc)
]

-- `range(_RETRY_MAX + 1)` has a first attempt, so the exception given here is never raised.
unfoldable pub post : (ℕ → Answer) → Post
post answers = post_attempts (retry_max + 1) 0 answers transport_error

-- The batch that a flush posted, if it had one, with the result; and the buffer.
pub record Flush (E : Type 0) : Type 0 where
  pub batch : List E
  pub posted : Option Post
  pub buffer : List E

module _ {E : Type 0} where
  -- `_drain`: the batch, and the buffer that stays.
  unfoldable pub drain : List E → List E × List E
  drain buffer = (buffer, [])

  unfoldable pub flush_sync : (ℕ → Answer) → List E → Flush E
  flush_sync answers buffer =
      let (batch, buffer') = drain buffer in
      elim batch [
        | [] ↦ record { batch = []; posted = none; buffer = buffer' }
        | e ∷ es ↦ record { batch = e ∷ es; posted = some (post answers); buffer = buffer' }
      ]

  -- `emit` of a built event.
  unfoldable pub emit : ℕ → E → (ℕ → Answer) → List E → Flush E
  emit batch_size event answers buffer =
      let appended = buffer ++ event ∷ [] in
      if leb batch_size (length appended)
      then flush_sync answers appended
      else record { batch = []; posted = none; buffer = appended }
