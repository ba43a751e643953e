-- ===== src/Http.antt =====
-- What a request over HTTP meets, for the code that posts with httpx; and Python's `logging`, for
-- the code that hands it names it does not take.
use goderash.Common.{ℕ, Bool, Outcome, returned, raised, if◌then◌else◌}

-- A response, by its status, or a transport error or timeout.
pub data Answer : Type 0 where
  status : ℕ → Answer
  no_response : Answer

pub data LogError : Type 0 where
  unexpected_keyword : LogError

-- `log.warning(message, name=…)` of a standard logger: `Logger._log` takes no such keyword, so the
-- call raises if the level is enabled, and does nothing if it is not.
unfoldable pub warn_with_names : Bool → Outcome LogError (Unit {0})
warn_with_names enabled = if enabled then raised LogError.unexpected_keyword else returned tt
