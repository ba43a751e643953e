-- ===== src/Webhooks/Retries.antt =====
-- webhooks/dispatcher.py: how often a payload is posted, and what is kept of the result.
use goderash.Common.{
  ℕ, zero, suc, ◌+◌, ◌≤◌, Bool, true, false, Option, none, some, List, map, ◌≡◌, refl, ◌⊎◌, ap, sym,
  subst, arith, ltb, if◌then◌else◌, Bool-cases, inl, inr, returned, raised,
}
use goderash.Http.{Answer, status, no_response, warn_with_names, LogError}
use goderash.Webhooks.{WebhookEndpoint, try_post, attempts, fired, deliver}

-- An answer that the loop stops at.
abbrev pub is_final : Answer → Bool
is_final no_response = false
is_final (status code) = ltb code 500

abbrev pub status_of : Answer → Option ℕ
status_of no_response = none
status_of (status code) = some code

first_attempt :
    (rounds n : ℕ) (answers : ℕ → Answer) (last : Option ℕ)
    → attempts true (suc rounds) n answers last ≡ record {
      outcome =
          if is_final (answers n)
          then returned (status_of (answers n))
          else raised LogError.unexpected_keyword;
      requests = 1;
    }
unfolding attempts try_post warn_with_names
first_attempt rounds n answers last = ground arith

-- If the logger's level lets warnings through, a delivery makes exactly one request, whatever
-- `max_retries` is; and it notes the time and the status in the endpoint's row exactly if the
-- answer is a response below 500, and otherwise leaves the table as it is.
pub deliver-one_request :
    (max_retries id now : ℕ) (answers : ℕ → Answer) (rows : List WebhookEndpoint)
    → deliver true max_retries id now answers rows
      ≡ (1, if is_final (answers 0) then map (fired now (status_of (answers 0)) id) rows else rows)
unfolding deliver
deliver-one_request max_retries id now answers rows =
    rw (first_attempt max_retries 0 answers none) (elim (Bool-cases (is_final (answers 0))) [
      | inl final ↦ rw final refl
      | inr other ↦ rw other refl
    ])

-- The requests that the retries are meant to make: up to the first final answer, and at most as
-- many as there are rounds.
unfoldable intended : ℕ → ℕ → (ℕ → Answer) → ℕ
intended zero n answers = 0
intended (suc rounds) n answers =
    let rest = intended rounds (n + 1) answers in if is_final (answers n) then 1 else rest + 1

Answer-cases : (a : Answer) → (a ≡ no_response) ⊎ ((code : ℕ) × (a ≡ status code))
Answer-cases no_response = inl refl
Answer-cases (status code) = inr (code, refl)

intended-le : (rounds n : ℕ) (answers : ℕ → Answer) → intended rounds n answers ≤ rounds
unfolding intended
intended-le zero n answers = omega arith
intended-le (suc rounds) n answers = ground (arith, intended-le rounds (n + 1) answers)

attempts-intended :
    (rounds n : ℕ) (answers : ℕ → Answer) (last : Option ℕ)
    → (attempts false rounds n answers last).requests ≡ intended rounds n answers
unfolding attempts intended try_post warn_with_names
attempts-intended zero n answers last = refl
attempts-intended (suc rounds) n answers last =
    let rest =
      ap (λ m. m + 1)
        (attempts-intended rounds (n + 1) answers (try_post false (answers n) last).1) in
    elim (Answer-cases (answers n)) [
      | inl none_came ↦ rw (none_came, attempts) rest
      | inr (code, came) ↦ elim (Bool-cases (ltb code 500)) [
        | inl final ↦ rw (came, attempts, final) refl
        | inr other ↦ rw (came, attempts, other) rest
      ]
    ]

-- If the logger's level holds warnings back, a delivery makes as many requests as the retries are
-- meant to: up to the first response below 500, and at most `max_retries + 1`.
deliver-intended :
    (max_retries id now : ℕ) (answers : ℕ → Answer) (rows : List WebhookEndpoint)
    → ((deliver false max_retries id now answers rows).0 ≡ intended (suc max_retries) 0 answers)
      × ((deliver false max_retries id now answers rows).0 ≤ suc max_retries)
unfolding deliver
deliver-intended max_retries id now answers rows =
    let same = attempts-intended (suc max_retries) 0 answers none in
    (same, subst (λ m. m ≤ suc max_retries) (sym same) (intended-le (suc max_retries) 0 answers))
