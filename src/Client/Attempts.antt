-- ===== src/Client/Attempts.antt =====
-- goderash_sdk/client.py: which attempts a post makes, and how it ends.
use goderash.Common.{
  ℕ, zero, suc, ◌+◌, ◌<◌, ◌≡◌, refl, ◌⊎◌, inl, inr, raised, Outcome, arith, subst, ◌∙◌, ap, sym,
  true, ◌≤◌, ◌≢◌, returned, ltb, Bool-cases,
}
use goderash.Http.{Answer, status, no_response}
use goderash.Client.{
  PostError, transport_error, http_status_error, is_retryable, one_more, stop, again, judge,
  post_attempts, post,
}

-- An answer after which another attempt is made: none, or one of five statuses.
pub data GoesOn : Answer → PostError → Type 0 where
  lost : GoesOn no_response transport_error
  too_many : GoesOn (status 429) (http_status_error 429)
  failed : GoesOn (status 500) (http_status_error 500)
  bad_gateway : GoesOn (status 502) (http_status_error 502)
  unavailable : GoesOn (status 503) (http_status_error 503)
  timed_out : GoesOn (status 504) (http_status_error 504)

-- An answer that ends the post: a status below 400, or any other than those five.
pub data Settles : Answer → Outcome PostError (Unit {0}) → Type 0 where
  accepted : (code : ℕ) → code < 400 → Settles (status code) (returned tt)
  refused :
      (code : ℕ)
      → 400 ≤ code
      → code ≢ 429
      → code ≢ 500
      → code ≢ 502
      → code ≢ 503
      → code ≢ 504
      → Settles (status code) (raised (http_status_error code))

-- Attempts from `first` on, up to and without `last`, that all lead to another one; `before` and
-- `after` are the exceptions kept then.
pub data Retries (answers : ℕ → Answer) : ℕ → PostError → ℕ → PostError → Type 0 where
  none_made : {n : ℕ} {exc : PostError} → Retries answers n exc n exc
  retried :
      {first last : ℕ} {before after : PostError} (exc : PostError)
      → GoesOn (answers first) exc
      → Retries answers (first + 1) exc last after
      → Retries answers first before last after

retryable-GoesOn :
    (code : ℕ) → is_retryable code ≡ true → GoesOn (status code) (http_status_error code)
unfolding is_retryable
retryable-GoesOn code h = elim (five code h) [
  | inl e ↦ subst (λ c. GoesOn (status c) (http_status_error c)) (sym e) too_many
  | inr (inl e) ↦ subst (λ c. GoesOn (status c) (http_status_error c)) (sym e) failed
  | inr (inr (inl e)) ↦ subst (λ c. GoesOn (status c) (http_status_error c)) (sym e) bad_gateway
  | inr (inr (inr (inl e))) ↦
      subst (λ c. GoesOn (status c) (http_status_error c)) (sym e) unavailable
  | inr (inr (inr (inr e))) ↦ subst (λ c. GoesOn (status c) (http_status_error c)) (sym e) timed_out
]
  where
    five :
        (code : ℕ)
        → is_retryable code ≡ true
        → (code ≡ 429) ⊎ (code ≡ 500) ⊎ (code ≡ 502) ⊎ (code ≡ 503) ⊎ (code ≡ 504)
    five code h = ground (arith, h)

judge-cases :
    (a : Answer)
    → ((o : Outcome PostError (Unit {0})) × (judge a ≡ stop o) × Settles a o)
      ⊎ ((exc : PostError) × (judge a ≡ again exc) × GoesOn a exc)
unfolding judge is_retryable
judge-cases no_response = inr (transport_error, refl, lost)
judge-cases (status code) = elim (Bool-cases (ltb code 400)) [
  | inl below ↦ inl (returned tt, rw below refl, accepted code (ground (arith, below)))
  | inr above ↦ elim (Bool-cases (is_retryable code)) [
    | inl busy ↦ inr (http_status_error code, rw (above, busy) refl, retryable-GoesOn code busy)
    | inr final ↦ inl (
      raised (http_status_error code),
      rw (above, final) refl,
      refused code (ground (arith, above)) (λ e. absurd (ground (arith, final, e)))
          (λ e. absurd (ground (arith, final, e))) (λ e. absurd (ground (arith, final, e)))
          (λ e. absurd (ground (arith, final, e))) (λ e. absurd (ground (arith, final, e))),
    )
  ]
]

abbrev Ends : ℕ → ℕ → (ℕ → Answer) → PostError → Type 0
Ends rounds n answers exc =
    ((k : ℕ) × (exc' : PostError) × (o : Outcome PostError (Unit {0})) × (k < rounds)
      × Retries answers n exc (n + k) exc'
      × Settles (answers (n + k)) o
      × (post_attempts rounds n answers exc ≡ record { outcome = o; requests = k + 1 }))
    ⊎ ((exc' : PostError) × Retries answers n exc (n + rounds) exc'
        × (post_attempts rounds n answers exc
            ≡ record { outcome = raised exc'; requests = rounds }))

post_attempts-Ends :
    (rounds n : ℕ) (answers : ℕ → Answer) (exc : PostError) → Ends rounds n answers exc
unfolding post_attempts
post_attempts-Ends zero n answers exc =
    inr (exc, subst (λ m. Retries answers n exc m exc) (omega arith) none_made, refl)
post_attempts-Ends (suc rounds) n answers exc = elim (judge-cases (answers n)) [
  | inl (o, stops, settles) ↦
      let here : n ≡ n + 0 = omega arith in
      inl (
        0,
        exc,
        o,
        omega arith,
        subst (λ m. Retries answers n exc m exc) here none_made,
        subst (λ m. Settles (answers m) o) here settles,
        rw (stops, post_attempts) refl,
      )
  | inr (exc₁, goes_on, more) ↦ elim (post_attempts-Ends rounds (n + 1) answers exc₁) [
    | inl (k, exc', o, lt, tries, settles, eq) ↦
        let there : n + 1 + k ≡ n + suc k = omega arith in
        inl (
          suc k,
          exc',
          o,
          omega arith,
          retried exc₁ more (subst (λ m. Retries answers (n + 1) exc₁ m exc') there tries),
          subst (λ m. Settles (answers m) o) there settles,
          rw (goes_on, post_attempts)
              (ap one_more eq ∙ ap (λ m. record { outcome = o; requests = m }) (omega arith)),
        )
    | inr (exc', tries, eq) ↦ inr (
      exc',
      retried exc₁ more (subst (λ m. Retries answers (n + 1) exc₁ m exc') (omega arith) tries),
      rw (goes_on, post_attempts)
          (ap one_more eq ∙ ap (λ m. record { outcome = raised exc'; requests = m }) (omega arith)),
    )
  ]
]

-- A post ends in one of two ways. At some attempt k < 4, behind k that lead to another one (a
-- transport error, or a status of 429, 500, 502, 503 or 504), it gets an answer that ends it, and
-- has made k + 1 requests: below 400 it returns, and with any other status it raises that status.
-- Or all 4 attempts lead to another one; then it raises the last of their exceptions.
pub post-Retries :
    (answers : ℕ → Answer)
    → ((k : ℕ) × (exc : PostError) × (o : Outcome PostError (Unit {0})) × (k < 4)
        × Retries answers 0 transport_error k exc
        × Settles (answers k) o
        × (post answers ≡ record { outcome = o; requests = k + 1 }))
      ⊎ ((exc : PostError) × Retries answers 0 transport_error 4 exc
          × (post answers ≡ record { outcome = raised exc; requests = 4 }))
unfolding post
post-Retries answers = elim (post_attempts-Ends 4 0 answers transport_error) [
  | inl (k, exc, o, lt, tries, settles, eq) ↦
      let here : 0 + k ≡ k = omega arith in
      inl (
        k,
        exc,
        o,
        lt,
        subst (λ m. Retries answers 0 transport_error m exc) here tries,
        subst (λ m. Settles (answers m) o) here settles,
        eq,
      )
  | inr (exc, tries, eq) ↦ inr (exc, tries, eq)
]
