-- ===== src/Wrap/Brackets.antt =====
-- goderash_sdk/wrap: the events around a wrapped call, and how it ends.
use goderash.Common.{
  ℕ, List, [], ◌∷◌, ◌++◌, append_assoc, ◌≡◌, refl, sym, ap, ◌∙◌, ◌⊎◌, inl, inr, Outcome-cases,
  Option, none, some, Outcome, returned, raised,
}
use goderash.Http.{Answer}
use goderash.Client.{PostError, Post, emit}
use goderash.Client.Buffer.{emit-appends}
use goderash.Wrap.{Sdk, Run, Runtime, PyError, and_then, emit_to, outcome_of}

-- The events emitted so far, in order.
abbrev pub emitted : {E : Type 0} → Sdk E → List E
emitted sdk = sdk.sent ++ sdk.buffer

-- The post that the emission of an event makes, if it makes one.
abbrev pub post_of : {E : Type 0} → ℕ → (ℕ → ℕ → Answer) → E → Sdk E → Option Post
post_of batch_size network event sdk = (emit batch_size event (network sdk.posts) sdk.buffer).posted

-- The emission makes a post, and the post ends with the exception.
abbrev pub PostFails : {E : Type 0} → ℕ → (ℕ → ℕ → Answer) → E → Sdk E → PostError → Type 0
PostFails batch_size network event sdk exc =
    (requests : ℕ) × (post_of batch_size network event sdk
      ≡ some (record { outcome = raised exc; requests = requests }))

-- It makes none, or one that returns.
abbrev pub PostReturns : {E : Type 0} → ℕ → (ℕ → ℕ → Answer) → E → Sdk E → Type 0
PostReturns batch_size network event sdk =
    (post_of batch_size network event sdk ≡ none)
    ⊎ ((requests : ℕ) × (post_of batch_size network event sdk
          ≡ some (record { outcome = returned tt; requests = requests })))

module _ {V E : Type 0} (lib : Runtime V) (batch_size : ℕ) (network : ℕ → ℕ → Answer) where
  -- What a call with the outcome `final` comes to, with the event to emit behind it, if there is
  -- one: the failure of the post that the event makes takes the outcome's place.
  abbrev pub Closes : Option E → Outcome PyError V → Sdk E → Run E V → Type 0
  Closes none final left end = end ≡ (final, left)
  Closes (some event) final left end =
      (emitted end.1 ≡ emitted left ++ event ∷ [])
      × ((PostReturns batch_size network event left × (end.0 ≡ final))
          ⊎ ((exc : PostError) × PostFails batch_size network event left exc
              × (end.0 ≡ raised (lib.http_error exc))))

  -- How a wrapped call goes. The opening event is emitted. If it makes a post that fails, the call
  -- ends with that failure. Otherwise the function is called, and what it comes to is closed as
  -- `closing` and `final` say of its outcome.
  pub data Brackets (opening : E) (closing : Outcome PyError V → Option E)
      (final : Outcome PyError V → Outcome PyError V) (call : Sdk E → Run E V) (start : Sdk E)
      (end : Run E V) : Type 0 where
    not_called :
        (exc : PostError)
        → PostFails batch_size network opening start exc
        → emitted end.1 ≡ emitted start ++ opening ∷ []
        → end.0 ≡ raised (lib.http_error exc)
        → Brackets opening closing final call start end
    called :
        (entered left : Sdk E) (outcome : Outcome PyError V)
        → PostReturns batch_size network opening start
        → emitted entered ≡ emitted start ++ opening ∷ []
        → call entered ≡ (outcome, left)
        → Closes (closing outcome) (final outcome) left end
        → Brackets opening closing final call start end

module _ {V : Type 0} (lib : Runtime V) where
  -- What an emission raises is the failure of its post.
  outcome_of-cases :
      (posted : Option Post)
      → ((outcome_of lib posted ≡ returned tt)
          × ((posted ≡ none)
              ⊎ ((requests : ℕ) × (posted
                    ≡ some (record { outcome = returned tt; requests = requests })))))
        ⊎ ((exc : PostError) × (outcome_of lib posted ≡ raised (lib.http_error exc))
            × ((requests : ℕ) × (posted
                  ≡ some (record { outcome = raised exc; requests = requests }))))
  unfolding outcome_of
  outcome_of-cases none = inl (refl, inl refl)
  outcome_of-cases (some post) = elim (Outcome-cases post.outcome) [
    | inl (done, ended) ↦ inl (
      rw ended refl,
      inr (post.requests, ap (λ o. some (record { outcome = o; requests = post.requests })) ended),
    )
    | inr (exc, failed) ↦ inr (
      exc,
      rw failed refl,
      (post.requests, ap (λ o. some (record { outcome = o; requests = post.requests })) failed),
    )
  ]

  module _ (batch_size : ℕ) (network : ℕ → ℕ → Answer) {E : Type 0} where
    -- An emission adds its event, whether or not a post that it makes fails.
    pub emit_to-emitted :
        (event : E) (sdk : Sdk E)
        → emitted (emit_to lib batch_size network event sdk).1 ≡ emitted sdk ++ event ∷ []
    unfolding emit_to
    emit_to-emitted event sdk =
        let flush = emit batch_size event (network sdk.posts) sdk.buffer in
        append_assoc sdk.sent flush.batch flush.buffer
        ∙ ap (λ l. sdk.sent ++ l) (emit-appends batch_size event (network sdk.posts) sdk.buffer)
        ∙ sym (append_assoc sdk.sent sdk.buffer (event ∷ []))

    emit_to-cases :
        (event : E) (sdk : Sdk E)
        → (sdk' : Sdk E) × (emitted sdk' ≡ emitted sdk ++ event ∷ [])
          × (((emit_to lib batch_size network event sdk ≡ (returned tt, sdk'))
                × PostReturns batch_size network event sdk)
              ⊎ ((exc : PostError) × (emit_to lib batch_size network event sdk
                    ≡ (raised (lib.http_error exc), sdk'))
                  × PostFails batch_size network event sdk exc))
    unfolding emit_to
    emit_to-cases event sdk =
        let (outcome, sdk') = emit_to lib batch_size network event sdk in
        let flush = emit batch_size event (network sdk.posts) sdk.buffer in
        (
          sdk',
          emit_to-emitted event sdk,
          elim (outcome_of-cases flush.posted) [
            | inl (done, returns) ↦ inl (ap (λ o. (o, sdk')) done, returns)
            | inr (exc, failed, fails) ↦ inr (exc, ap (λ o. (o, sdk')) failed, fails)
          ],
        )

    -- An event emitted behind a call that ended with `outcome`.
    pub emit_last :
        (event : E) (outcome : Outcome PyError V) (sdk : Sdk E)
        → Closes lib batch_size network
            (some event)
            outcome
            sdk
            (and_then (emit_to lib batch_size network event sdk) (λ done sdk'. (outcome, sdk')))
    unfolding and_then
    emit_last event outcome sdk =
        let (sdk', same, cases) = emit_to-cases event sdk in
        elim cases [
          | inl (done, returns) ↦ rw done (same, inl (returns, refl))
          | inr (exc, failed, fails) ↦ rw failed (same, inr (exc, fails, refl))
        ]

    -- An event emitted before a call, and what follows the call.
    pub open-Brackets :
        (opening : E) (closing : Outcome PyError V → Option E)
        (final : Outcome PyError V → Outcome PyError V) (call : Sdk E → Run E V)
        (close : Run E V → Run E V) (start : Sdk E)
        → ((outcome : Outcome PyError V) (left : Sdk E)
            → Closes lib batch_size network
                (closing outcome)
                (final outcome)
                left
                (close (outcome, left)))
        → Brackets lib batch_size network opening closing final call start (
            and_then
              (emit_to lib batch_size network opening start)
              (λ done sdk'. close (call sdk')))
    unfolding and_then
    open-Brackets opening closing final call close start closes =
        let (entered, same, cases) = emit_to-cases opening start in
        elim cases [
          | inl (done, returns) ↦ rw done (
              called entered (call entered).1 (call entered).0 returns same refl
                (closes (call entered).0 (call entered).1))
          | inr (exc, failed, fails) ↦ rw failed (not_called exc fails same refl)
        ]
