-- ===== src/Guards/Velocity/Sliding.antt =====
-- goderash_sdk/guards/velocity.py: one rule on the number of calls, against the sliding window that
-- it stands for.
use goderash.Common.{
  ℕ, String, eq_refl, ◌≡◌, refl, sym, ap, subst, ◌∙◌, true, false, not, none, some, List, [], ◌∷◌,
  ◌++◌, if◌then◌else◌, length, length-map, keep-append, leb, Bool-cases, inl, inr, map-append,
}
use goderash.Real.{Real, OrderLaws}
use goderash.Guards.{GoderashContext, Call}
use goderash.Guards.Velocity.{
  VelocityRule, Events, deque_of, push, trim, oldest_in, count_in_window, check_count, check_amount,
  check_rules, settle, evaluate_rules, record_event, key_of, or_zero,
}
use goderash.Guards.Velocity.Times.{
  times_of, within, Rises, done, next, times_of-trim_deque, within-within, within-Rises,
  Rises-later, Rises-append,
}
use goderash.Guards.Velocity.Windows.{deque_of-push, deque_of-trim}

module _ {F : Type 0} (real : Real F) where
  -- What the clock and the subtraction of a window from it keep to.
  pub record WindowLaws (window : ℕ) : Type 0 where
    pub order : OrderLaws real
    pub sub_le : (now : F) → real.lt now (oldest_in real window now) ≡ false
    pub sub_mono :
        (last now : F)
        → real.lt now last ≡ false
        → real.lt (oldest_in real window now) (oldest_in real window last) ≡ false

  -- The reference: a call is granted exactly if fewer than `n` of the calls granted before are not
  -- older than the window.
  unfoldable pub sliding : ℕ → ℕ → List F → List F → List F
  sliding n window granted [] = []
  sliding n window granted (now ∷ times) =
      let later = sliding n window (granted ++ now ∷ []) times in
      let refused = sliding n window granted times in
      if leb n (length (within real (oldest_in real window now) granted))
      then refused
      else now ∷ later

  -- A rule on the number of calls alone.
  abbrev pub counting : ℕ → ℕ → String → VelocityRule F
  counting window n label = record {
    window_seconds = window;
    max_count = some n;
    max_amount = none;
    label = label;
  }

  module _ (int_text : ℕ → String) (ctx : GoderashContext) (call : Call F) where
    -- The times at which the limiter grants the call.
    unfoldable pub granted_times : List (VelocityRule F) → Events F → List F → List F
    granted_times rules events [] = []
    granted_times rules events (now ∷ times) =
        let (decision, events') = evaluate_rules real int_text rules now ctx call events in
        let rest = granted_times rules events' times in if decision.allow then now ∷ rest else rest

    abbrev key : String
    key = key_of real int_text ctx call

    module _ (n window : ℕ) (label : String) where
      granted_times-refused :
          (now : F) (times : List F) (events : Events F)
          → let events' = trim real key (oldest_in real window now) events in
            leb n (length (deque_of key events')) ≡ true
            → granted_times (counting window n label ∷ []) events (now ∷ times)
              ≡ granted_times (counting window n label ∷ []) events' times
      unfolding granted_times evaluate_rules check_rules check_count check_amount count_in_window
          settle
      granted_times-refused now times events out =
          rw (evaluate_rules, check_rules, check_count, count_in_window, out) refl

      granted_times-granted :
          (now : F) (times : List F) (events : Events F)
          → let events' = trim real key (oldest_in real window now) events in
            leb n (length (deque_of key events')) ≡ false
            → granted_times (counting window n label ∷ []) events (now ∷ times)
              ≡ now
                ∷ granted_times
                    (counting window n label ∷ [])
                    (push key (now, or_zero real call.amount) events')
                    times
      unfolding granted_times evaluate_rules check_rules check_count check_amount count_in_window
          settle record_event
      granted_times-granted now times events left =
          rw (evaluate_rules, check_rules, check_count, count_in_window, left) refl

      module _ (laws : WindowLaws window) where
        -- The deque after the trimming at `now` holds the granted calls of the window.
        trimmed_times :
            (start last now : F) (granted : List F) (events : Events F)
            → Rises real last start granted
            → times_of (deque_of key events) ≡ within real (oldest_in real window last) granted
            → real.lt now last ≡ false
            → times_of (deque_of key (trim real key (oldest_in real window now) events))
              ≡ within real (oldest_in real window now) granted
        trimmed_times start last now granted events rises inv up =
            let old = oldest_in real window last in
            let new = oldest_in real window now in
            ap times_of (deque_of-trim real key new events)
            ∙ times_of-trim_deque real laws.order new (deque_of key events) (
                subst (Rises real last start) (sym inv)
                  (within-Rises real laws.order old granted rises))
            ∙ ap (within real new) inv
            ∙ within-within real laws.order old new granted (laws.sub_mono last now up)

        pushed_times :
            (now : F) (granted : List F) (events : Events F)
            → times_of (deque_of key events) ≡ within real (oldest_in real window now) granted
            → times_of (deque_of key (push key (now, or_zero real call.amount) events))
              ≡ within real (oldest_in real window now) (granted ++ now ∷ [])
        pushed_times now granted events inv =
            ap times_of (
              deque_of-push real key key (now, or_zero real call.amount) events
              ∙ rw (eq_refl key) refl)
            ∙ map-append (λ e. e.0) (deque_of key events) ((now, or_zero real call.amount) ∷ [])
            ∙ ap (λ ts. ts ++ now ∷ []) inv
            ∙ sym (
                keep-append (λ t. not (real.lt t (oldest_in real window now))) granted (now ∷ [])
                ∙ rw (laws.sub_le now) refl)

        granted_times-simulates :
            (start : F) (times : List F) (last : F) (granted : List F) (events : Events F) {end : F}
            → Rises real last start granted
            → times_of (deque_of key events) ≡ within real (oldest_in real window last) granted
            → Rises real end last times
            → granted_times (counting window n label ∷ []) events times
              ≡ sliding n window granted times
        unfolding granted_times sliding
        granted_times-simulates start [] last granted events rises inv clock = refl
        granted_times-simulates start (now ∷ times) last granted events rises inv (next up clock) =
            let trimmed = trim real key (oldest_in real window now) events in
            let seen = trimmed_times start last now granted events rises inv up in
            let count : length (deque_of key trimmed)
                ≡ length (within real (oldest_in real window now) granted) =
              sym (length-map (deque_of key trimmed) (λ e. e.0)) ∙ ap length seen in
            elim (Bool-cases (leb n (length (within real (oldest_in real window now) granted)))) [
              | inl out ↦
                  granted_times-refused now times events (ap (leb n) count ∙ out)
                  ∙ granted_times-simulates start times now granted trimmed
                      (Rises-later real laws.order granted up rises) seen clock
                  ∙ rw out refl
              | inr left ↦
                  granted_times-granted now times events (ap (leb n) count ∙ left)
                  ∙ ap (λ ts. now ∷ ts)
                      (granted_times-simulates start times now (granted ++ now ∷ [])
                        (push key (now, or_zero real call.amount) trimmed)
                        (Rises-append real laws.order granted up rises)
                        (pushed_times now granted trimmed seen) clock)
                  ∙ rw left refl
            ]

        -- A tool has one rule, of `n` calls in a window. If the counter holds no call of the key and
        -- the clock does not go back, then of any number of calls the limiter grants exactly those
        -- that have fewer than `n` granted calls before them in the window.
        pub granted_times-sliding :
            (start end : F) (times : List F) (events : Events F)
            → deque_of key events ≡ []
            → Rises real end start times
            → granted_times (counting window n label ∷ []) events times ≡ sliding n window [] times
        granted_times-sliding start end times events empty clock =
            granted_times-simulates start times start [] events (done (laws.order.lt_irrefl start))
              (ap times_of empty) clock
