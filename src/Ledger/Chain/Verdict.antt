-- ===== src/Ledger/Chain/Verdict.antt =====
-- What `verify_chain` of ledger/chain.py decides: an independent description of an intact chain,
-- and the position that the verifier reports.
use goderash.Common.{
  ℕ, suc, ◌+◌, ◌<◌, String, ◌≡◌, refl, sym, ap, ◌∙◌, subst, ◌⊎◌, inl, inr, Bool, true, false,
  Option, none, some, List, [], ◌∷◌, arith, length, take, Option-cases, eq_refl, eq_iff,
}
use mathlib.Core.Bool.{false≢true}
use goderash.Ledger.Chain.{
  Hasher, ChainEvent, genesis_prev_hash, compute_hash, check_event, verify_from, verify_chain,
}

module _ {D : Type 0} (hs : Hasher D) where
  -- `h` is the digest that event `e` stores, and it is right after `prev`.
  pub record Follows (prev : String) (e : ChainEvent D) (h : String) : Type 0 where
    pub body : D
    pub links : e.prev_hash ≡ some prev
    pub stored : e.hash ≡ some h
    pub carries : e.payload ≡ some body
    pub computed : h ≡ compute_hash hs prev body

  -- Every event names the digest of the one before it and stores its own.
  pub data IsIntact : String → List (ChainEvent D) → Type 0 where
    done : {prev : String} → IsIntact prev []
    next :
        {prev h : String} {e : ChainEvent D} {es : List (ChainEvent D)}
        → Follows prev e h
        → IsIntact h es
        → IsIntact prev (e ∷ es)

  fields_of_check :
      (prev : String) (p : Option String) (d : Option D) (a : Option String) (h : String)
      → check_event hs prev p d a ≡ some h
      → (body : D) × (p ≡ some prev)
        × (a ≡ some h)
        × (d ≡ some body)
        × (h ≡ compute_hash hs prev body)
  unfolding check_event
  fields_of_check prev (some p) (some d) (some a) h k = (
    d,
    ground (arith, eq_iff p prev),
    ground arith,
    refl,
    ground (arith, eq_iff p prev, eq_iff (compute_hash hs p d) a),
  )
  fields_of_check prev _ _ _ h k = cc

  check_event-Follows :
      (prev : String) (e : ChainEvent D) (h : String)
      → check_event hs prev e.prev_hash e.payload e.hash ≡ some h
      → Follows prev e h
  check_event-Follows prev e h k =
      let (body, links, stored, carries, computed) =
        fields_of_check prev e.prev_hash e.payload e.hash h k in
      record { body = body; links = links; stored = stored; carries = carries; computed = computed }

  -- The test passes an event that follows.
  pub check_event_of_Follows :
      (prev : String) (e : ChainEvent D) (h : String)
      → Follows prev e h
      → check_event hs prev e.prev_hash e.payload e.hash ≡ some h
  unfolding check_event
  check_event_of_Follows prev e h f =
      rw (f.links, f.carries, f.stored, f.computed, check_event) (simp eq_refl)

  Follows-unique :
      (prev : String) (e : ChainEvent D) (h k : String) → Follows prev e h → e.hash ≡ some k → h ≡ k
  Follows-unique prev e h k f s = cc (f.stored, s)

  -- What the loop returns at position `i` describes where the chain breaks.
  abbrev Verdict : String → ℕ → List (ChainEvent D) → Bool × Option ℕ → Type 0
  Verdict prev i es r =
      ((r ≡ (true, none)) × IsIntact prev es)
      ⊎ ((k : ℕ) × (r ≡ (false, some (i + k)))
          × (k < length es)
          × IsIntact prev (take k es)
          × ¬ IsIntact prev (take (suc k) es))

  IsIntact-head :
      {prev : String} {e : ChainEvent D} {es : List (ChainEvent D)}
      → IsIntact prev (e ∷ es)
      → (h : String) × Follows prev e h × IsIntact h es
  IsIntact-head (next {h = h} f rest) = (h, f, rest)

  -- Past an event that follows, the verdict on the rest is the verdict on the whole.
  Verdict-next :
      (prev h : String) (i : ℕ) (e : ChainEvent D) (es : List (ChainEvent D)) (r : Bool × Option ℕ)
      → Follows prev e h
      → Verdict h (suc i) es r
      → Verdict prev i (e ∷ es) r
  Verdict-next prev h i e es r f (inl (eq, ok)) = inl (eq, next f ok)
  Verdict-next prev h i e es r f (inr (k, eq, lt, good, bad)) = inr (
    suc k,
    ground arith,
    omega arith,
    next f good,
    λ whole.
        let (h', f', rest) = IsIntact-head whole in
        bad
          (subst (λ x. IsIntact x (take (suc k) es)) (Follows-unique prev e h' h f' f.stored) rest),
  )

  verify_from-Verdict :
      (prev : String) (i : ℕ) (es : List (ChainEvent D))
      → Verdict prev i es (verify_from hs prev i es)
  unfolding verify_from
  verify_from-Verdict prev i [] = inl (refl, done)
  verify_from-Verdict prev i (e ∷ es) =
      elim (Option-cases (check_event hs prev e.prev_hash e.payload e.hash)) [
        | inl broken ↦
            rw (broken, verify_from)
              (inr (
                0,
                ground arith,
                omega arith,
                done,
                λ whole.
                    let (h, f, _) = IsIntact-head whole in
                    cc (broken, check_event_of_Follows prev e h f),
              ))
        | inr (h, passed) ↦
            rw (passed, verify_from)
              (Verdict-next prev h i e es _ (check_event-Follows prev e h passed)
                (verify_from-Verdict h (suc i) es))
      ]

  -- On every list of events the verifier either returns (True, None), and the events are an intact
  -- chain from genesis; or it returns (False, k) for a position k of the list, the k events before
  -- it are an intact chain, and with the event at k they are not.
  pub verify_chain-Verdict :
      (events : List (ChainEvent D))
      → ((verify_chain hs events ≡ (true, none)) × IsIntact genesis_prev_hash events)
        ⊎ ((k : ℕ) × (verify_chain hs events ≡ (false, some k))
            × (k < length events)
            × IsIntact genesis_prev_hash (take k events)
            × ¬ IsIntact genesis_prev_hash (take (suc k) events))
  unfolding verify_chain
  verify_chain-Verdict events = elim (verify_from-Verdict genesis_prev_hash 0 events) [
    | inl good ↦ inl good
    | inr (k, eq, lt, good, bad) ↦ inr (k, ground arith, lt, good, bad)
  ]

  pub verify_chain-IsIntact :
      (events : List (ChainEvent D))
      → verify_chain hs events ≡ (true, none)
      → IsIntact genesis_prev_hash events
  verify_chain-IsIntact events h = elim (verify_chain-Verdict events) [
    | inl (_, good) ↦ good
    | inr (k, eq, _, _, _) ↦ absurd (false≢true (ap (λ (r : Bool × Option ℕ). r.0) (sym eq ∙ h)))
  ]

  verify_from_of_IsIntact :
      {prev : String} (i : ℕ) {es : List (ChainEvent D)}
      → IsIntact prev es
      → verify_from hs prev i es ≡ (true, none)
  unfolding verify_from
  verify_from_of_IsIntact i done = refl
  verify_from_of_IsIntact i (next {prev = p} {h = h} {e = e} f rest) =
      rw (check_event_of_Follows p e h f, verify_from) (verify_from_of_IsIntact (suc i) rest)

  -- Every intact chain is accepted.
  pub verify_chain_of_IsIntact :
      (events : List (ChainEvent D))
      → IsIntact genesis_prev_hash events
      → verify_chain hs events ≡ (true, none)
  unfolding verify_chain
  verify_chain_of_IsIntact events good = verify_from_of_IsIntact 0 good
