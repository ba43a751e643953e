-- ===== src/Ledger/Chain/Evidence.antt =====
-- Tamper evidence of ledger/chain.py: the digest of the last event commits to every payload.
use text.Mathlib.TextLemmas.{append_inj}
use goderash.Common.{
  String, ◌+s◌, str_eq, eq_refl, Bool, ◌||◌, ◌++◌, any, arith, count, ◌≡◌, refl, sym, ◌∙◌, ◌≢◌, ◌⊎◌,
  inl, inr, true, Option, none, some, List, [], ◌∷◌, map, str-cases,
}
use goderash.Ledger.Chain.{Hasher, ChainEvent, genesis_prev_hash, compute_hash, verify_chain}
use goderash.Ledger.Chain.Verdict.{IsIntact, done, next, verify_chain-IsIntact}

-- The text stands in the list.
abbrev pub has : String → List String → Bool
has x texts = any (λ y. str_eq y x) texts

pub has-append : (x : String) (xs ys : List String) → has x (xs ++ ys) ≡ (has x xs || has x ys)
has-append x [] ys = refl
has-append x (z ∷ xs) ys = ground (arith, has-append x xs ys)

module _ {D : Type 0} (hs : Hasher D) where
  -- Two different texts of the list with one digest.
  abbrev pub Collision : List String → Type 0
  Collision texts =
      (x : String) × (y : String) × (has x texts ≡ true)
      × (has y texts ≡ true)
      × (x ≢ y)
      × (hs.sha256 x ≡ hs.sha256 y)

  -- A text of the list whose digest is the sentinel of the first event.
  abbrev pub GenesisPreimage : List String → Type 0
  GenesisPreimage texts = (x : String) × (has x texts ≡ true) × (hs.sha256 x ≡ genesis_prev_hash)

  -- SHA-256 is broken by texts of the list.
  abbrev pub IsBroken : List String → Type 0
  IsBroken texts = Collision texts ⊎ GenesisPreimage texts

  pub IsBroken-mono :
      (xs ys : List String)
      → ((x : String) → has x xs ≡ true → has x ys ≡ true)
      → IsBroken xs
      → IsBroken ys
  IsBroken-mono xs ys sub (inl (x, y, hx, hy, ne, eq)) = inl (x, y, sub x hx, sub y hy, ne, eq)
  IsBroken-mono xs ys sub (inr (x, hx, eq)) = inr (x, sub x hx, eq)

  -- A hex digest has 64 characters.
  abbrev pub DigestCount : Type 0
  DigestCount = (x : String) → count (hs.sha256 x) ≡ 64

  -- The digest after a history, newest payload first.
  unfoldable pub head_of : List D → String
  head_of [] = genesis_prev_hash
  head_of (d ∷ older) = compute_hash hs (head_of older) d

  -- The texts that are hashed for a history.
  abbrev pub text_of : List D → D → String
  text_of older d = head_of older +s ("|" +s hs.canonical_json d)

  abbrev pub inputs : List D → List String
  inputs [] = []
  inputs (d ∷ older) = text_of older d ∷ inputs older

  count-head_of : DigestCount → (ds : List D) → count (head_of ds) ≡ 64
  unfolding head_of compute_hash
  count-head_of digest_count [] = refl
  count-head_of digest_count (d ∷ ds) = digest_count _

  -- One digest of two histories: the newest payloads read the same, after the same digest; or
  -- the two texts that were hashed differ.
  compute_hash-injective :
      (p q : String) (d e : D)
      → count p ≡ count q
      → ((p ≡ q) × (hs.canonical_json d ≡ hs.canonical_json e))
        ⊎ (p +s ("|" +s hs.canonical_json d) ≢ q +s ("|" +s hs.canonical_json e))
  compute_hash-injective p q d e same_count =
      elim (str-cases (p +s ("|" +s hs.canonical_json d)) (q +s ("|" +s hs.canonical_json e))) [
        | inl (eq, _) ↦
            let (eq_p, eq_rest) = append_inj eq same_count in
            inl (eq_p, (append_inj {s₁ = "|"} {s₂ = "|"} eq_rest refl).1)
        | inr (ne, _) ↦ inr ne
      ]

  has-left : (x : String) (xs ys : List String) → has x xs ≡ true → has x (xs ++ ys) ≡ true
  has-left x xs ys h = ground (arith, has-append x xs ys)

  has-right : (x : String) (xs ys : List String) → has x ys ≡ true → has x (xs ++ ys) ≡ true
  has-right x xs ys h = ground (arith, has-append x xs ys)

  has-head : (x : String) (xs : List String) → has x (x ∷ xs) ≡ true
  has-head x xs = rw (eq_refl x) refl

  has-tail : (x y : String) (xs : List String) → has x xs ≡ true → has x (y ∷ xs) ≡ true
  has-tail x y xs h = ground arith

  -- The texts of two histories, with the newest of each left out.
  pub inputs-tails :
      (ds es : List D) (d e : D) (x : String)
      → has x (inputs ds ++ inputs es) ≡ true
      → has x (inputs (d ∷ ds) ++ inputs (e ∷ es)) ≡ true
  inputs-tails ds es d e x h = ground (
    arith,
    has-append x (inputs ds) (inputs es),
    has-append x (inputs (d ∷ ds)) (inputs (e ∷ es)),
  )

  pub head_of-injective :
      DigestCount
      → (ds es : List D) → head_of ds ≡ head_of es
      → (map hs.canonical_json ds ≡ map hs.canonical_json es) ⊎ IsBroken (inputs ds ++ inputs es)
  unfolding head_of compute_hash
  head_of-injective dc [] [] h = inl refl
  head_of-injective dc [] (e ∷ es) h =
      inr (inr (text_of es e, has-head (text_of es e) (inputs es), sym h))
  head_of-injective dc (d ∷ ds) [] h = inr (
      inr (
        text_of ds d,
        has-left (text_of ds d) (inputs (d ∷ ds)) [] (has-head (text_of ds d) (inputs ds)),
        h,
      ))
  head_of-injective dc (d ∷ ds) (e ∷ es) h =
      elim (compute_hash-injective (head_of ds) (head_of es) d e
        (count-head_of dc ds ∙ sym (count-head_of dc es))) [
          | inr ne ↦ inr (
              inl (
                text_of ds d,
                text_of es e,
                has-left (text_of ds d) (inputs (d ∷ ds)) (inputs (e ∷ es))
                    (has-head (text_of ds d) (inputs ds)),
                has-right (text_of es e) (inputs (d ∷ ds)) (inputs (e ∷ es))
                    (has-head (text_of es e) (inputs es)),
                ne,
                h,
              ))
          | inl (heads, tops) ↦ elim (head_of-injective dc ds es heads) [
            | inr b ↦ inr (
                IsBroken-mono (inputs ds ++ inputs es) (inputs (d ∷ ds) ++ inputs (e ∷ es))
                  (inputs-tails ds es d e) b)
            | inl rest ↦ inl cc
          ]
        ]

  -- The stored digest of the last event, or `h` if there is none.
  pub last_hash : Option String → List (ChainEvent D) → Option String
  last_hash h [] = h
  last_hash h (e ∷ es) = last_hash e.hash es

  -- The payloads, newest first, before those of `older`.
  pub newest_first : List D → List (ChainEvent D) → List D
  newest_first older [] = older
  newest_first older (e ∷ es) =
      newest_first (elim e.payload [ none ↦ older | some d ↦ d ∷ older ]) es

  last_hash-IsIntact :
      {prev : String} {es : List (ChainEvent D)} (older : List D)
      → IsIntact hs prev es
      → prev ≡ head_of older
      → last_hash (some prev) es ≡ some (head_of (newest_first older es))
  unfolding last_hash newest_first head_of
  last_hash-IsIntact older done eq = cc
  last_hash-IsIntact older (next {h = h} {e = e} f rest) eq =
      rw (f.stored, f.carries, newest_first)
        (last_hash-IsIntact (f.body ∷ older) rest (cc (f.computed)))

  -- If the verifier accepts two ledgers whose last stored digests are equal, then their payloads,
  -- from the newest to the oldest, have the same canonical JSON one by one; or SHA-256 is broken
  -- by the very texts that were hashed for the two ledgers: two of them differ and have one digest,
  -- or one has the genesis sentinel for its digest.
  pub verify_chain-commits :
      DigestCount
      → (es fs : List (ChainEvent D)) → verify_chain hs es ≡ (true, none)
      → verify_chain hs fs ≡ (true, none)
      → last_hash (some genesis_prev_hash) es ≡ last_hash (some genesis_prev_hash) fs
      → (map hs.canonical_json (newest_first [] es) ≡ map hs.canonical_json (newest_first [] fs))
        ⊎ IsBroken (inputs (newest_first [] es) ++ inputs (newest_first [] fs))
  unfolding head_of
  verify_chain-commits dc es fs he hf same =
      head_of-injective dc (newest_first [] es) (newest_first [] fs) (
        cc (
          last_hash-IsIntact [] (verify_chain-IsIntact hs es he) refl,
          last_hash-IsIntact [] (verify_chain-IsIntact hs fs hf) refl,
        ))
