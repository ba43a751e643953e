-- ===== src/Ledger/Store/Linked.antt =====
-- ledger/store.py: rows of a tenant whose digests form a chain, seen as a history of payloads.
use goderash.Common.{
  ◌+◌, ◌≤◌, String, str_eq, ap, length-map, str-cases, ◌≡◌, refl, inl, inr, true, some, List, [],
  ◌∷◌, ◌++◌, map, arith, any, length, subst, ◌∙◌, sym,
}
use goderash.Json.{Fields}
use goderash.Ledger.Chain.{Hasher, ChainEvent, compute_hash}
use goderash.Ledger.Chain.Verdict.{IsIntact, done, next}
use goderash.Ledger.Chain.Evidence.{
  DigestCount, IsBroken, IsBroken-mono, has, has-append, inputs, head_of, head_of-injective,
}
use goderash.Ledger.Store.{EventRow}
use goderash.Ledger.Store.Order.{last_digest}

-- What `verify_chain` is given for a row.
abbrev pub chain_event : {F : Type 0} → EventRow F → ChainEvent (Fields F)
chain_event r = record {
  prev_hash = some r.prev_hash;
  hash = some r.hash;
  payload = some r.payload;
}

module _ {F : Type 0} (hs : Hasher (Fields F)) where
  abbrev pub IsLinked : String → List (EventRow F) → Type 0
  IsLinked h [] = Unit {0}
  IsLinked h (r ∷ rows) =
      (r.prev_hash ≡ h) × (r.hash ≡ compute_hash hs h r.payload) × IsLinked r.hash rows

  pub IsLinked-append :
      (h : String) (rows more : List (EventRow F))
      → IsLinked h rows
      → IsLinked (last_digest h rows) more
      → IsLinked h (rows ++ more)
  IsLinked-append h [] more k m = m
  IsLinked-append h (r ∷ rows) more k m = (k.0, k.1, IsLinked-append r.hash rows more k.2 m)

  -- Linked rows are an intact chain of `verify_chain`, and nothing else is.
  pub IsLinked-IsIntact :
      (h : String) (rows : List (EventRow F))
      → IsLinked h rows
      → IsIntact hs h (map chain_event rows)
  IsLinked-IsIntact h [] k = done
  IsLinked-IsIntact h (r ∷ rows) k =
      next
        (record {
          body = r.payload;
          links = ap some k.0;
          stored = refl;
          carries = refl;
          computed = k.1;
        })
        (IsLinked-IsIntact r.hash rows k.2)

  -- The payloads of the rows, newest first, before those of `older`.
  abbrev pub history : List (Fields F) → List (EventRow F) → List (Fields F)
  history older [] = older
  history older (r ∷ rows) = history (r.payload ∷ older) rows

  pub last_digest-history :
      (older : List (Fields F)) (rows : List (EventRow F))
      → IsLinked (head_of hs older) rows
      → last_digest (head_of hs older) rows ≡ head_of hs (history older rows)
  last_digest-history older [] k = refl
  last_digest-history older (r ∷ rows) k =
      let e : r.hash ≡ head_of hs (r.payload ∷ older) = unfold head_of in k.1 in
      rw e (last_digest-history (r.payload ∷ older) rows (subst (λ x. IsLinked x rows) e k.2))

  pub length-history :
      (older : List (Fields F)) (rows : List (EventRow F))
      → length (history older rows) ≡ length rows + length older
  length-history older [] = omega arith
  length-history older (r ∷ rows) = omega (arith, length-history (r.payload ∷ older) rows)

  -- The texts hashed for the older payloads are among those hashed for all.
  inputs-history :
      (older : List (Fields F)) (rows : List (EventRow F)) (x : String)
      → has x (inputs hs older) ≡ true
      → has x (inputs hs (history older rows)) ≡ true
  inputs-history older [] x h = h
  inputs-history older (r ∷ rows) x h = inputs-history (r.payload ∷ older) rows x (ground arith)

  inputs-both :
      (ds : List (Fields F)) (older : List (Fields F)) (rows : List (EventRow F)) (x : String)
      → has x (inputs hs older ++ inputs hs ds) ≡ true
      → has x (inputs hs (history older rows) ++ inputs hs ds) ≡ true
  inputs-both ds older rows x h = ground (
    arith,
    has-append x (inputs hs older) (inputs hs ds),
    has-append x (inputs hs (history older rows)) (inputs hs ds),
    inputs-history older rows x,
  )

  -- A digest of a longer history stands in no row of a shorter one, or SHA-256 is broken by what
  -- was hashed for them.
  pub digest_clash :
      DigestCount hs
      → (older : List (Fields F)) (rows : List (EventRow F)) (ds : List (Fields F)) (d : Fields F)
      → IsLinked (head_of hs older) rows
      → length rows + length older ≤ length ds
      → any (λ s. str_eq s.hash (compute_hash hs (head_of hs ds) d)) rows ≡ true
      → IsBroken hs (inputs hs (history older rows) ++ inputs hs (d ∷ ds))
  digest_clash dc older [] ds d k le found = cc
  digest_clash dc older (s ∷ rows) ds d k le found =
      let e : s.hash ≡ head_of hs (s.payload ∷ older) = unfold head_of in k.1 in
      elim (str-cases s.hash (compute_hash hs (head_of hs ds) d)) [
        | inl (same, _) ↦
            elim (head_of-injective hs dc (s.payload ∷ older) (d ∷ ds)
              (sym e ∙ same ∙ unfold head_of in refl)) [
                | inr broken ↦
                    IsBroken-mono hs (inputs hs (s.payload ∷ older) ++ inputs hs (d ∷ ds))
                      (inputs hs (history (s.payload ∷ older) rows) ++ inputs hs (d ∷ ds))
                      (inputs-both (d ∷ ds) (s.payload ∷ older) rows) broken
                | inl texts ↦ absurd (
                    omega (
                      arith,
                      ap length texts,
                      length-map (s.payload ∷ older) hs.canonical_json,
                      length-map (d ∷ ds) hs.canonical_json,
                    ))
              ]
        | inr (_, differs) ↦
            digest_clash dc (s.payload ∷ older) rows ds d (subst (λ x. IsLinked x rows) e k.2)
              (omega arith) (ground arith)
      ]
