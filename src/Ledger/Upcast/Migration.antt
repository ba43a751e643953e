-- ===== src/Ledger/Upcast/Migration.antt =====
-- ledger/upcast.py: what `upcast` returns, against the relation of payloads that registered
-- upcasters lead from one version to another.
use goderash.Common.{
  ℕ, zero, suc, ◌+◌, ◌-◌, ◌≤◌, ◌<◌, max, String, ◌≡◌, refl, subst, ◌⊎◌, inl, inr, none, some,
  returned, raised, arith, Option-cases,
}
use goderash.Ledger.Upcast.{
  Upcaster, UpcasterRegistry, no_upcasters, missing_upcaster, version_of, upcaster_at, advance,
  upcast,
}

module _ {D : Type 0} where
  -- `Migrates reg e v p w q`: the upcasters of `e` from `v` on, one for each version, take `p` to
  -- `q` at version `w`.
  pub data Migrates (reg : UpcasterRegistry D) (e : String) : ℕ → D → ℕ → D → Type 0 where
    stay : {v : ℕ} {p : D} → Migrates reg e v p v p
    step :
        {v w : ℕ} {p q : D} (fn : Upcaster D)
        → upcaster_at e v reg.by_event ≡ some fn
        → Migrates reg e (v + 1) (fn p) w q
        → Migrates reg e v p w q

  -- How the loop ends after `rounds` rounds from version `v`.
  abbrev Ends : UpcasterRegistry D → String → ℕ → ℕ → D → Type 0
  Ends reg e rounds v p =
      ((q : D) × (advance rounds e v p reg ≡ returned q) × Migrates reg e v p (v + rounds) q)
      ⊎ ((w : ℕ) × (q : D) × (advance rounds e v p reg ≡ raised (missing_upcaster w))
          × (v ≤ w)
          × (w < v + rounds)
          × (upcaster_at e w reg.by_event ≡ none)
          × Migrates reg e v p w q)

  advance-Ends :
      (reg : UpcasterRegistry D) (e : String) (rounds v : ℕ) (p : D) → Ends reg e rounds v p
  unfolding advance
  advance-Ends reg e zero v p =
      inl (p, refl, subst (λ w. Migrates reg e v p w p) (omega arith) stay)
  advance-Ends reg e (suc rounds) v p = elim (Option-cases (upcaster_at e v reg.by_event)) [
    | inl gap ↦ inr (v, p, rw (gap, advance) refl, omega arith, omega arith, gap, stay)
    | inr (fn, found) ↦ elim (advance-Ends reg e rounds (v + 1) (fn p)) [
      | inl (q, eq, m) ↦ inl (
        q,
        rw (found, advance) eq,
        step fn found (subst (λ w. Migrates reg e (v + 1) (fn p) w q) (omega arith) m),
      )
      | inr (w, q, eq, le, lt, gap, m) ↦
          inr (w, q, rw (found, advance) eq, omega arith, omega arith, gap, step fn found m)
    ]
  ]

  -- `upcast` of an event type that the registry does not know raises. Of one whose current version
  -- is `current` it either returns the payload that one upcaster for each version from the row's
  -- own up to `current` makes (the payload itself, if the row is not behind); or it raises at the
  -- first version on that way, below `current`, that has no upcaster.
  pub upcast-Migrates :
      (reg : UpcasterRegistry D) (e : String) (v : ℕ) (p : D)
      → ((version_of e reg.current_versions ≡ none) × (upcast e v p reg ≡ raised no_upcasters))
        ⊎ ((current : ℕ) × (version_of e reg.current_versions ≡ some current)
            × (((q : D) × (upcast e v p reg ≡ returned q) × Migrates reg e v p (max v current) q)
                ⊎ ((w : ℕ) × (q : D) × (upcast e v p reg ≡ raised (missing_upcaster w))
                    × (v ≤ w)
                    × (w < current)
                    × (upcaster_at e w reg.by_event ≡ none)
                    × Migrates reg e v p w q)))
  unfolding upcast
  upcast-Migrates reg e v p = elim (Option-cases (version_of e reg.current_versions)) [
    | inl unknown ↦ inl (unknown, rw (unknown, upcast) refl)
    | inr (current, known) ↦ inr (
      current,
      known,
      elim (advance-Ends reg e (current - v) v p) [
        | inl (q, eq, m) ↦
            inl (q, rw (known, upcast) eq, subst (λ w. Migrates reg e v p w q) (omega arith) m)
        | inr (w, q, eq, le, lt, gap, m) ↦
            inr (w, q, rw (known, upcast) eq, le, omega arith, gap, m)
      ],
    )
  ]
