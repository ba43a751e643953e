-- ===== src/Ledger/Upcast/Registration.antt =====
-- ledger/upcast.py: what `register` keeps true of the registry.
use goderash.Common.{
  ℕ, ◌+◌, ◌<◌, max, String, eq_iff, str_eq, ◌≡◌, refl, List, [], ◌∷◌, none, some, returned, arith,
  if◌then◌else◌, ◌&&◌, str-cases, leb, subst, sym, inl, inr, ap, ◌∙◌, ◌==◌, Bool-cases,
  Option-cases,
}
use goderash.Ledger.Upcast.{
  Upcaster, UpcasterRegistry, version_of, or_default, set_version, upcaster_at, register,
}

pub version_of-set_version :
    (e k : String) (v : ℕ) (l : List (String × ℕ))
    → version_of k (set_version e v l) ≡ (if str_eq e k then some v else version_of k l)
unfolding version_of set_version
version_of-set_version e k v [] = refl
version_of-set_version e k v ((j, w) ∷ l) =
    ground (arith, eq_iff e k, eq_iff j e, eq_iff j k, version_of-set_version e k v l)

module _ {D : Type 0} where
  -- Every upcaster leads to at most the current version of its event type, and one leads to it.
  pub record IsValid (reg : UpcasterRegistry D) : Type 0 where
    pub within :
        (e : String) (w : ℕ) (fn : Upcaster D)
        → upcaster_at e w reg.by_event ≡ some fn
        → (current : ℕ) × (version_of e reg.current_versions ≡ some current) × (w < current)
    pub reached :
        (e : String) (current : ℕ)
        → version_of e reg.current_versions ≡ some current
        → (w : ℕ) × (fn : Upcaster D) × (current ≡ w + 1) × (upcaster_at e w reg.by_event ≡ some fn)

  -- What a successful call has checked and done.
  pub record Registered (from : ℕ) (e : String) (fn : Upcaster D) (reg reg' : UpcasterRegistry D)
      : Type 0 where
    pub unused : upcaster_at e from reg.by_event ≡ none
    pub entries : reg'.by_event ≡ (e, from, fn) ∷ reg.by_event
    pub versions :
        reg'.current_versions
        ≡ set_version e
            (max (or_default (version_of e reg.current_versions) 0) (from + 1))
            reg.current_versions

  register-Registered :
      (from to : ℕ) (e : String) (fn : Upcaster D) (reg reg' : UpcasterRegistry D)
      → register from to e fn reg ≡ returned reg'
      → (to ≡ from + 1) × Registered from e fn reg reg'
  unfolding register
  register-Registered from to e fn reg reg' h = ground arith

  upcaster_at-cons :
      (e k : String) (v w : ℕ) (fn : Upcaster D) (l : List (String × ℕ × Upcaster D))
      → upcaster_at k w ((e, v, fn) ∷ l)
        ≡ (if str_eq e k && v == w then some fn else upcaster_at k w l)
  unfolding upcaster_at
  upcaster_at-cons e k v w fn l = refl

  module _ {from : ℕ} {e : String} {fn : Upcaster D} {reg reg' : UpcasterRegistry D}
      (r : Registered from e fn reg reg') (valid : IsValid reg) where
    -- The lookups after the call, in terms of those before it.
    upcaster_after :
        (k : String) (w : ℕ)
        → upcaster_at k w reg'.by_event
          ≡ (if str_eq e k && from == w then some fn else upcaster_at k w reg.by_event)
    upcaster_after k w =
        ap (upcaster_at k w) r.entries ∙ upcaster_at-cons e k from w fn reg.by_event

    version_after :
        (k : String)
        → version_of k reg'.current_versions ≡ (
            if str_eq e k
            then some (max (or_default (version_of e reg.current_versions) 0) (from + 1))
            else version_of k reg.current_versions)
    version_after k =
        ap (version_of k) r.versions ∙ version_of-set_version e k _ reg.current_versions

    below_current :
        (w : ℕ) (f : Upcaster D)
        → upcaster_at e w reg.by_event ≡ some f
        → w < or_default (version_of e reg.current_versions) 0
    below_current w f found = let (current, known, lt) = valid.within e w f found in rw known lt

    register_within :
        (k : String) (w : ℕ) (f : Upcaster D)
        → upcaster_at k w reg'.by_event ≡ some f
        → (current : ℕ) × (version_of k reg'.current_versions ≡ some current) × (w < current)
    register_within k w f found = elim (str-cases e k) [
      | inr (_, other) ↦
          let (current, known, lt) = valid.within k w f (ground (arith, upcaster_after k w)) in
          (current, version_after k ∙ rw other known, lt)
      | inl (same, eq) ↦ (
        max (or_default (version_of e reg.current_versions) 0) (from + 1),
        version_after k ∙ rw eq refl,
        elim (Bool-cases (from == w)) [
          | inl here ↦ ground arith
          | inr there ↦ omega (
            arith,
            below_current w f (
                subst (λ x. upcaster_at x w reg.by_event ≡ some f) (sym same)
                  (ground (arith, upcaster_after k w))),
          )
        ],
      )
    ]

    register_reached :
        (k : String) (current : ℕ)
        → version_of k reg'.current_versions ≡ some current
        → (w : ℕ) × (f : Upcaster D) × (current ≡ w + 1) × (upcaster_at k w reg'.by_event ≡ some f)
    register_reached k current known = elim (str-cases e k) [
      | inr (_, other) ↦
          let (w, f, eq, found) = valid.reached k current (ground (arith, version_after k)) in
          (w, f, eq, upcaster_after k w ∙ rw other found)
      | inl (same, eq) ↦
          let is_max : current ≡ max (or_default (version_of e reg.current_versions) 0) (from + 1) =
            ground (arith, version_after k) in
          elim (Option-cases (version_of e reg.current_versions)) [
            | inl unknown ↦ (from, fn, ground arith, upcaster_after k from ∙ ground arith)
            | inr (old, was) ↦ elim (Bool-cases (leb old (from + 1))) [
              | inl small ↦ (from, fn, ground arith, upcaster_after k from ∙ ground arith)
              | inr large ↦
                  let (w, f, top, found) = valid.reached e old was in
                  (
                    w,
                    f,
                    ground arith,
                    upcaster_after k w
                        ∙ ground
                            (arith, subst (λ x. upcaster_at x w reg.by_event ≡ some f) same found),
                  )
            ]
          ]
    ]

  -- If the registry is valid and `register` succeeds, then the step was one version, the registry
  -- is valid again, the version that the upcaster starts from had none before and has it now, and
  -- every other lookup returns what it did.
  pub register-IsValid :
      (from to : ℕ) (e : String) (fn : Upcaster D) (reg reg' : UpcasterRegistry D)
      → IsValid reg
      → register from to e fn reg ≡ returned reg'
      → (to ≡ from + 1)
        × IsValid reg'
        × (upcaster_at e from reg.by_event ≡ none)
        × ((k : String) (w : ℕ)
            → upcaster_at k w reg'.by_event
              ≡ (if str_eq e k && from == w then some fn else upcaster_at k w reg.by_event))
  register-IsValid from to e fn reg reg' valid h =
      let (one, r) = register-Registered from to e fn reg reg' h in
      (
        one,
        record { within = register_within r valid; reached = register_reached r valid },
        r.unused,
        upcaster_after r valid,
      )
