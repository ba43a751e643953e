-- ===== src/Guards/Velocity/Times.antt =====
-- goderash_sdk/guards/velocity.py: the times of a deque that lie in a window, if the clock never
-- goes back.
use goderash.Common.{
  ◌≡◌, refl, sym, ap, false, not, List, [], ◌∷◌, ◌++◌, arith, keep, Bool-cases, inl, inr, map,
}
use goderash.Real.{Real, OrderLaws}
use goderash.Guards.Velocity.{Deque, trim_deque}

abbrev pub times_of : {F : Type 0} → Deque F → List F
times_of d = map (λ e. e.0) d

module _ {F : Type 0} (real : Real F) where
  -- The times that are not older than `oldest`.
  abbrev pub within : F → List F → List F
  within oldest times = keep (λ t. not (real.lt t oldest)) times

  -- From `first` to `last`, no time is below the one before it.
  pub data Rises (last : F) : F → List F → Type 0 where
    done : {first : F} → real.lt last first ≡ false → Rises last first []
    next :
        {first t : F} {times : List F}
        → real.lt t first ≡ false
        → Rises last t times
        → Rises last first (t ∷ times)

  module _ (laws : OrderLaws real) where
    within-all :
        {last : F} (oldest : F) (times : List F) {first : F}
        → Rises last first times
        → real.lt first oldest ≡ false
        → within oldest times ≡ times
    within-all oldest [] r h = refl
    within-all oldest (t ∷ times) {first} (next up r) h =
        let fresh = laws.not_lt_trans t first oldest up h in
        rw fresh (ap (λ ts. t ∷ ts) (within-all oldest times r fresh))

    pub times_of-trim_deque :
        {last : F} (oldest : F) (d : Deque F) {first : F}
        → Rises last first (times_of d)
        → times_of (trim_deque real oldest d) ≡ within oldest (times_of d)
    unfolding trim_deque
    times_of-trim_deque oldest [] r = refl
    times_of-trim_deque oldest ((t, a) ∷ d) (next up r) = elim (Bool-cases (real.lt t oldest)) [
      | inl old ↦ rw old (times_of-trim_deque oldest d r)
      | inr fresh ↦ rw fresh (ap (λ ts. t ∷ ts) (sym (within-all oldest (times_of d) r fresh)))
    ]

    pub within-within :
        (old new : F) (times : List F)
        → real.lt new old ≡ false
        → within new (within old times) ≡ within new times
    within-within old new [] h = refl
    within-within old new (t ∷ times) h =
        ground (arith, within-within old new times h, laws.not_lt_trans t new old)

    lower :
        {last t first : F} (times : List F)
        → real.lt t first ≡ false
        → Rises last t times
        → Rises last first times
    lower {last} {t} {first} [] h (done up) = done (laws.not_lt_trans last t first up h)
    lower {last} {t} {first} (u ∷ times) h (next up r) = next (laws.not_lt_trans u t first up h) r

    pub within-Rises :
        {last : F} (oldest : F) (times : List F) {first : F}
        → Rises last first times
        → Rises last first (within oldest times)
    within-Rises oldest [] r = r
    within-Rises oldest (t ∷ times) (next up r) = elim (Bool-cases (real.lt t oldest)) [
      | inl old ↦ rw old (lower (within oldest times) up (within-Rises oldest times r))
      | inr fresh ↦ rw fresh (next up (within-Rises oldest times r))
    ]

    pub Rises-later :
        {last now : F} (times : List F) {first : F}
        → real.lt now last ≡ false
        → Rises last first times
        → Rises now first times
    Rises-later {last} {now} [] {first} h (done up) = done (laws.not_lt_trans now last first h up)
    Rises-later (t ∷ times) h (next up r) = next up (Rises-later times h r)

    pub Rises-append :
        {last now : F} (times : List F) {first : F}
        → real.lt now last ≡ false
        → Rises last first times
        → Rises now first (times ++ now ∷ [])
    Rises-append {last} {now} [] {first} h (done up) =
        next (laws.not_lt_trans now last first h up) (done (laws.lt_irrefl now))
    Rises-append (t ∷ times) h (next up r) = next up (Rises-append times h r)
