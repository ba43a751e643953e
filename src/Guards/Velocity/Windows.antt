-- ===== src/Guards/Velocity/Windows.antt =====
-- goderash_sdk/guards/velocity.py: what pushing and trimming do to the deque of a key.
use goderash.Common.{String, str_eq, eq_iff, ◌≡◌, refl, [], ◌∷◌, ◌++◌, arith, if◌then◌else◌}
use goderash.Real.{Real}
use goderash.Guards.Velocity.{Events, deque_of, push, trim_deque, trim}

module _ {F : Type 0} (real : Real F) where
  pub deque_of-push :
      (key k : String) (e : F × F) (events : Events F)
      → deque_of k (push key e events)
        ≡ (if str_eq key k then deque_of k events ++ e ∷ [] else deque_of k events)
  unfolding deque_of push
  deque_of-push key k e [] = refl
  deque_of-push key k e ((j, d) ∷ events) =
      ground (arith, eq_iff key k, eq_iff j key, eq_iff j k, deque_of-push key k e events)

  pub deque_of-trim :
      (key : String) (oldest : F) (events : Events F)
      → deque_of key (trim real key oldest events) ≡ trim_deque real oldest (deque_of key events)
  unfolding deque_of trim trim_deque
  deque_of-trim key oldest [] = refl
  deque_of-trim key oldest ((j, d) ∷ events) = ground (arith, deque_of-trim key oldest events)
