-- ===== src/Tests/Upcast.antt =====
-- The upcaster registry: runs, and the theorems about it.
use goderash.Common.{
  ℕ, ◌+◌, ◌≤◌, ◌<◌, max, String, str_eq, eq_iff, ◌==◌, ◌&&◌, ◌≡◌, ◌⊎◌, refl, none, some, [], ◌∷◌,
  returned, raised, arith, if◌then◌else◌,
}
use goderash.Ledger.Upcast.{
  UpcasterRegistry, no_upcasters, missing_upcaster, not_one_step, version_of, set_version,
  upcaster_at, advance, register, upcast,
}
use goderash.Ledger.Upcast.Migration.{Migrates, upcast-Migrates}
use goderash.Ledger.Upcast.Registration.{IsValid, register-IsValid}

-- Versions 1 and 2 of "tool_failed" have upcasters, which leave a mark on the number.
abbrev empty : UpcasterRegistry ℕ
empty = record { by_event = []; current_versions = [] }

abbrev first : UpcasterRegistry ℕ
first = record {
  by_event = ("tool_failed", 1, λ n. n + 10) ∷ [];
  current_versions = ("tool_failed", 2) ∷ [];
}

abbrev both : UpcasterRegistry ℕ
both = record {
  by_event = ("tool_failed", 2, λ n. n + 100) ∷ ("tool_failed", 1, λ n. n + 10) ∷ [];
  current_versions = ("tool_failed", 3) ∷ [];
}

register-first : register 1 2 "tool_failed" (λ n. n + 10) empty ≡ returned first
unfolding register version_of set_version upcaster_at
register-first = refl

second_registered : register 2 3 "tool_failed" (λ n. n + 100) first ≡ returned both
unfolding register version_of set_version upcaster_at
second_registered = refl

register_jump : register 1 3 "tool_failed" (λ n. n) empty ≡ raised not_one_step
unfolding register
register_jump = refl

upcast-both : upcast "tool_failed" 1 5 both ≡ returned 115
unfolding upcast advance version_of upcaster_at
upcast-both = refl

upcast_gap : upcast "tool_failed" 0 5 both ≡ raised (missing_upcaster 0)
unfolding upcast advance version_of upcaster_at
upcast_gap = refl

first-IsValid : IsValid first
unfolding upcaster_at version_of
first-IsValid = record {
  within = λ e w fn found. (2, ground (arith, eq_iff "tool_failed" e), ground arith);
  reached = λ e current known. (1, (λ n. n + 10), ground arith, ground arith);
}

register-IsValid_example :
    (3 ≡ 2 + 1)
    × IsValid both
    × (upcaster_at "tool_failed" 2 first.by_event ≡ none)
    × ((k : String) (w : ℕ)
        → upcaster_at k w both.by_event ≡ (
            if str_eq "tool_failed" k && 2 == w
            then some (λ n. n + 100)
            else upcaster_at k w first.by_event))
register-IsValid_example =
    register-IsValid 2 3 "tool_failed" (λ n. n + 100) first both first-IsValid second_registered

upcast-Migrates_example :
    ((version_of "tool_failed" both.current_versions ≡ none)
      × (upcast "tool_failed" 1 5 both ≡ raised no_upcasters))
    ⊎ ((current : ℕ) × (version_of "tool_failed" both.current_versions ≡ some current)
        × (((q : ℕ) × (upcast "tool_failed" 1 5 both ≡ returned q)
              × Migrates both "tool_failed" 1 5 (max 1 current) q)
            ⊎ ((w : ℕ) × (q : ℕ) × (upcast "tool_failed" 1 5 both ≡ raised (missing_upcaster w))
                × (1 ≤ w)
                × (w < current)
                × (upcaster_at "tool_failed" w both.by_event ≡ none)
                × Migrates both "tool_failed" 1 5 w q)))
upcast-Migrates_example = upcast-Migrates both "tool_failed" 1 5
