-- ===== src/Ledger/Upcast.antt =====
-- ledger/upcast.py: the registry of upcasters. An upcaster is a function on payloads of type `D`;
-- what it mutates is its own argument, which `upcast` has copied. Versions count up from 0.
pub mod Migration
pub mod Registration
use goderash.Common.{
  ℕ, zero, suc, ◌+◌, ◌-◌, max, String, str_eq, ◌&&◌, Option, none, some, List, [], ◌∷◌, Outcome,
  returned, raised, ltb, ◌==◌, if◌then◌else◌,
}

pub data UpcastError : Type 0 where
  not_one_step already_registered no_upcasters : UpcastError
  -- The version that no upcaster leads away from.
  missing_upcaster : ℕ → UpcastError

abbrev pub Upcaster : Type 0 → Type 0
Upcaster D = D → D

pub record UpcasterRegistry (D : Type 0) : Type 0 where
  -- `_by_event`, keyed by event type and version
  pub by_event : List (String × ℕ × Upcaster D)
  -- `_current_version`
  pub current_versions : List (String × ℕ)

-- `self._current_version.get(event_type)`
unfoldable pub version_of : String → List (String × ℕ) → Option ℕ
version_of e [] = none
version_of e ((k, v) ∷ rest) = if str_eq k e then some v else version_of e rest

abbrev pub or_default : Option ℕ → ℕ → ℕ
or_default none d = d
or_default (some v) d = v

-- `self._current_version[event_type] = …`
unfoldable pub set_version : String → ℕ → List (String × ℕ) → List (String × ℕ)
set_version e v [] = (e, v) ∷ []
set_version e v ((k, w) ∷ rest) =
    if str_eq k e then (k, v) ∷ rest else (k, w) ∷ set_version e v rest

module _ {D : Type 0} where
  -- `self._by_event.get((event_type, v))`
  unfoldable pub upcaster_at : String → ℕ → List (String × ℕ × Upcaster D) → Option (Upcaster D)
  upcaster_at e v [] = none
  upcaster_at e v ((k, w, fn) ∷ rest) =
      if str_eq k e && w == v then some fn else upcaster_at e v rest

  -- `register(…)(fn)`
  unfoldable pub register :
      ℕ → ℕ → String → Upcaster D → UpcasterRegistry D → Outcome UpcastError (UpcasterRegistry D)
  register from_version to_version event_type fn registry =
      if to_version == from_version + 1
      then elim (upcaster_at event_type from_version registry.by_event) [
        | some _ ↦ raised already_registered
        | none ↦
            let old = or_default (version_of event_type registry.current_versions) 0 in
            returned (record {
              by_event = (event_type, from_version, fn) ∷ registry.by_event;
              current_versions =
                  set_version event_type (max old to_version) registry.current_versions;
            })
      ]
      else raised not_one_step

  abbrev pub current_version : String → UpcasterRegistry D → ℕ
  current_version event_type registry =
      or_default (version_of event_type registry.current_versions) 1

  -- `while v < current_version`: the loop runs `current_version - v` times at most.
  unfoldable pub advance : ℕ → String → ℕ → D → UpcasterRegistry D → Outcome UpcastError D
  advance zero event_type v p registry = returned p
  advance (suc rounds) event_type v p registry = elim (upcaster_at event_type v registry.by_event) [
    | none ↦ raised (missing_upcaster v)
    | some fn ↦ advance rounds event_type (v + 1) (fn p) registry
  ]

  unfoldable pub upcast : String → ℕ → D → UpcasterRegistry D → Outcome UpcastError D
  upcast event_type from_version payload registry =
      elim (version_of event_type registry.current_versions) [
        | none ↦ raised no_upcasters
        | some current ↦ advance (current - from_version) event_type from_version payload registry
      ]
