-- ===== src/Api/Queries/Listing.antt =====
-- api/routes.py, api/orgs.py: which events the two listings show, and in which order.
use mathlib.Core.List.{Perm}
use mathlib.Core.List.Perm
use goderash.Common.{
  ℕ, String, str_eq, Bool, true, false, ◌&&◌, leb, ltb, ◌≡◌, Option, none, some, List, [], ◌∷◌, any,
}
use goderash.Ledger.Store.{EventRow}
use goderash.Database.{Database}

module _ {F : Type 0} where
  abbrev pub in_conversation : Option String → EventRow F → Bool
  in_conversation none r = true
  in_conversation (some c) r = str_eq r.conversation_id c

  abbrev pub not_before : Option ℕ → EventRow F → Bool
  not_before none r = true
  not_before (some t) r = leb t r.occurred_at

  abbrev pub not_after : Option ℕ → EventRow F → Bool
  not_after none r = true
  not_after (some t) r = leb r.occurred_at t

  -- The row is of the tenant, and passes every filter that is given.
  abbrev pub is_shown : String → Option String → Option ℕ → Option ℕ → EventRow F → Bool
  is_shown t conversation start end r =
      str_eq r.tenant_id t
      && in_conversation conversation r
      && not_before start r
      && not_after end r

  -- No row comes before one of a smaller number, or of a larger one.
  abbrev pub IsAscending : List (EventRow F) → Type 0
  IsAscending [] = Unit {0}
  IsAscending (r ∷ rows) =
      (any (λ s. ltb s.sequence_no r.sequence_no) rows ≡ false) × IsAscending rows

  abbrev pub IsDescending : List (EventRow F) → Type 0
  IsDescending [] = Unit {0}
  IsDescending (r ∷ rows) =
      (any (λ s. ltb r.sequence_no s.sequence_no) rows ≡ false) × IsDescending rows

  abbrev later_first : EventRow F → EventRow F → Bool
  later_first r s = leb s.sequence_no r.sequence_no
