-- ===== src/Packs/Counts.antt =====
-- The counters of packs/*.py.
use goderash.Common.{
  ℕ, ◌+◌, String, str_eq, eq_iff, ◌≡◌, ◌∙◌, List, [], ◌∷◌, keep, length, arith, if◌then◌else◌,
}
use goderash.Packs.{count_one, counter_from, counter, count_at}

abbrev pub total : List (String × ℕ) → ℕ
total [] = 0
total ((k, n) ∷ rest) = n + total rest

count_at-count_one :
    (key k : String) (counts : List (String × ℕ))
    → count_at k (count_one key counts)
      ≡ (if str_eq key k then count_at k counts + 1 else count_at k counts)
unfolding count_at count_one
count_at-count_one key k [] = ground arith
count_at-count_one key k ((j, n) ∷ counts) =
    ground (arith, eq_iff key k, eq_iff j key, eq_iff j k, count_at-count_one key k counts)

total-count_one :
    (key : String) (counts : List (String × ℕ)) → total (count_one key counts) ≡ total counts + 1
unfolding count_one
total-count_one key [] = omega arith
total-count_one key ((j, n) ∷ counts) = ground (arith, total-count_one key counts)

count_at-counter_from :
    (k : String) (keys : List String) (counts : List (String × ℕ))
    → count_at k (counter_from counts keys)
      ≡ count_at k counts + length (keep (λ key. str_eq key k) keys)
unfolding counter_from
count_at-counter_from k [] counts = omega arith
count_at-counter_from k (key ∷ keys) counts =
    ground
      (arith, count_at-counter_from k keys (count_one key counts), count_at-count_one key k counts)

total-counter_from :
    (keys : List String) (counts : List (String × ℕ))
    → total (counter_from counts keys) ≡ total counts + length keys
unfolding counter_from
total-counter_from [] counts = omega arith
total-counter_from (key ∷ keys) counts =
    omega (arith, total-counter_from keys (count_one key counts), total-count_one key counts)

-- A counter of any list of names: for every name it holds how often the name occurs (0 where there
-- is no entry), and its entries add up to the length of the list.
pub counter-counts :
    (k : String) (keys : List String)
    → (count_at k (counter keys) ≡ length (keep (λ key. str_eq key k) keys))
      × (total (counter keys) ≡ length keys)
unfolding count_at
counter-counts k keys =
    (count_at-counter_from k keys [] ∙ omega arith, total-counter_from keys [] ∙ omega arith)
