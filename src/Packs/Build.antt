-- ===== src/Packs/Build.antt =====
-- packs/base.py: when a pack is built.
use goderash.Common.{
  ℕ, suc, ◌<◌, ◌≡◌, refl, ◌⊎◌, inl, inr, none, some, List, map, length, take, returned, raised,
}
use goderash.Json.{Fields}
use goderash.Ledger.Chain.{Hasher, genesis_prev_hash}
use goderash.Ledger.Chain.Verdict.{IsIntact, verify_chain-Verdict}
use goderash.Ledger.Store.{EventRow, iter_tenant}
use goderash.Packs.{PackGenerator, Artifact, Regulation, chain_broken, link_of, collect, build}

module _ {F : Type 0} (hs : Hasher (Fields F))
    (render : Regulation → List (EventRow F) → Fields F) where
  abbrev pub window : PackGenerator F → List (EventRow F) → List (EventRow F)
  window pack db = iter_tenant pack.tenant_id (some pack.start) (some pack.end) none db

  -- Collecting and building a pack ends in one of two ways: an artifact with the events of the
  -- window, which are an intact chain from genesis; or the error with a position k of the window,
  -- such that its first k events are an intact chain from genesis and its first k + 1 are not.
  pub build-IsIntact :
      (pack : PackGenerator F) (db : List (EventRow F))
      → ((artifact : Artifact F) × (build render (collect hs pack db) ≡ returned artifact)
          × (artifact.events ≡ window pack db)
          × (artifact.event_count ≡ length (window pack db))
          × IsIntact hs genesis_prev_hash (map (link_of hs) (window pack db)))
        ⊎ ((k : ℕ) × (build render (collect hs pack db) ≡ raised (chain_broken (some k)))
            × (k < length (map (link_of hs) (window pack db)))
            × IsIntact hs genesis_prev_hash (take k (map (link_of hs) (window pack db)))
            × ¬ IsIntact hs genesis_prev_hash (take (suc k) (map (link_of hs) (window pack db))))
  unfolding build collect
  build-IsIntact pack db = elim (verify_chain-Verdict hs (map (link_of hs) (window pack db))) [
    | inl (accepts, intact) ↦ inl (
      record {
        regulation = pack.regulation;
        tenant_id = pack.tenant_id;
        start = pack.start;
        end = pack.end;
        event_count = length (window pack db);
        controls = render pack.regulation (window pack db);
        events = window pack db;
      },
      rw accepts refl,
      refl,
      refl,
      intact,
    )
    | inr (k, rejects, lt, before, not_after) ↦ inr (k, rw rejects refl, lt, before, not_after)
  ]
