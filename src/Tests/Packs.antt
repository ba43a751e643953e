-- ===== src/Tests/Packs.antt =====
-- Evidence packs: runs, and the theorems about them.
use goderash.Common.{
  ℕ, suc, ◌<◌, String, str_eq, ◌≡◌, ◌⊎◌, refl, false, none, some, List, [], ◌∷◌, map, length, take,
  returned, raised,
}
use goderash.Json.{Json}
use goderash.Ledger.Chain.{genesis_prev_hash, compute_hash}
use goderash.Ledger.Chain.Verdict.{IsIntact}
use goderash.Ledger.Store.{row_of}
use goderash.Events.Dump.{model_dump}
use goderash.Packs.{
  PackGenerator, Artifact, Regulation, chain_broken, link_of, collect, build, counter, counter_from,
  count_one,
}
use goderash.Packs.Controls.{render_controls}
use goderash.Packs.Build.{window, build-IsIntact}
use goderash.Tests.Sample.{toy}
use goderash.Tests.Ledger.{r2, table}

abbrev no_str : Json ℕ → String
no_str v = ""

abbrev pack_from : ℕ → PackGenerator ℕ
pack_from start = record {
  regulation = Regulation.soc2;
  tenant_id = "acme";
  start = start;
  end = 200;
  events = [];
  chain_ok = false;
  chain_broken_at = none;
}

abbrev kinds : List String
kinds = "permission.granted" ∷ "permission.denied" ∷ "permission.granted" ∷ []

counter-kinds : counter kinds ≡ ("permission.granted", 2) ∷ ("permission.denied", 1) ∷ []
unfolding counter_from count_one
counter-kinds = refl

build-IsIntact_example :
    ((artifact : Artifact ℕ) × (build (render_controls no_str) (collect toy (pack_from 0) table)
        ≡ returned artifact)
      × (artifact.events ≡ window toy (render_controls no_str) (pack_from 0) table)
      × (artifact.event_count ≡ length (window toy (render_controls no_str) (pack_from 0) table))
      × IsIntact toy genesis_prev_hash
          (map (link_of toy) (window toy (render_controls no_str) (pack_from 0) table)))
    ⊎ ((k : ℕ) × (build (render_controls no_str) (collect toy (pack_from 0) table)
          ≡ raised (chain_broken (some k)))
        × (k < length (map (link_of toy) (window toy (render_controls no_str) (pack_from 0) table)))
        × IsIntact toy genesis_prev_hash
            (take k (map (link_of toy) (window toy (render_controls no_str) (pack_from 0) table)))
        × ¬ IsIntact toy genesis_prev_hash (
            take
              (suc k)
              (map (link_of toy) (window toy (render_controls no_str) (pack_from 0) table))))
build-IsIntact_example = build-IsIntact toy (render_controls no_str) (pack_from 0) table

r2-not_genesis : str_eq r2.prev_hash genesis_prev_hash ≡ false
unfolding row_of compute_hash model_dump
r2-not_genesis = refl
