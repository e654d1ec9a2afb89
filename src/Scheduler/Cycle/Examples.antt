-- ===== src/Scheduler/Cycle/Examples.antt =====
-- A cycle that ends, for a hash that is the first letter of the scheme.
use sub_manager_vpn.Scheduler.Cycle.Ended.{run_cycle-ends}
use sub_manager_vpn.Scheduler.Examples.{sample_config}
use sub_manager_vpn.State.Examples.{sample_db, node_at}
use sub_manager_vpn.State.Nodes.{upsert_row, upsert_node}
use sub_manager_vpn.Scheduler.Cycle.{collect_source, run_cycle, collect}
use sub_manager_vpn.Node.{Node}
use sub_manager_vpn.Scheduler.World.{Engine, World}
use sub_manager_vpn.Base.{
  arith, text_eq, true, one_of, refl, is_empty, drop, ◌<◌, ◌≡◌, none, codes, ◌+◌, some, [], ◌++◌,
  ◌∷◌, take, Option, length, Text, List,
}
use sub_manager_vpn.State.Nodes.Hashed.{upsert_node-IsHashed, IsHashing}
use sub_manager_vpn.State.Tables.{node_hash, Codec}

abbrev scheme_codec : Codec
scheme_codec = record {
  sha_hex = λ t. take 1 t;
  marshal = λ n. some (b'x' ∷ n.protocol);
  unmarshal = λ t. some (record (node_at (codes "a")) { protocol = drop 1 t });
}

first_same : (p s t : Text) → take 1 (p ++ b'|' ∷ s) ≡ take 1 (p ++ b'|' ∷ t)
first_same [] s t = refl
first_same (c ∷ p) s t = refl

scheme_codec-kept :
    (n : Node)
    → node_hash scheme_codec (record (node_at (codes "a")) { protocol = n.protocol })
      ≡ node_hash scheme_codec n
unfolding node_hash
scheme_codec-kept n = first_same n.protocol _ _

abbrev scheme_law : IsHashing scheme_codec
scheme_law = record {
  code = λ n. b'x' ∷ n.protocol;
  decoded = λ n. record (node_at (codes "a")) { protocol = n.protocol };
  marshalled = λ n. refl;
  filled = λ n. unfold is_empty in refl;
  unmarshalled = λ n. refl;
  kept = scheme_codec-kept;
}

-- A world with one row
abbrev one_row : World
one_row = record {
  db =
      upsert_node scheme_codec (λ n. n.name) (node_at (codes "a")) 1 5
        (record sample_db { nodes = [] });
  output = [];
}

abbrev fetched : List (Option (List Node))
fetched =
    some (node_at (codes "b") ∷ record (node_at (codes "b")) { protocol = codes "tuic" } ∷ [])
    ∷ none
    ∷ []

one_row-short : length (collect scheme_codec [] fetched) + length one_row.db.nodes < 8
unfolding collect collect_source node_hash one_of text_eq upsert_node upsert_row
one_row-short = omega arith

abbrev alive_engine : Engine
alive_engine =
    λ n. some record { alive = true; latency_ms = 20; speed_kbps = 0; egress_ip = codes "9.9.9.9" }

run_cycle-ends_example :
    (v : World) × (run_cycle scheme_codec
        (λ n. n.name)
        sample_config
        alive_engine
        (λ n. codes "DE")
        100
        (λ i. 100)
        8
        fetched
        one_row
      ≡ some v)
run_cycle-ends_example =
    run_cycle-ends scheme_codec scheme_law (λ n. n.name) sample_config alive_engine
      (λ n. codes "DE") 100 (λ i. 100) 8 fetched one_row
      (upsert_node-IsHashed scheme_codec scheme_law (λ n. n.name) (node_at (codes "a")) 1 5
        (record sample_db { nodes = [] }) tt)
      one_row-short
