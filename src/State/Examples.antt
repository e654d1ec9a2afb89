-- ===== src/State/Examples.antt =====
-- Runs of the database and the theorems at concrete rows.
use sub_manager_vpn.State.Results.{record_results_batch, BatchResult}
use sub_manager_vpn.State.Results.Batch.{
  record_results_batch-IsExtended, samples_of, results_of, IsExtended,
}
use sub_manager_vpn.State.Retention.Kept.{prune_keeps}
use mathlib.Core.List.{flat_map}
use mathlib.Core.Path.{subst}
use sub_manager_vpn.State.Subscription.{prune_orphan_subs}
use sub_manager_vpn.Base.Int.{pos, decimal, itoa}
use sub_manager_vpn.State.Retention.Alive.{prune-IsAlive, IsAlive}
use sub_manager_vpn.Node.{vless, Node}
use sub_manager_vpn.State.Retention.{
  delete_node, last_alive, is_dead, dead_node_ids, prune_dead, prune_ttl, earlier, precedes,
  no_later, keep_ranked, prune_samples, prune_days, default_retention, validate, prune,
}
use sub_manager_vpn.State.Nodes.{upsert_node, node_by_hash}
use sub_manager_vpn.Base.{
  List, arith, inl, Occurs, map, is_empty, refl, if◌then◌else◌, sym, [], ◌*◌, ◌∷◌, true, false, ap,
  ◌≡◌, some, codes, Bool, All, ℕ, text_eq, Text,
}
use sub_manager_vpn.State.Nodes.Stored.{upsert_node-row_of, node_by_hash-upsert_node, IsLossless}
use sub_manager_vpn.State.Nodes.Keys.{IsKeyed}
use sub_manager_vpn.State.Tables.{
  get_source_meta-set_source_meta, set_source_meta, ResultRow, row_of, node_hash, SubscriptionRow,
  get_source_meta, NodeRow, Db, Codec,
}

abbrev pub node_at : Text → Node
node_at h = record {
  protocol = vless;
  host = h;
  port = pos 443;
  security = codes "tls";
  encryption = [];
  flow = [];
  network = [];
  user = codes "u";
  extra = [];
  plugin = [];
  name = [];
  raw = [];
  source = [];
  country = [];
  egress_ip = [];
}

-- A node's code is its host, and a digest is the text itself.
abbrev pub host_codec : Codec
host_codec = record {
  sha_hex = λ t. t;
  marshal = λ n. some n.host;
  unmarshal = λ t. some (node_at t);
}

abbrev pub row_at : ℕ → Text → ℕ → NodeRow
row_at i h seen = record {
  id = i;
  hash = node_hash host_codec (node_at h);
  protocol = vless;
  host = h;
  port = pos 443;
  name = [];
  source = [];
  country = codes "DE";
  added_at = 5;
  last_seen_cycle = seen;
  speed_kbps = 7;
  norm_name = [];
  node_json = h;
}

abbrev pub result_at : ℕ → Bool → ℕ → ℕ → ResultRow
result_at i alive latency cycle = record {
  node_id = i;
  alive = alive;
  latency_ms = latency;
  speed_kbps = 0;
  checked_at = cycle * 100;
  cycle_id = cycle;
}

abbrev pub member_at : Text → ℕ → SubscriptionRow
member_at h added = record {
  node_id = node_hash host_codec (node_at h);
  added_at = added;
  valid_checked_at = 0;
  ping_latency_ms = 0;
  ping_checked_at = 0;
}

-- Node `a` lives, `b` was last alive long ago, and `c` was never.
abbrev pub sample_db : Db
sample_db = record {
  nodes = row_at 1 (codes "a") 99 ∷ row_at 2 (codes "b") 99 ∷ row_at 3 (codes "c") 99 ∷ [];
  results =
      result_at 1 true 20 99
      ∷ result_at 2 true 30 1
      ∷ result_at 2 false 0 99
      ∷ result_at 3 false 0 98
      ∷ [];
  history = [];
  subscription = member_at (codes "b") 1 ∷ member_at (codes "a") 2 ∷ [];
  source_meta = [];
  cycle = some 99;
}

-- A pruning at cycle 100 leaves node `a` alone.
prune_sample : map (λ r. r.id) (prune default_retention 100 10000 sample_db).nodes ≡ 1 ∷ []
unfolding prune validate prune_days prune_samples keep_ranked no_later precedes earlier prune_ttl
    prune_dead dead_node_ids is_dead last_alive delete_node prune_orphan_subs
prune_sample = refl

host_codec-IsLossless : IsLossless host_codec (node_at (codes "a"))
host_codec-IsLossless = record {
  unmarshal-marshal = λ t e.
      let same : codes "a" ≡ t = cc in
      (
        ap (λ x. some (node_at x)) (sym same),
        subst (λ x. is_empty x ≡ false) same (unfold is_empty in refl),
      );
}

node_by_hash-upsert_node_example :
    node_by_hash host_codec
      (node_hash host_codec (node_at (codes "a")))
      (upsert_node host_codec (λ n. n.name) (node_at (codes "a")) 100 9 sample_db)
    ≡ some (node_at (codes "a"))
node_by_hash-upsert_node_example =
    node_by_hash-upsert_node host_codec (λ n. n.name) (node_at (codes "a")) (codes "a") 100 9
      sample_db host_codec-IsLossless refl

upsert_node-row_of_example :
    ((q : NodeRow) × ((row_of
            (node_hash host_codec (node_at (codes "a")))
            (upsert_node host_codec (λ n. n.name) (node_at (codes "a")) 100 9 sample_db).nodes
          ≡ some q)
        × ((q.id ≡ 1)
            × ((q.country ≡ codes "DE")
                × ((q.added_at ≡ 5) × ((q.speed_kbps ≡ 7) × (q.last_seen_cycle ≡ 100)))))))
    × ((h : Text)
        → text_eq (node_hash host_codec (node_at (codes "a"))) h ≡ false
        → row_of h
            (upsert_node host_codec (λ n. n.name) (node_at (codes "a")) 100 9 sample_db).nodes
          ≡ row_of h sample_db.nodes)
unfolding node_hash itoa row_of text_eq
upsert_node-row_of_example =
    upsert_node-row_of host_codec (λ n. n.name) (node_at (codes "a")) 100 9 sample_db
      (row_at 1 (codes "a") 99) refl

sample_db-IsKeyed : IsKeyed sample_db.nodes
unfolding text_eq node_hash itoa decimal
sample_db-IsKeyed = (((refl, refl), ((refl, refl), tt)), (((refl, refl), tt), (tt, tt)))

prune-IsAlive_example :
    All
      (IsAlive 84 100 (prune default_retention 100 10000 sample_db).results)
      (prune default_retention 100 10000 sample_db).nodes
unfolding validate
prune-IsAlive_example = prune-IsAlive default_retention 100 10000 sample_db refl

abbrev sample_rows : List BatchResult
sample_rows =
    record {
      hash = node_hash host_codec (node_at (codes "a"));
      alive = true;
      latency_ms = 9;
      speed_kbps = 8;
    }
    ∷ record { hash = codes "gone"; alive = true; latency_ms = 9; speed_kbps = 8 }
    ∷ []

record_results_batch-IsExtended_example :
    IsExtended
      (flat_map (results_of 100 10000 sample_db) sample_rows)
      (flat_map (samples_of 100 10000 sample_db) sample_rows)
      sample_db
      (record_results_batch 100 (λ _. 10000) sample_rows sample_db)
record_results_batch-IsExtended_example =
    record_results_batch-IsExtended 100 10000 sample_rows sample_db

get_source_meta-set_source_meta_example :
    get_source_meta (codes "u") (
      set_source_meta
        (codes "u")
        (record { etag = codes "e"; last_modified = []; body_sha = [] })
        sample_db)
    ≡ (if text_eq (codes "u") (codes "u")
        then some (record { etag = codes "e"; last_modified = []; body_sha = [] })
        else get_source_meta (codes "u") sample_db)
get_source_meta-set_source_meta_example =
    get_source_meta-set_source_meta (codes "u") (codes "u")
      (record { etag = codes "e"; last_modified = []; body_sha = [] }) sample_db

prune_keeps_example :
    Occurs (row_at 1 (codes "a") 99) (prune default_retention 100 10000 sample_db).nodes
unfolding validate prune_samples prune_days keep_ranked no_later precedes earlier
prune_keeps_example =
    prune_keeps default_retention 100 10000 sample_db (row_at 1 (codes "a") 99) sample_db-IsKeyed
      (inl refl) (omega arith) (result_at 1 true 20 99, inl refl, refl, refl, omega arith)
