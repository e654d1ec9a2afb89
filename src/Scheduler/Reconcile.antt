-- ===== src/Scheduler/Reconcile.antt =====
-- How a selection becomes the subscription. One `now` stands for the readings of the clock.
pub mod Exact
use sub_manager_vpn.Scheduler.Serve.{regenerate_subs}
use sub_manager_vpn.Base.Map.{keys, lookup_or}
use sub_manager_vpn.Base.Int.{pos_part, not_positive}
use sub_manager_vpn.Base.Sort.{stable_sort}
use sub_manager_vpn.State.Nodes.{partial_node}
use sub_manager_vpn.Base.Chunks.{each}
use sub_manager_vpn.State.Queries.{latency_now, alive_now}
use sub_manager_vpn.State.Subscription.{remove_subscription, add_subscription, list_subscription}
use sub_manager_vpn.Base.{
  is_nil, one_of, length, not, filter, false, ◌==◌, ltb, [], ◌&&◌, map, if◌then◌else◌, Text, Bool,
  ℕ, List,
}
use sub_manager_vpn.Select.Defs.{select, by_country, Candidate}
use sub_manager_vpn.Scheduler.World.{World, Config}
use sub_manager_vpn.State.Tables.{node_hash, NodeRow, Db, Codec}

module _ (codec : Codec) (config : Config) where
  -- Neither banned nor slower than `MaxPingMs`.
  unfoldable pub accepted : Candidate → Bool
  accepted c =
      if config.is_banned (node_hash codec c.node)
      then false
      else not
          (not (not_positive config.max_ping_ms) && ltb (pos_part config.max_ping_ms) c.latency_ms)

  unfoldable pub accepted_hashes : List Candidate → List Text
  accepted_hashes selected = map (λ c. node_hash codec c.node) (filter accepted selected)

  -- Adds the accepted ones, and removes the old members that were not, unless nothing was selected.
  unfoldable pub reconcile : List Candidate → ℕ → Db → Db
  reconcile selected now db =
      let members = list_subscription db in
      let sel = accepted_hashes selected in
      let added = each (λ h. add_subscription h now) sel db in
      if is_nil selected
      then added
      else each (λ m d. if one_of sel m.node_id then d else remove_subscription m.node_id d) members
          added

  -- The candidate that `SeedSubscription` makes of a row.
  unfoldable pub seed_candidate : Db → NodeRow → Candidate
  seed_candidate db r = record {
    node = let p = partial_node codec r in record p { source = [] };
    latency_ms = latency_now db r;
    country = r.country;
    hash = r.hash;
  }

  -- The rows that it may take.
  unfoldable pub seedable : Db → NodeRow → Bool
  seedable db r = alive_now db r && not (config.is_banned r.hash)

  -- `SeedSubscription`; the countries in the order they are first met.
  unfoldable pub seed_subscription : ℕ → World → World
  seed_subscription now w =
      let rows = stable_sort (λ a b. ltb a.id b.id) w.db.nodes in
      let m = by_country [] (map (seed_candidate w.db) (filter (seedable w.db) rows)) in
      let add_group : Text → Db → Db = λ k db.
        each (λ c. add_subscription c.hash now) (select (lookup_or [] k m) config.top_n) db in
      regenerate_subs codec config (record w { db = each add_group (keys m) w.db })
