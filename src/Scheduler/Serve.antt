-- ===== src/Scheduler/Serve.antt =====
-- `regenerateSubs`, the only writer of the output directory.
pub mod Served
use sub_manager_vpn.State.Results.{latest_result}
use sub_manager_vpn.State.Nodes.{node_id}
use sub_manager_vpn.Select.Defs.{cap_per_country, Candidate}
use sub_manager_vpn.State.Queries.{subscription_member_nodes}
use sub_manager_vpn.Node.{Node}
use sub_manager_vpn.Base.{[], some, none, if◌then◌else◌, ◌∷◌, ℕ, map, Option, Text, List}
use sub_manager_vpn.Scheduler.World.{persist, World, Config}
use sub_manager_vpn.State.Tables.{node_hash, Db, Codec}

module _ (codec : Codec) (config : Config) where
  -- The latency a member is sorted by; `none` if its newest result is dead.
  unfoldable pub served_latency : Db → Text → Option ℕ
  served_latency db h = elim (node_id h db) [
    | none ↦ some 0
    | some id ↦ elim (latest_result id db) [
      | none ↦ some 0
      | some r ↦ if r.alive then some r.latency_ms else none
    ]
  ]

  unfoldable pub served : Db → Node → Option Candidate
  served db n =
      let h = node_hash codec n in
      if config.is_banned h then none else elim (served_latency db h) [
        | none ↦ none
        | some latency ↦
            some record { node = n; latency_ms = latency; country = n.country; hash = [] }
      ]

  unfoldable pub served_candidates : Db → List Node → List Candidate
  served_candidates db [] = []
  served_candidates db (n ∷ nodes) = elim (served db n) [
    | none ↦ served_candidates db nodes
    | some c ↦ c ∷ served_candidates db nodes
  ]

  unfoldable pub regenerate_subs : World → World
  regenerate_subs w =
      let cands = served_candidates w.db (subscription_member_nodes codec w.db) in
      persist config.min_keep (map (λ c. c.node) (cap_per_country cands config.sub_top_n)) w
