-- ===== src/State/Queries.antt =====
-- The queries that join the tables.
use sub_manager_vpn.State.Nodes.{partial_node, stored_node_with}
use sub_manager_vpn.Base.Sort.{stable_sort}
use sub_manager_vpn.State.Subscription.{list_subscription}
use sub_manager_vpn.State.Results.{latest_result}
use sub_manager_vpn.Node.{Node}
use sub_manager_vpn.Select.Defs.{Candidate}
use sub_manager_vpn.Base.{
  ◌||◌, one_of, not, [], ◌&&◌, text_eq, some, ltb, false, ◌∷◌, none, filter, take, map, Bool, Text,
  List, ℕ,
}
use sub_manager_vpn.State.Tables.{row_of, SubscriptionRow, NodeRow, Db, Codec}

-- `ListNodesChunk`
unfoldable pub list_nodes_chunk : ℕ → ℕ → Db → List NodeRow
list_nodes_chunk after limit db =
    take limit (stable_sort (λ a b. ltb a.id b.id) (filter (λ r. ltb after r.id) db.nodes))

-- The join with the newest result: is it there and alive?
unfoldable pub alive_now : Db → NodeRow → Bool
alive_now db r = elim (latest_result r.id db) [ none ↦ false | some s ↦ s.alive ]

unfoldable pub latency_now : Db → NodeRow → ℕ
latency_now db r = elim (latest_result r.id db) [ none ↦ 0 | some s ↦ s.latency_ms ]

-- `AliveNodeHashes`
unfoldable pub alive_node_hashes : Db → List Text
alive_node_hashes db = map (λ r. r.hash) (filter (alive_now db) db.nodes)

module _ (codec : Codec) where
  -- A node of the pool with the country of its row.
  unfoldable pub candidate_of : Db → NodeRow → Candidate
  candidate_of db r = record {
    node =
        stored_node_with codec (λ n. record n { country = r.country }) r
          (let p = partial_node codec r in record p { source = [] });
    latency_ms = latency_now db r;
    country = r.country;
    hash = [];
  }

  -- `CommonAliveSameCountry`
  unfoldable pub common_alive_same_country : Text → List Text → List Text → Db → List Candidate
  common_alive_same_country country ex_countries ex_protocols db = map (candidate_of db) (
      filter
        (λ r.
          text_eq r.country country
          && (alive_now db r
              && not (one_of ex_countries r.country || one_of ex_protocols r.protocol)))
        db.nodes)

  -- A member is served under the normalised name and with the country of its row.
  unfoldable pub member_node : NodeRow → Node
  member_node r =
      stored_node_with codec (λ n. record n { country = r.country; name = r.norm_name }) r
        (partial_node codec r)

  unfoldable pub joined : Db → List SubscriptionRow → List NodeRow
  joined db [] = []
  joined db (s ∷ subs) = elim (row_of s.node_id db.nodes) [
    | none ↦ joined db subs
    | some r ↦ r ∷ joined db subs
  ]

  -- `SubscriptionMemberNodes`
  unfoldable pub subscription_member_nodes : Db → List Node
  subscription_member_nodes db = map member_node (joined db (list_subscription db))
