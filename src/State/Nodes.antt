-- ===== src/State/Nodes.antt =====
-- The operations on `nodes`: inserting, refreshing, and reading a node back.
pub mod Laws
pub mod Keys
pub mod Stored
pub mod Hashed
use sub_manager_vpn.Node.{Node}
use sub_manager_vpn.Base.{
  ◌+◌, text_eq, map, ◌∷◌, some, is_empty, ℕ, none, if◌then◌else◌, [], Option, List, Text,
}
use sub_manager_vpn.State.Tables.{max_id, row_of, node_hash, NodeRow, Db, Codec}

-- `INSERT … ON CONFLICT(hash) DO UPDATE`: `refresh` writes the excluded values over the old row.
unfoldable pub upsert_row : Text → (NodeRow → NodeRow) → NodeRow → List NodeRow → List NodeRow
upsert_row h refresh new [] = new ∷ []
upsert_row h refresh new (r ∷ rows) =
    if text_eq r.hash h then refresh r ∷ rows else r ∷ upsert_row h refresh new rows

module _ (codec : Codec) (norm_name : Node → Text) where
  -- `nb`: an error of the marshaller stores nothing.
  unfoldable pub json_of : Node → Text
  json_of n = elim (codec.marshal n) [ none ↦ [] | some t ↦ t ]

  unfoldable pub new_row : Node → Text → ℕ → ℕ → ℕ → NodeRow
  new_row n country cycle now id = record {
    id = id;
    hash = node_hash codec n;
    protocol = n.protocol;
    host = n.host;
    port = n.port;
    name = n.name;
    source = n.source;
    country = country;
    added_at = now;
    last_seen_cycle = cycle;
    speed_kbps = 0;
    norm_name = norm_name n;
    node_json = json_of n;
  }

  -- The columns that both statements update.
  unfoldable pub refreshed : Node → ℕ → NodeRow → NodeRow
  refreshed n cycle r = record r {
    last_seen_cycle = cycle;
    protocol = n.protocol;
    host = n.host;
    port = n.port;
    name = n.name;
    source = n.source;
    norm_name = norm_name n;
    node_json = json_of n;
  }

  -- `UpsertNode`: the country of an old row stays.
  unfoldable pub upsert_node : Node → ℕ → ℕ → Db → Db
  unfolding upsert_row new_row refreshed
  upsert_node n cycle now db = record db {
    nodes =
        upsert_row (node_hash codec n) (refreshed n cycle)
          (new_row n [] cycle now (max_id db.nodes + 1)) db.nodes;
  }

  -- `UpsertNodeWithCountry`: the cycle is the one in `meta`, and the country is written too.
  unfoldable pub upsert_node_with_country : Node → Text → ℕ → Db → Db
  unfolding upsert_row new_row refreshed
  upsert_node_with_country n country now db =
      let cycle : ℕ = elim db.cycle [ none ↦ 0 | some c ↦ c ] in
      record db {
        nodes =
            upsert_row (node_hash codec n)
              (λ r. let r' = refreshed n cycle r in record r' { country = country })
              (new_row n country cycle now (max_id db.nodes + 1)) db.nodes;
      }

module _ (codec : Codec) where
  -- What `NodeByHash` and `NodeRow.Node` fall back to.
  unfoldable pub partial_node : NodeRow → Node
  partial_node r = record {
    protocol = r.protocol;
    host = r.host;
    port = r.port;
    security = [];
    encryption = [];
    flow = [];
    network = [];
    user = r.name;
    extra = [];
    plugin = [];
    name = r.name;
    raw = [];
    source = r.source;
    country = r.country;
    egress_ip = [];
  }

  -- The stored node with the changes of the caller, if its JSON can be read.
  unfoldable pub stored_node_with : (Node → Node) → NodeRow → Node → Node
  stored_node_with change r fallback =
      if is_empty r.node_json
      then fallback
      else elim (codec.unmarshal r.node_json) [ none ↦ fallback | some n ↦ change n ]

  unfoldable pub stored_node : NodeRow → Node → Node
  unfolding stored_node_with
  stored_node r fallback = stored_node_with (λ n. n) r fallback

  -- `NodeByHash`; `none` is the error
  unfoldable pub node_by_hash : Text → Db → Option Node
  unfolding stored_node partial_node
  node_by_hash h db = elim (row_of h db.nodes) [
    | none ↦ none
    | some r ↦ some (stored_node r (partial_node r))
  ]

  -- `NodeRow.Node`: this fallback has no source.
  unfoldable pub row_node : NodeRow → Node
  unfolding stored_node partial_node
  row_node r = stored_node r (let p = partial_node r in record p { source = [] })

-- `SetCountry`; `none` is the error that no row was changed
unfoldable pub set_country : Text → Text → Db → Option Db
set_country h country db = elim (row_of h db.nodes) [
  | none ↦ none
  | some r ↦ some (record db {
    nodes = map (λ r. if text_eq r.hash h then record r { country = country } else r) db.nodes;
  })
]

-- `NodeID`; `none` is the error
unfoldable pub node_id : Text → Db → Option ℕ
node_id h db = elim (row_of h db.nodes) [ none ↦ none | some r ↦ some r.id ]
