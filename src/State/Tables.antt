-- ===== src/State/Tables.antt =====
-- The tables of the migrations, and the code outside the repository that the rows depend on.
use sub_manager_vpn.Base.Int.{itoa, ℤ}
use sub_manager_vpn.Base.Map.{lookup-insert, lookup, insert, Map}
use sub_manager_vpn.Node.{Node}
use sub_manager_vpn.Base.{
  text_eq, ltb, ◌+◌, some, if◌then◌else◌, find, ◌∷◌, ◌≡◌, none, codes, Option, Bool, ◌++◌, ℕ, [],
  Text, List,
}

-- The hex of SHA-256, and encoding/json for a node. `none` is an error.
pub record Codec : Type 0 where
  pub sha_hex : Text → Text
  pub marshal : Node → Option Text
  pub unmarshal : Text → Option Node

abbrev bar : Text
bar = codes "|"

-- `nodeHash`
unfoldable pub node_hash : Codec → Node → Text
node_hash codec n = codec.sha_hex (
    n.protocol
    ++ (bar
        ++ (n.host
            ++ (bar
                ++ (itoa n.port
                    ++ (bar ++ (n.user ++ (bar ++ (n.security ++ (bar ++ n.encryption))))))))))

pub record SourceMeta : Type 0 where
  pub etag : Text
  pub last_modified : Text
  pub body_sha : Text

-- A row of `nodes`.
pub record NodeRow : Type 0 where
  pub id : ℕ
  pub hash : Text
  pub protocol : Text
  pub host : Text
  pub port : ℤ
  pub name : Text
  pub source : Text
  pub country : Text
  pub added_at : ℕ
  pub last_seen_cycle : ℕ
  pub speed_kbps : ℕ
  pub norm_name : Text
  pub node_json : Text

-- A row of `results`.
pub record ResultRow : Type 0 where
  pub node_id : ℕ
  pub alive : Bool
  pub latency_ms : ℕ
  pub speed_kbps : ℕ
  pub checked_at : ℕ
  pub cycle_id : ℕ

-- A row of `history`.
pub record HistoryRow : Type 0 where
  pub node_id : ℕ
  pub latency_ms : ℕ
  pub checked_at : ℕ
  pub cycle_id : ℕ

-- `node_id` is the hash of the node.
pub record SubscriptionRow : Type 0 where
  pub node_id : Text
  pub added_at : ℕ
  pub valid_checked_at : ℕ
  pub ping_latency_ms : ℕ
  pub ping_checked_at : ℕ

-- `cycle` is the row of `meta` with that key.
pub record Db : Type 0 where
  pub nodes : List NodeRow
  pub results : List ResultRow
  pub history : List HistoryRow
  pub subscription : List SubscriptionRow
  pub source_meta : Map SourceMeta
  pub cycle : Option ℕ

abbrev pub empty_db : Db
empty_db = record {
  nodes = [];
  results = [];
  history = [];
  subscription = [];
  source_meta = [];
  cycle = none;
}

-- `INTEGER PRIMARY KEY`: one more than the largest id there is.
unfoldable pub max_id : List NodeRow → ℕ
max_id [] = 0
max_id (r ∷ rows) = let m = max_id rows in if ltb m r.id then r.id else m

-- `WHERE hash = ?`; the column is UNIQUE
unfoldable pub row_of : Text → List NodeRow → Option NodeRow
row_of h rows = find (λ r. text_eq r.hash h) rows

-- `GetSourceMeta` and `SetSourceMeta`
unfoldable pub get_source_meta : Text → Db → Option SourceMeta
get_source_meta url db = lookup url db.source_meta

unfoldable pub set_source_meta : Text → SourceMeta → Db → Db
set_source_meta url m db = record db { source_meta = insert url m db.source_meta }

-- A reading after a write: the written headers for that source, and the others unchanged.
pub get_source_meta-set_source_meta :
    (url j : Text) (m : SourceMeta) (db : Db)
    → get_source_meta j (set_source_meta url m db)
      ≡ (if text_eq url j then some m else get_source_meta j db)
unfolding get_source_meta set_source_meta
get_source_meta-set_source_meta url j m db = lookup-insert url j m db.source_meta

-- `IncrementCycle`
unfoldable pub increment_cycle : Db → ℕ × Db
increment_cycle db =
    let cur : ℕ = elim db.cycle [ none ↦ 0 | some c ↦ c ] in
    (cur + 1, record db { cycle = some (cur + 1) })
