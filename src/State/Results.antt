-- ===== src/State/Results.antt =====
-- The rows of `results` and `history`: one for each check, and the latest of a node.
pub mod Batch
pub mod Newest
use sub_manager_vpn.State.Nodes.{node_id}
use sub_manager_vpn.Base.Chunks.{chunk_loop-each, each, chunk_loop}
use sub_manager_vpn.Base.{
  ltb, ◌==◌, some, arith, [], ◌∷◌, none, map, length, ◌≡◌, if◌then◌else◌, Option, ◌++◌, List, Bool,
  ℕ, Text,
}
use sub_manager_vpn.State.Tables.{NodeRow, Db, ResultRow}

-- `ORDER BY cycle_id DESC, checked_at DESC` puts the row `a` before `b`.
unfoldable pub newer : ResultRow → ResultRow → Bool
newer a b =
    if (a.cycle_id == b.cycle_id) then ltb b.checked_at a.checked_at else ltb b.cycle_id a.cycle_id

-- The newest row of a node; a tie goes to the row inserted first.
unfoldable pub newest : ℕ → List ResultRow → Option ResultRow
newest id [] = none
newest id (r ∷ rows) =
    let rest = newest id rows in
    if (r.node_id == id)
    then elim rest [ none ↦ some r | some b ↦ some (if newer b r then b else r) ]
    else rest

-- `LatestResult`; `none` is the error
unfoldable pub latest_result : ℕ → Db → Option ResultRow
latest_result id db = newest id db.results

-- `UPDATE nodes SET speed_kbps = ? WHERE id = ?`
unfoldable pub set_speed : ℕ → ℕ → List NodeRow → List NodeRow
set_speed id speed rows =
    map (λ r. if (r.id == id) then record r { speed_kbps = speed } else r) rows

-- `RecordResult`
unfoldable pub record_result : ℕ → Bool → ℕ → ℕ → ℕ → ℕ → Db → Db
record_result id alive latency speed cycle now db = record db {
  nodes = set_speed id speed db.nodes;
  results =
      db.results
      ++ record {
        node_id = id;
        alive = alive;
        latency_ms = latency;
        speed_kbps = speed;
        checked_at = now;
        cycle_id = cycle;
      }
        ∷ [];
}

-- `AddHistory`
unfoldable pub add_history : ℕ → ℕ → ℕ → ℕ → Db → Db
add_history id latency cycle now db = record db {
  history =
      db.history
      ++ record { node_id = id; latency_ms = latency; checked_at = now; cycle_id = cycle } ∷ [];
}

pub record BatchResult : Type 0 where
  pub hash : Text
  pub alive : Bool
  pub latency_ms : ℕ
  pub speed_kbps : ℕ

-- A hash that no node has is skipped.
unfoldable pub record_row : ℕ → ℕ → BatchResult → Db → Db
record_row cycle now r db = elim (node_id r.hash db) [
  | none ↦ db
  | some id ↦
      add_history id r.latency_ms cycle now
        (record_result id r.alive r.latency_ms r.speed_kbps cycle now db)
]

-- `recordChunk`: the clock is read once.
unfoldable pub record_chunk : ℕ → ℕ → List BatchResult → Db → Db
record_chunk cycle now rows db = each (record_row cycle now) rows db

-- `RecordResultsBatch`: `clock` is the time when the chunk from that position on begins.
unfoldable pub record_results_batch : ℕ → (ℕ → ℕ) → List BatchResult → Db → Db
record_results_batch cycle clock rows db =
    chunk_loop (λ start. record_chunk cycle (clock start)) (length rows) 2000 0 rows db

-- While the clock stands still the batch is one pass over its rows: the chunks lose no row and
-- repeat none, however many there are.
pub record_results_batch-each :
    (cycle now : ℕ) (rows : List BatchResult) (db : Db)
    → record_results_batch cycle (λ _. now) rows db ≡ each (record_row cycle now) rows db
unfolding record_results_batch record_chunk
record_results_batch-each cycle now rows db =
    chunk_loop-each (record_row cycle now) (length rows) 2000 0 rows db (omega arith) (omega arith)
