-- ===== src/State/Nodes/Keys.antt =====
-- The two keys of `nodes`: no two rows share an id or a hash.
use sub_manager_vpn.Node.{Node}
use sub_manager_vpn.State.Nodes.{upsert_row, refreshed, new_row, upsert_node}
use sub_manager_vpn.State.Tables.{node_hash, Db, Codec, max_id, NodeRow}
use sub_manager_vpn.Base.{
  ◌+◌, ℕ, refl, true, All-map, All-filter, if◌then◌else◌, arith, ◌==◌, ◌<◌, ◌≤◌, filter, false, [],
  ◌∷◌, ◌≡◌, text_eq, Bool, All, Text, List,
}

-- Rows with different ids and different hashes.
abbrev pub Apart : NodeRow → NodeRow → Type 0
Apart r q = (text_eq r.hash q.hash ≡ false) × ((r.id == q.id) ≡ false)

abbrev pub IsKeyed : List NodeRow → Type 0
IsKeyed [] = Unit
IsKeyed (r ∷ rows) = All (Apart r) rows × IsKeyed rows

pub max_id_bound : (rows : List NodeRow) → All (λ r. r.id ≤ max_id rows) rows
unfolding max_id
max_id_bound [] = tt
max_id_bound (r ∷ rows) = (
  ground arith,
  All-map (λ q. q.id ≤ max_id rows) _ (λ q h. ground arith) rows (max_id_bound rows),
)

module _ (k : Text) (refresh : NodeRow → NodeRow) (new : NodeRow) (same_hash : new.hash ≡ k)
    (keep : (r : NodeRow) → ((refresh r).hash ≡ r.hash) × ((refresh r).id ≡ r.id)) where
  All-Apart-upsert_row :
      (r : NodeRow) (rows : List NodeRow)
      → text_eq r.hash k ≡ false
      → r.id < new.id
      → All (Apart r) rows
      → All (Apart r) (upsert_row k refresh new rows)
  unfolding upsert_row
  All-Apart-upsert_row r [] e l h = ((rw same_hash e, ground arith), tt)
  All-Apart-upsert_row r (q ∷ rows) e l (a, h) =
      go (text_eq q.hash k) (All-Apart-upsert_row r rows e l h)
    where
      go :
          (b : Bool)
          → All (Apart r) (upsert_row k refresh new rows)
          → All (Apart r) (if b then refresh q ∷ rows else q ∷ upsert_row k refresh new rows)
      go true ih = ((rw ((keep q).0) a.0, rw ((keep q).1) a.1), h)
      go false ih = (a, ih)

  pub IsKeyed-upsert_row :
      (rows : List NodeRow)
      → All (λ r. r.id < new.id) rows
      → IsKeyed rows
      → IsKeyed (upsert_row k refresh new rows)
  unfolding upsert_row
  IsKeyed-upsert_row [] l h = (tt, tt)
  IsKeyed-upsert_row (r ∷ rows) (lr, l) (a, h) =
      go (text_eq r.hash k) refl (IsKeyed-upsert_row rows l h)
    where
      go :
          (b : Bool)
          → text_eq r.hash k ≡ b
          → IsKeyed (upsert_row k refresh new rows)
          → IsKeyed (if b then refresh r ∷ rows else r ∷ upsert_row k refresh new rows)
      go true e ih =
          (All-map (Apart r) _ (λ q (x, y). (rw ((keep r).0) x, rw ((keep r).1) y)) rows a, h)
      go false e ih = (All-Apart-upsert_row r rows e lr a, ih)

pub IsKeyed-filter :
    (p : NodeRow → Bool) (rows : List NodeRow) → IsKeyed rows → IsKeyed (filter p rows)
IsKeyed-filter p [] h = tt
IsKeyed-filter p (r ∷ rows) (a, h) = go (p r) (IsKeyed-filter p rows h)
  where
    go :
        (b : Bool)
        → IsKeyed (filter p rows)
        → IsKeyed (if b then r ∷ filter p rows else filter p rows)
    go true ih = (All-filter (Apart r) p rows a, ih)
    go false ih = ih

-- Upserting a node keeps the ids and the hashes of the table pairwise different; the id that a new
-- row gets is free.
pub upsert_node-IsKeyed :
    (codec : Codec) (norm_name : Node → Text) (n : Node) (cycle now : ℕ) (db : Db)
    → IsKeyed db.nodes
    → IsKeyed (upsert_node codec norm_name n cycle now db).nodes
unfolding upsert_node new_row refreshed
upsert_node-IsKeyed codec norm_name n cycle now db h =
    IsKeyed-upsert_row (node_hash codec n) (refreshed codec norm_name n cycle)
      (new_row codec norm_name n [] cycle now (max_id db.nodes + 1)) refl (λ r. (refl, refl))
      db.nodes
      (All-map (λ r. r.id ≤ max_id db.nodes) _ (λ r l. omega arith) db.nodes
        (max_id_bound db.nodes))
      h
