-- ===== src/State/Nodes/Hashed.antt =====
-- Rows whose node has the hash of the row, and what the statements do to the keys of `nodes`.
use Prim.Native.Nat.{suc}
use sub_manager_vpn.State.Results.{set_speed}
use sub_manager_vpn.State.Nodes.{
  new_row, upsert_node, json_of, partial_node, refreshed, upsert_row, stored_node_with, stored_node,
  upsert_node_with_country, row_node,
}
use sub_manager_vpn.Node.{Node}
use sub_manager_vpn.Base.{
  ◌+◌, ◌≤◌, length, none, sym, ◌==◌, text_eq_sym, text_eq_iff, ap, if◌then◌else◌, text_eq, Bool,
  arith, true, false, one_of, is_empty, [], ◌∷◌, some, refl, ◌≡◌, ◌∙◌, ℕ, map, All, Text, List,
}
use sub_manager_vpn.State.Tables.{max_id, Db, node_hash, NodeRow, Codec}

-- Encoding and decoding a node gives a node with the same hash. JSON does so for texts that are valid
-- UTF-8.
pub record IsHashing (codec : Codec) : Type 0 where
  pub code : Node → Text
  pub decoded : Node → Node
  pub marshalled : (n : Node) → codec.marshal n ≡ some (code n)
  pub filled : (n : Node) → is_empty (code n) ≡ false
  pub unmarshalled : (n : Node) → codec.unmarshal (code n) ≡ some (decoded n)
  pub kept : (n : Node) → node_hash codec (decoded n) ≡ node_hash codec n

abbrev pub ids : List NodeRow → List ℕ
ids rows = map (λ r. r.id) rows

abbrev pub hashes : List NodeRow → List Text
hashes rows = map (λ r. r.hash) rows

module _ (codec : Codec) where
  -- The row's node has the row's hash.
  abbrev pub IsHashed : NodeRow → Type 0
  IsHashed r = node_hash codec (row_node codec r) ≡ r.hash

  -- The table has the keys that it had, and every row its hash.
  pub record IsKept (before after : List NodeRow) : Type 0 where
    pub same_ids : ids after ≡ ids before
    pub same_hashes : hashes after ≡ hashes before
    pub hashed : All IsHashed after

  pub IsKept-IsKept : (a b c : List NodeRow) → IsKept a b → IsKept b c → IsKept a c
  IsKept-IsKept a b c h k = record {
    same_ids = k.same_ids ∙ h.same_ids;
    same_hashes = k.same_hashes ∙ h.same_hashes;
    hashed = k.hashed;
  }

  pub IsKept-start : (a : List NodeRow) → All IsHashed a → IsKept a a
  IsKept-start a h = record { same_ids = refl; same_hashes = refl; hashed = h }

  row_node-code :
      (law : IsHashing codec) (n : Node) (r : NodeRow)
      → r.node_json ≡ law.code n
      → row_node codec r ≡ law.decoded n
  unfolding row_node stored_node stored_node_with
  row_node-code law n r e = rw (e, law.filled n, law.unmarshalled n) refl

  module _ (k : Text) (refresh : NodeRow → NodeRow) (new : NodeRow)
      (same_id : (r : NodeRow) → (refresh r).id ≡ r.id)
      (same_hash : (r : NodeRow) → (refresh r).hash ≡ r.hash)
      (fresh : (r : NodeRow) → r.hash ≡ k → IsHashed (refresh r)) where
    upsert_row-IsKept :
        (rows : List NodeRow)
        → one_of (hashes rows) k ≡ true
        → All IsHashed rows
        → IsKept rows (upsert_row k refresh new rows)
    unfolding upsert_row one_of
    upsert_row-IsKept [] m h = absurd (ground (arith, m))
    upsert_row-IsKept (r ∷ rows) m (hr, h) =
        go (text_eq r.hash k) refl (λ e. upsert_row-IsKept rows e h)
      where
        go :
            (b : Bool)
            → text_eq r.hash k ≡ b
            → (one_of (hashes rows) k ≡ true → IsKept rows (upsert_row k refresh new rows))
            → IsKept (r ∷ rows) (if b then refresh r ∷ rows else r ∷ upsert_row k refresh new rows)
        go true e ih = record {
          same_ids = ap (λ i. i ∷ ids rows) (same_id r);
          same_hashes = ap (λ i. i ∷ hashes rows) (same_hash r);
          hashed = (fresh r ((text_eq_iff r.hash k).0 e), h);
        }
        go false e ih =
            let t = ih (ground (arith, text_eq_sym k r.hash, e, m)) in
            record {
              same_ids = ap (λ i. r.id ∷ i) t.same_ids;
              same_hashes = ap (λ i. r.hash ∷ i) t.same_hashes;
              hashed = (hr, t.hashed);
            }

  json_of-code :
      (law : IsHashing codec) (norm_name : Node → Text) (n : Node)
      → json_of codec norm_name n ≡ law.code n
  unfolding json_of
  json_of-code law norm_name n = ap (λ o. elim o [ none ↦ [] | some t ↦ t ]) (law.marshalled n)

  pub upsert_node_with_country-IsKept :
      (law : IsHashing codec) (norm_name : Node → Text) (n : Node) (country : Text) (now : ℕ)
      (db : Db)
      → one_of (hashes db.nodes) (node_hash codec n) ≡ true
      → All IsHashed db.nodes
      → IsKept db.nodes (upsert_node_with_country codec norm_name n country now db).nodes
  unfolding upsert_node_with_country
  upsert_node_with_country-IsKept law norm_name n country now db m h =
      upsert_row-IsKept (node_hash codec n) _ _ (λ r. unfold refreshed in refl)
        (λ r. unfold refreshed in refl)
        (λ r e.
          ap (node_hash codec) (row_node-code law n _ (json_of-code law norm_name n))
          ∙ (law.kept n ∙ sym e))
        db.nodes m h

  -- The speed is no part of the row's node.
  paced : (speed : ℕ) (r : NodeRow) → IsHashed r → IsHashed (record r { speed_kbps = speed })
  unfolding row_node stored_node stored_node_with partial_node
  paced speed r h = h

  pub set_speed-IsKept :
      (id speed : ℕ) (rows : List NodeRow)
      → All IsHashed rows
      → IsKept rows (set_speed id speed rows)
  unfolding set_speed
  set_speed-IsKept id speed [] h = IsKept-start [] tt
  set_speed-IsKept id speed (r ∷ rows) (hr, h) = go (r.id == id) (set_speed-IsKept id speed rows h)
    where
      go :
          (b : Bool)
          → IsKept rows (set_speed id speed rows)
          → IsKept
              (r ∷ rows)
              ((if b then record r { speed_kbps = speed } else r) ∷ set_speed id speed rows)
      go true t = record {
        same_ids = ap (λ i. r.id ∷ i) t.same_ids;
        same_hashes = ap (λ i. r.hash ∷ i) t.same_hashes;
        hashed = (paced speed r hr, t.hashed);
      }
      go false t = record {
        same_ids = ap (λ i. r.id ∷ i) t.same_ids;
        same_hashes = ap (λ i. r.hash ∷ i) t.same_hashes;
        hashed = (hr, t.hashed);
      }

module _ (codec : Codec) (law : IsHashing codec) (norm_name : Node → Text) where
  length-upsert_row :
      (k : Text) (refresh : NodeRow → NodeRow) (new : NodeRow) (rows : List NodeRow)
      → length (upsert_row k refresh new rows) ≤ suc (length rows)
  unfolding upsert_row
  length-upsert_row k refresh new [] = omega arith
  length-upsert_row k refresh new (r ∷ rows) = ground (arith, length-upsert_row k refresh new rows)

  pub length-upsert_node :
      (n : Node) (cycle now : ℕ) (db : Db)
      → length (upsert_node codec norm_name n cycle now db).nodes ≤ suc (length db.nodes)
  unfolding upsert_node
  length-upsert_node n cycle now db = length-upsert_row _ _ _ db.nodes

  upsert_row-IsHashed :
      (k : Text) (refresh : NodeRow → NodeRow) (new : NodeRow) (rows : List NodeRow)
      → IsHashed codec new
      → ((r : NodeRow) → r.hash ≡ k → IsHashed codec (refresh r))
      → All (IsHashed codec) rows
      → All (IsHashed codec) (upsert_row k refresh new rows)
  unfolding upsert_row
  upsert_row-IsHashed k refresh new [] f g h = (f, tt)
  upsert_row-IsHashed k refresh new (r ∷ rows) f g (hr, h) =
      go (text_eq r.hash k) refl (upsert_row-IsHashed k refresh new rows f g h)
    where
      go :
          (b : Bool)
          → text_eq r.hash k ≡ b
          → All (IsHashed codec) (upsert_row k refresh new rows)
          → All (IsHashed codec) (if b then refresh r ∷ rows else r ∷ upsert_row k refresh new rows)
      go true e t = (g r ((text_eq_iff r.hash k).0 e), h)
      go false e t = (hr, t)

  pub upsert_node-IsHashed :
      (n : Node) (cycle now : ℕ) (db : Db)
      → All (IsHashed codec) db.nodes
      → All (IsHashed codec) (upsert_node codec norm_name n cycle now db).nodes
  unfolding upsert_node refreshed new_row
  upsert_node-IsHashed n cycle now db h =
      upsert_row-IsHashed (node_hash codec n) (refreshed codec norm_name n cycle)
        (new_row codec norm_name n [] cycle now (max_id db.nodes + 1)) db.nodes
        (ap (node_hash codec) (row_node-code codec law n _ (json_of-code codec law norm_name n))
          ∙ law.kept n)
        (λ r e.
          ap (node_hash codec) (row_node-code codec law n _ (json_of-code codec law norm_name n))
          ∙ (law.kept n ∙ sym e))
        h
