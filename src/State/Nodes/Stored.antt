-- ===== src/State/Nodes/Stored.antt =====
-- A node that was written can be read back, and the other rows stay.
use sub_manager_vpn.State.Nodes.Laws.{row_of-upsert_row, written}
use sub_manager_vpn.State.Nodes.{
  partial_node, json_of, stored_node_with, new_row, upsert_node, stored_node, refreshed,
  node_by_hash,
}
use sub_manager_vpn.Base.{
  none, refl, ap, text_eq_refl, ◌∙◌, ◌+◌, text_eq, if◌then◌else◌, false, [], is_empty, Option, ℕ,
  some, ◌≡◌, Text,
}
use sub_manager_vpn.Node.{Node}
use sub_manager_vpn.State.Tables.{max_id, row_of, node_hash, NodeRow, Db, Codec}

-- Decoding gives back the node that was encoded, and its code is not empty. JSON does so for texts
-- that are valid UTF-8.
pub record IsLossless (codec : Codec) (n : Node) : Type 0 where
  pub unmarshal-marshal :
      (t : Text) → codec.marshal n ≡ some t → (codec.unmarshal t ≡ some n) × (is_empty t ≡ false)

module _ (codec : Codec) (norm_name : Node → Text) where
  pub upsert_node-rows :
      (n : Node) (cycle now : ℕ) (db : Db) (h : Text)
      → row_of h (upsert_node codec norm_name n cycle now db).nodes ≡ (
          if text_eq (node_hash codec n) h
          then some (
              written
                (refreshed codec norm_name n cycle)
                (new_row codec norm_name n [] cycle now (max_id db.nodes + 1))
                (row_of (node_hash codec n) db.nodes))
          else row_of h db.nodes)
  unfolding upsert_node
  upsert_node-rows n cycle now db h =
      row_of-upsert_row (node_hash codec n) h (refreshed codec norm_name n cycle)
        (new_row codec norm_name n [] cycle now (max_id db.nodes + 1)) db.nodes
        (unfold new_row in refl) (λ r. unfold refreshed in refl)

  written_json :
      (n : Node) (cycle now id : ℕ) (o : Option NodeRow)
      → (written
          (refreshed codec norm_name n cycle)
          (new_row codec norm_name n [] cycle now id)
          o).node_json
        ≡ json_of codec norm_name n
  unfolding written refreshed new_row
  written_json n cycle now id none = refl
  written_json n cycle now id (some r) = refl

  decoded :
      (r : NodeRow) (n : Node) (t : Text)
      → r.node_json ≡ t
      → is_empty t ≡ false
      → codec.unmarshal t ≡ some n
      → (fallback : Node) → stored_node codec r fallback ≡ n
  unfolding stored_node stored_node_with
  decoded r n t e1 e2 e3 fallback = rw (e1, e2, e3) refl

  node_by_hash-row :
      (h : Text) (db : Db) (r : NodeRow)
      → row_of h db.nodes ≡ some r
      → node_by_hash codec h db ≡ some (stored_node codec r (partial_node codec r))
  unfolding node_by_hash
  node_by_hash-row h db r e = rw (e, node_by_hash) refl

  -- Where the encoding loses nothing of the node and has a code for it, a node that was just
  -- upserted is read back by its hash in every field, whether or not the table had its hash before.
  pub node_by_hash-upsert_node :
      (n : Node) (t : Text) (cycle now : ℕ) (db : Db)
      → IsLossless codec n
      → codec.marshal n ≡ some t
      → node_by_hash codec (node_hash codec n) (upsert_node codec norm_name n cycle now db) ≡ some n
  unfolding json_of
  node_by_hash-upsert_node n t cycle now db law e =
      let both = law.unmarshal-marshal t e in
      let row =
        written (refreshed codec norm_name n cycle)
          (new_row codec norm_name n [] cycle now (max_id db.nodes + 1))
          (row_of (node_hash codec n) db.nodes) in
      node_by_hash-row (node_hash codec n) (upsert_node codec norm_name n cycle now db) row (
        upsert_node-rows n cycle now db (node_hash codec n)
        ∙ rw (text_eq_refl (node_hash codec n)) refl)
      ∙ ap some (
          decoded row n t
            (written_json n cycle now (max_id db.nodes + 1) (row_of (node_hash codec n) db.nodes)
              ∙ rw (e, json_of) refl)
            both.1 both.0 (partial_node codec row))

  -- Upserting a node that the table has keeps the id, the country, the time it was added and the
  -- measured speed of its row and moves it to the given cycle, and every row with another hash
  -- stays as it was.
  pub upsert_node-row_of :
      (n : Node) (cycle now : ℕ) (db : Db) (r : NodeRow)
      → row_of (node_hash codec n) db.nodes ≡ some r
      → ((q : NodeRow) × ((row_of
                (node_hash codec n)
                (upsert_node codec norm_name n cycle now db).nodes
              ≡ some q)
            × ((q.id ≡ r.id)
                × ((q.country ≡ r.country)
                    × ((q.added_at ≡ r.added_at)
                        × ((q.speed_kbps ≡ r.speed_kbps) × (q.last_seen_cycle ≡ cycle)))))))
        × ((h : Text)
            → text_eq (node_hash codec n) h ≡ false
            → row_of h (upsert_node codec norm_name n cycle now db).nodes ≡ row_of h db.nodes)
  unfolding refreshed
  upsert_node-row_of n cycle now db r e = (
    (
      refreshed codec norm_name n cycle r,
      (
        upsert_node-rows n cycle now db (node_hash codec n)
            ∙ rw (text_eq_refl (node_hash codec n), e) (unfold written in refl),
        (refl, (refl, (refl, (refl, refl)))),
      ),
    ),
    λ h d. upsert_node-rows n cycle now db h ∙ rw d refl,
  )
