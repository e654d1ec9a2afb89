-- ===== src/State/Nodes/Laws.antt =====
-- What `nodes` holds after a node was written.
use sub_manager_vpn.State.Nodes.{upsert_row}
use sub_manager_vpn.Base.{
  refl, false, true, [], text_eq_iff, Bool, ◌∷◌, arith, text_eq, if◌then◌else◌, ◌≡◌, some, List,
  none, Text, Option,
}
use sub_manager_vpn.State.Tables.{row_of, NodeRow}

-- The row that an upsert leaves under its hash.
unfoldable pub written : (NodeRow → NodeRow) → NodeRow → Option NodeRow → NodeRow
written refresh new o = elim o [ none ↦ new | some r ↦ refresh r ]

pub row_of-upsert_row :
    (k h : Text) (refresh : NodeRow → NodeRow) (new : NodeRow) (rows : List NodeRow)
    → new.hash ≡ k
    → ((r : NodeRow) → (refresh r).hash ≡ r.hash)
    → row_of h (upsert_row k refresh new rows)
      ≡ (if text_eq k h then some (written refresh new (row_of k rows)) else row_of h rows)
unfolding row_of upsert_row written
row_of-upsert_row k h refresh new [] e keep = rw e ground (arith)
row_of-upsert_row k h refresh new (r ∷ rows) e keep =
    go (text_eq r.hash k) refl (row_of-upsert_row k h refresh new rows e keep)
  where
    go :
        (b : Bool)
        → text_eq r.hash k ≡ b
        → row_of h (upsert_row k refresh new rows)
          ≡ (if text_eq k h then some (written refresh new (row_of k rows)) else row_of h rows)
        → row_of h (if b then refresh r ∷ rows else r ∷ upsert_row k refresh new rows) ≡ (
            if text_eq k h
            then some (written refresh new (if b then some r else row_of k rows))
            else (if text_eq r.hash h then some r else row_of h rows))
    go true eq ih =
        ground (arith, keep r, text_eq_iff r.hash k, text_eq_iff k h, text_eq_iff r.hash h)
    go false eq ih = ground (arith, text_eq_iff r.hash k, text_eq_iff k h, text_eq_iff r.hash h)
