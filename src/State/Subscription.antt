-- ===== src/State/Subscription.antt =====
-- The operations on `subscription`, the pool of the served nodes.
pub mod Members
use sub_manager_vpn.Base.Sort.{stable_sort}
use sub_manager_vpn.Base.Chunks.{each, chunk_loop}
use sub_manager_vpn.Base.{
  any, ◌++◌, text_eq, one_of, not, ltb, length, [], Bool, ◌∷◌, map, if◌then◌else◌, filter, ℕ, Text,
  List,
}
use sub_manager_vpn.State.Tables.{NodeRow, SubscriptionRow, Db}

unfoldable pub members : List SubscriptionRow → List Text
members [] = []
members (s ∷ subs) = s.node_id ∷ members subs

-- `ListSubscription`
unfoldable pub list_subscription : Db → List SubscriptionRow
list_subscription db = stable_sort (λ a b. ltb a.added_at b.added_at) db.subscription

-- `AddSubscription`: `ON CONFLICT(node_id) DO NOTHING`
unfoldable pub add_subscription : Text → ℕ → Db → Db
add_subscription h now db = if one_of (members db.subscription) h then db else record db {
  subscription =
      db.subscription
      ++ record {
        node_id = h;
        added_at = now;
        valid_checked_at = 0;
        ping_latency_ms = 0;
        ping_checked_at = 0;
      }
        ∷ [];
}

-- `RemoveSubscription`
unfoldable pub remove_subscription : Text → Db → Db
remove_subscription h db = record db {
  subscription = filter (λ s. not (text_eq s.node_id h)) db.subscription;
}

-- `UPDATE subscription SET … WHERE node_id = ?`
unfoldable pub update_member : (SubscriptionRow → SubscriptionRow) → Text → Db → Db
update_member f h db = record db {
  subscription = map (λ s. if text_eq s.node_id h then f s else s) db.subscription;
}

unfoldable pub set_sub_valid : ℕ → Text → Db → Db
set_sub_valid ts h db = update_member (λ s. record s { valid_checked_at = ts }) h db

-- `setSubValidChunk` and `SetSubValidCheckedBatch`
unfoldable pub set_sub_valid_chunk : ℕ → List Text → Db → Db
set_sub_valid_chunk ts hs db = each (set_sub_valid ts) hs db

unfoldable pub set_sub_valid_checked_batch : List Text → ℕ → Db → Db
set_sub_valid_checked_batch hs ts db =
    chunk_loop (λ _. set_sub_valid_chunk ts) (length hs) 2000 0 hs db

pub record SubPingRow : Type 0 where
  pub node_hash : Text
  pub latency_ms : ℕ

unfoldable pub set_sub_ping : ℕ → SubPingRow → Db → Db
set_sub_ping ts r db =
    update_member (λ s. record s { ping_latency_ms = r.latency_ms; ping_checked_at = ts })
      r.node_hash db

-- `setSubPingChunk` and `SetSubPingBatch`
unfoldable pub set_sub_ping_chunk : ℕ → List SubPingRow → Db → Db
set_sub_ping_chunk ts rows db = each (set_sub_ping ts) rows db

unfoldable pub set_sub_ping_batch : List SubPingRow → ℕ → Db → Db
set_sub_ping_batch rows ts db = chunk_loop (λ _. set_sub_ping_chunk ts) (length rows) 2000 0 rows db

-- `PruneOrphanSubs`
unfoldable pub has_node : List NodeRow → Text → Bool
has_node nodes h = any (λ r. text_eq r.hash h) nodes

unfoldable pub prune_orphan_subs : Db → Db
prune_orphan_subs db = record db {
  subscription = filter (λ s. has_node db.nodes s.node_id) db.subscription;
}
