-- ===== src/State/Retention.antt =====
-- `Prune` and its parts: what the database forgets.
pub mod Alive
pub mod Kept
use Prim.Native.Nat.{max}
use sub_manager_vpn.Base.Chunks.{each}
use sub_manager_vpn.State.Subscription.{prune_orphan_subs}
use sub_manager_vpn.Base.{
  map, ◌*◌, ◌&&◌, ◌==◌, some, true, none, [], ◌+◌, suc, ltb, Option, ◌∷◌, any, not, filter, List,
  Bool, ℕ, if◌then◌else◌,
}
use sub_manager_vpn.State.Tables.{HistoryRow, NodeRow, ResultRow, Db}

pub record Retention : Type 0 where
  pub history_days : ℕ
  pub history_cycles : ℕ
  pub node_ttl_cycles : ℕ
  pub dead_cycles : ℕ

abbrev pub default_retention : Retention
default_retention = record {
  history_days = 30;
  history_cycles = 200;
  node_ttl_cycles = 30;
  dead_cycles = 84;
}

-- `Validate`
unfoldable pub validate : Retention → Retention
validate r =
    if not (r.history_cycles == 0)
      && (not (r.dead_cycles == 0) && ltb r.history_cycles r.dead_cycles)
    then record r { dead_cycles = r.history_cycles }
    else r

module _ {A : Type 0} (node_of cycle_of time_of : A → ℕ) where
  -- The row `a` stands strictly before `b` in the window of their node.
  unfoldable pub precedes : A → A → Bool
  precedes a b =
      (node_of a == node_of b)
      && (if (cycle_of a == cycle_of b)
          then ltb (time_of b) (time_of a)
          else ltb (cycle_of b) (cycle_of a))

  -- How many of the rows come before `r` in its window, those that tie with it included.
  unfoldable pub no_later : A → List A → ℕ
  no_later r [] = 0
  no_later r (a ∷ rows) =
      let n = no_later r rows in if (node_of a == node_of r) && not (precedes r a) then suc n else n

  unfoldable pub earlier : A → List A → ℕ
  earlier r [] = 0
  earlier r (a ∷ rows) = let n = earlier r rows in if precedes a r then suc n else n

  -- `DELETE … WHERE rn > ?`: of rows that tie the one inserted first counts as the newer. `seen`
  -- are the rows before these.
  unfoldable pub keep_ranked : ℕ → List A → List A → List A
  keep_ranked k seen [] = []
  keep_ranked k seen (r ∷ rows) =
      let rest = keep_ranked k (r ∷ seen) rows in
      if ltb (no_later r seen + earlier r rows) k then r ∷ rest else rest

-- 1. to 3.
unfoldable pub prune_days : ℕ → ℕ → Db → Db
prune_days days now db = if (days == 0) then db else record db {
  results = filter (λ r. not (ltb (r.checked_at + days * 86400) now)) db.results;
}

unfoldable pub prune_samples : ℕ → Db → Db
prune_samples cycles db = if (cycles == 0) then db else record db {
  results =
      keep_ranked (λ (r : ResultRow). r.node_id) (λ r. r.cycle_id) (λ r. r.checked_at) cycles []
        db.results;
  history =
      keep_ranked (λ (r : HistoryRow). r.node_id) (λ r. r.cycle_id) (λ r. r.checked_at) cycles []
        db.history;
}

-- 4.
unfoldable pub prune_ttl : ℕ → ℕ → Db → Db
prune_ttl ttl current db =
    if (ttl == 0)
    then db
    else record db { nodes = filter (λ r. not (ltb (r.last_seen_cycle + ttl) current)) db.nodes }

-- The last cycle in which the node was alive; `none` is the -1.
unfoldable pub last_alive : ℕ → List ResultRow → Option ℕ
last_alive id [] = none
last_alive id (r ∷ rows) =
    let rest = last_alive id rows in
    if (r.node_id == id) && r.alive
    then elim rest [ none ↦ some r.cycle_id | some c ↦ some (max r.cycle_id c) ]
    else rest

unfoldable pub is_dead : ℕ → ℕ → List ResultRow → NodeRow → Bool
is_dead dead current results r = elim (last_alive r.id results) [
  | none ↦ true
  | some c ↦ ltb (c + dead) current
]

-- `deadNodeIDs`
unfoldable pub dead_node_ids : ℕ → ℕ → Db → List ℕ
dead_node_ids dead current db =
    if (dead == 0) then [] else map (λ r. r.id) (filter (is_dead dead current db.results) db.nodes)

unfoldable pub delete_node : ℕ → Db → Db
delete_node id db = record db {
  nodes = filter (λ r. not (r.id == id)) db.nodes;
  results = filter (λ r. not (r.node_id == id)) db.results;
  history = filter (λ r. not (r.node_id == id)) db.history;
}

-- 5.
unfoldable pub prune_dead : ℕ → ℕ → Db → Db
prune_dead dead current db =
    if (dead == 0) then db else each delete_node (dead_node_ids dead current db) db

-- `Prune`
unfoldable pub prune : Retention → ℕ → ℕ → Db → Db
prune config current now db =
    let r = validate config in
    prune_orphan_subs (
      prune_dead r.dead_cycles current (
        prune_ttl r.node_ttl_cycles current
          (prune_samples r.history_cycles (prune_days r.history_days now db))))

-- `DeleteOrphanNodes`
unfoldable pub delete_orphan_nodes : Db → Db
delete_orphan_nodes db =
    let kept = filter (λ n. any (λ r. (r.node_id == n.id)) db.results) db.nodes in
    record db {
      nodes = kept;
      history = filter (λ h. any (λ n. (n.id == h.node_id)) kept) db.history;
    }
