-- ===== src/State/Retention/Kept.antt =====
-- What `Prune` must not delete.
use Prim.Native.Nat.{max}
use sub_manager_vpn.State.Retention.Alive.{each-delete_node-nodes}
use mathlib.Core.Path.{subst}
use sub_manager_vpn.Base.Chunks.{each}
use sub_manager_vpn.State.Nodes.Keys.{IsKeyed-filter, Apart, IsKeyed}
use sub_manager_vpn.State.Subscription.{prune_orphan_subs}
use sub_manager_vpn.Base.{
  none, Option, ◌&&◌, some, All_at, refl, inr, true, sym, inl, ap, [], ◌∷◌, Occurs-filter, ◌∙◌, not,
  map, ◌==◌, ltb, filter, false, any, if◌then◌else◌, arith, Occurs, ◌+◌, ◌≤◌, ◌≡◌, All, List, ℕ,
  Bool,
}
use sub_manager_vpn.State.Retention.{
  last_alive, delete_node, validate, is_dead, dead_node_ids, prune_ttl, prune_samples, prune_dead,
  prune_days, prune, Retention,
}
use sub_manager_vpn.State.Tables.{ResultRow, Db, NodeRow}

-- An id that no other row has is not among those of other rows.
id-Apart :
    (p : NodeRow → Bool) (r : NodeRow) (rows : List NodeRow)
    → All (Apart r) rows
    → any (λ i. r.id == i) (map (λ q. q.id) (filter p rows)) ≡ false
id-Apart p r [] h = refl
id-Apart p r (q ∷ rows) (a, h) = go (p q) (id-Apart p r rows h)
  where
    go :
        (b : Bool)
        → any (λ i. r.id == i) (map (λ s. s.id) (filter p rows)) ≡ false
        → any (λ i. r.id == i) (map (λ s. s.id) (if b then q ∷ filter p rows else filter p rows))
          ≡ false
    go true ih = ground (arith, a.1)
    go false ih = ih

not_listed_of :
    (p : NodeRow → Bool) (r : NodeRow) (rows : List NodeRow)
    → IsKeyed rows
    → Occurs r rows
    → p r ≡ false
    → any (λ i. r.id == i) (map (λ q. q.id) (filter p rows)) ≡ false
not_listed_of p r [] k o e = absurd o
not_listed_of p r (q ∷ rows) (a, k) (inl same) e = rw (sym (ap p same) ∙ e) (
    subst (λ x. any (λ i. x.id == i) (map (λ s. s.id) (filter p rows)) ≡ false) (sym same)
      (id-Apart p q rows a))
not_listed_of p r (q ∷ rows) (a, k) (inr o) e =
    go (p q) (not_listed_of p r rows k o e) (All_at (Apart q) r rows a o)
  where
    go :
        (b : Bool)
        → any (λ i. r.id == i) (map (λ s. s.id) (filter p rows)) ≡ false
        → Apart q r
        → any (λ i. r.id == i) (map (λ s. s.id) (if b then q ∷ filter p rows else filter p rows))
          ≡ false
    go true ih d = let other : (r.id == q.id) ≡ false = ground (arith, d.1) in ground arith
    go false ih d = ih

prune_dead-kept :
    (dead current : ℕ) (db : Db) (r : NodeRow)
    → IsKeyed db.nodes
    → Occurs r db.nodes
    → is_dead dead current db.results r ≡ false
    → Occurs r (prune_dead dead current db).nodes
unfolding prune_dead dead_node_ids
prune_dead-kept dead current db r k o e = go (dead == 0)
  where
    ids : List ℕ
    ids = map (λ (q : NodeRow). q.id) (filter (is_dead dead current db.results) db.nodes)

    kept : Occurs r (each delete_node ids db).nodes
    kept = subst (Occurs r) (sym (each-delete_node-nodes ids db)) (
        Occurs-filter (λ q. not (any (λ i. q.id == i) ids)) r db.nodes
          (ap not (not_listed_of (is_dead dead current db.results) r db.nodes k o e)) o)

    go : (b : Bool) → Occurs r (if b then db else each delete_node (if b then [] else ids) db).nodes
    go true = o
    go false = kept

-- The results that the first steps of `Prune` leave.
abbrev pub sampled : Retention → ℕ → Db → Db
sampled r now db = prune_samples r.history_cycles (prune_days r.history_days now db)

prune_days-nodes : (days now : ℕ) (db : Db) → (prune_days days now db).nodes ≡ db.nodes
unfolding prune_days
prune_days-nodes days now db = ground arith

prune_samples-nodes : (cycles : ℕ) (db : Db) → (prune_samples cycles db).nodes ≡ db.nodes
unfolding prune_samples
prune_samples-nodes cycles db = ground arith

prune_ttl-results : (ttl current : ℕ) (db : Db) → (prune_ttl ttl current db).results ≡ db.results
unfolding prune_ttl
prune_ttl-results ttl current db = ground arith

prune_ttl-kept :
    (ttl current : ℕ) (db : Db) (r : NodeRow)
    → current ≤ r.last_seen_cycle + ttl
    → Occurs r db.nodes
    → Occurs r (prune_ttl ttl current db).nodes
unfolding prune_ttl
prune_ttl-kept ttl current db r seen o = go (ttl == 0)
  where
    expired : ltb (r.last_seen_cycle + ttl) current ≡ false
    expired = ground arith

    go :
        (b : Bool)
        → Occurs r
            (if b then db else record db {
              nodes = filter (λ q. not (ltb (q.last_seen_cycle + ttl) current)) db.nodes;
            }).nodes
    go true = o
    go false = Occurs-filter _ r db.nodes (ap not expired) o

prune_ttl-IsKeyed :
    (ttl current : ℕ) (db : Db) → IsKeyed db.nodes → IsKeyed (prune_ttl ttl current db).nodes
unfolding prune_ttl
prune_ttl-IsKeyed ttl current db k = go (ttl == 0)
  where
    go :
        (b : Bool)
        → IsKeyed
            (if b then db else record db {
              nodes = filter (λ q. not (ltb (q.last_seen_cycle + ttl) current)) db.nodes;
            }).nodes
    go true = k
    go false = IsKeyed-filter _ db.nodes k

-- The newest sign of life is no earlier than any other.
last_alive-le :
    (id : ℕ) (rows : List ResultRow) (x : ResultRow)
    → Occurs x rows
    → x.node_id ≡ id
    → x.alive ≡ true
    → (c : ℕ) × (last_alive id rows ≡ some c) × (x.cycle_id ≤ c)
unfolding last_alive
last_alive-le id [] x o same alive = absurd o
last_alive-le id (r ∷ rows) x (inl e) same alive = go (last_alive id rows)
  where
    here : ((r.node_id == id) && r.alive) ≡ true
    here = subst (λ y. ((y.node_id == id) && y.alive) ≡ true) e (ground arith)

    go :
        (o : Option ℕ)
        → (c : ℕ) × ((if (r.node_id == id) && r.alive
              then elim o [ none ↦ some r.cycle_id | some d ↦ some (max r.cycle_id d) ]
              else o)
            ≡ some c)
          × (x.cycle_id ≤ c)
    go none = (r.cycle_id, rw here refl, rw e (omega arith))
    go (some d) = (max r.cycle_id d, rw here refl, rw e (omega arith))
last_alive-le id (r ∷ rows) x (inr o) same alive =
    go ((r.node_id == id) && r.alive) (last_alive-le id rows x o same alive)
  where
    go :
        (b : Bool)
        → (c : ℕ) × (last_alive id rows ≡ some c) × (x.cycle_id ≤ c)
        → (c : ℕ) × ((if b
              then elim (last_alive id rows) [
                | none ↦ some r.cycle_id
                | some d ↦ some (max r.cycle_id d)
              ]
              else last_alive id rows)
            ≡ some c)
          × (x.cycle_id ≤ c)
    go true (c, e, l) = (max r.cycle_id c, rw e refl, omega arith)
    go false ih = ih

-- One of the results says that the node was alive, no more than `dead` cycles ago.
abbrev pub WasAlive : ℕ → ℕ → List ResultRow → ℕ → Type 0
WasAlive dead current results id =
    (x : ResultRow) × Occurs x results
    × (x.node_id ≡ id)
    × (x.alive ≡ true)
    × (current ≤ x.cycle_id + dead)

is_dead-WasAlive :
    (dead current : ℕ) (results : List ResultRow) (r : NodeRow)
    → WasAlive dead current results r.id
    → is_dead dead current results r ≡ false
unfolding is_dead
is_dead-WasAlive dead current results r (x, o, same, alive, near) =
    let (c, e, l) = last_alive-le r.id results x o same alive in
    ap (λ s. elim s [ none ↦ true | some d ↦ ltb (d + dead) current ]) e ∙ ground arith

-- In a table with different ids and hashes `Prune` keeps every node that was seen within the TTL
-- and that one of the results which the windows of days and samples leave says was alive within the
-- dead window.
pub prune_keeps :
    (config : Retention) (current now : ℕ) (db : Db) (r : NodeRow)
    → IsKeyed db.nodes
    → Occurs r db.nodes
    → current ≤ r.last_seen_cycle + (validate config).node_ttl_cycles
    → WasAlive (validate config).dead_cycles current (sampled (validate config) now db).results r.id
    → Occurs r (prune config current now db).nodes
unfolding prune prune_orphan_subs
prune_keeps config current now db r k o seen e =
    let v = validate config in
    let days = prune_days v.history_days now db in
    let start = sampled v now db in
    let same : start.nodes ≡ db.nodes =
      prune_samples-nodes v.history_cycles days ∙ prune_days-nodes v.history_days now db in
    prune_dead-kept v.dead_cycles current (prune_ttl v.node_ttl_cycles current start) r
      (prune_ttl-IsKeyed v.node_ttl_cycles current start (subst IsKeyed (sym same) k))
      (prune_ttl-kept v.node_ttl_cycles current start r seen (subst (Occurs r) (sym same) o))
      (ap (λ rs. is_dead v.dead_cycles current rs r)
          (prune_ttl-results v.node_ttl_cycles current start)
        ∙ is_dead-WasAlive v.dead_cycles current start.results r e)
