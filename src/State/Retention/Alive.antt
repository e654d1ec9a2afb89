-- ===== src/State/Retention/Alive.antt =====
-- What `Prune` leaves in `nodes` and in `subscription`.
use mathlib.Core.Path.{subst}
use sub_manager_vpn.State.Subscription.{has_node, prune_orphan_subs}
use sub_manager_vpn.Base.Chunks.{each}
use sub_manager_vpn.Base.{
  All-map, All-filter_with, ◌&&◌, refl, ltb_false→le, filter-cong, All-of_Occurs, ltb, inr,
  filter-filter, [], ◌∙◌, true, filter_all, ap, sym, none, inl, if◌then◌else◌, arith, ◌+◌, ◌∷◌, ◌≤◌,
  not, Option, Occurs, some, map, filter, false, ◌≡◌, any, ◌==◌, All, List, Bool, ℕ,
}
use sub_manager_vpn.State.Retention.{
  validate, Retention, dead_node_ids, prune_ttl, prune_samples, prune_dead, prune_days, prune,
  last_alive, is_dead, delete_node,
}
use sub_manager_vpn.State.Tables.{ResultRow, Db, NodeRow}

-- The newest cycle with a sign of life is within the window.
abbrev pub IsAlive : ℕ → ℕ → List ResultRow → NodeRow → Type 0
IsAlive dead current results r =
    (c : ℕ) × ((last_alive r.id results ≡ some c) × (current ≤ c + dead))

not_dead :
    (dead current : ℕ) (results : List ResultRow) (r : NodeRow)
    → is_dead dead current results r ≡ false
    → IsAlive dead current results r
unfolding is_dead
not_dead dead current results r = go (last_alive r.id results) refl
  where
    go :
        (o : Option ℕ)
        → last_alive r.id results ≡ o
        → (elim o [ none ↦ true | some c ↦ ltb (c + dead) current ]) ≡ false
        → IsAlive dead current results r
    go none e h = absurd (cc)
    go (some c) e h = (c, (e, ltb_false→le _ _ h))

-- Deleting the results of other nodes keeps the last sign of life.
last_alive-filter :
    (id gone : ℕ) (rows : List ResultRow)
    → (id == gone) ≡ false
    → last_alive id (filter (λ r. not (r.node_id == gone)) rows) ≡ last_alive id rows
unfolding last_alive
last_alive-filter id gone [] d = refl
last_alive-filter id gone (r ∷ rows) d =
    go (r.node_id == gone) refl (last_alive-filter id gone rows d)
  where
    go :
        (b : Bool)
        → (r.node_id == gone) ≡ b
        → last_alive id (filter (λ q. not (q.node_id == gone)) rows) ≡ last_alive id rows
        → last_alive id (
            if not b
            then r ∷ filter (λ q. not (q.node_id == gone)) rows
            else filter (λ q. not (q.node_id == gone)) rows)
          ≡ last_alive id (r ∷ rows)
    go true e ih = let other : (r.node_id == id) ≡ false = ground arith in ih ∙ rw other refl
    go false e ih = rw ih refl

-- Deleting nodes one by one keeps exactly those that are not in the list.
pub each-delete_node-nodes :
    (ids : List ℕ) (db : Db)
    → (each delete_node ids db).nodes ≡ filter (λ r. not (any (λ i. r.id == i) ids)) db.nodes
unfolding delete_node
each-delete_node-nodes [] db = sym (filter_all _ (λ r. refl) db.nodes)
each-delete_node-nodes (i ∷ ids) db =
    each-delete_node-nodes ids (delete_node i db)
    ∙ (filter-filter _ _ db.nodes
        ∙ filter-cong (λ r. not (r.id == i) && not (any (λ j. r.id == j) ids)) _ (λ r. ground arith)
            db.nodes)

last_alive-each :
    (id : ℕ) (ids : List ℕ) (db : Db)
    → any (λ i. id == i) ids ≡ false
    → last_alive id (each delete_node ids db).results ≡ last_alive id db.results
unfolding delete_node
last_alive-each id [] db h = refl
last_alive-each id (i ∷ ids) db h =
    last_alive-each id ids (delete_node i db) (ground arith)
    ∙ last_alive-filter id i db.results (ground arith)

-- A row whose id is not among the dead ones is itself not dead.
not_listed :
    (p : NodeRow → Bool) (rows : List NodeRow)
    → All (λ r. any (λ i. r.id == i) (map (λ q. q.id) (filter p rows)) ≡ false → p r ≡ false) rows
not_listed p rows = All-of_Occurs _ rows (λ r o. at r rows o)
  where
    at :
        (r : NodeRow) (rows : List NodeRow)
        → Occurs r rows
        → any (λ i. r.id == i) (map (λ q. q.id) (filter p rows)) ≡ false
        → p r ≡ false
    at r [] o h = absurd o
    at r (q ∷ rows) (inl e) h = go (p q) refl h
      where
        go :
            (b : Bool)
            → p q ≡ b
            → any
                (λ i. r.id == i)
                (map (λ s. s.id) (if b then q ∷ filter p rows else filter p rows))
              ≡ false
            → p r ≡ false
        go true eq g =
            let same : r.id ≡ q.id = ap (λ (x : NodeRow). x.id) e in absurd (ground arith)
        go false eq g = ap p e ∙ eq
    at r (q ∷ rows) (inr o) h = go (p q) h (at r rows o)
      where
        go :
            (b : Bool)
            → any
                (λ i. r.id == i)
                (map (λ s. s.id) (if b then q ∷ filter p rows else filter p rows))
              ≡ false
            → (any (λ i. r.id == i) (map (λ s. s.id) (filter p rows)) ≡ false → p r ≡ false)
            → p r ≡ false
        go true g f = f (ground arith)
        go false g f = f g

-- The dead are gone, and deleting them takes no result from a node that stays.
prune_dead-IsAlive :
    (dead current : ℕ) (db : Db)
    → (dead == 0) ≡ false
    → All
        (IsAlive dead current (prune_dead dead current db).results)
        (prune_dead dead current db).nodes
unfolding prune_dead dead_node_ids
prune_dead-IsAlive dead current db e =
    let ids = map (λ (r : NodeRow). r.id) (filter (is_dead dead current db.results) db.nodes) in
    rw e (
      subst (All (IsAlive dead current (each delete_node ids db).results))
        (sym (each-delete_node-nodes ids db))
        (All-filter_with _ (λ r. not (any (λ i. r.id == i) ids)) db.nodes
          (All-map _ _
            (λ r f t.
              let free : any (λ i. r.id == i) ids ≡ false = ground arith in
              let a = not_dead dead current db.results r (f free) in
              (a.0, (last_alive-each r.id ids db free ∙ a.1.0, a.1.1)))
            db.nodes (not_listed (is_dead dead current db.results) db.nodes))))

each-delete_node-subscription :
    (ids : List ℕ) (db : Db) → (each delete_node ids db).subscription ≡ db.subscription
unfolding delete_node
each-delete_node-subscription [] db = refl
each-delete_node-subscription (i ∷ ids) db = each-delete_node-subscription ids (delete_node i db)

prune_dead-subscription :
    (dead current : ℕ) (db : Db) → (prune_dead dead current db).subscription ≡ db.subscription
unfolding prune_dead
prune_dead-subscription dead current db = go (dead == 0)
  where
    go :
        (b : Bool)
        → (if b then db else each delete_node (dead_node_ids dead current db) db).subscription
          ≡ db.subscription
    go true = refl
    go false = each-delete_node-subscription (dead_node_ids dead current db) db

prune_ttl-subscription :
    (ttl current : ℕ) (db : Db) → (prune_ttl ttl current db).subscription ≡ db.subscription
unfolding prune_ttl
prune_ttl-subscription ttl current db = ground arith

prune_samples-subscription :
    (cycles : ℕ) (db : Db) → (prune_samples cycles db).subscription ≡ db.subscription
unfolding prune_samples
prune_samples-subscription cycles db = ground arith

prune_days-subscription :
    (days now : ℕ) (db : Db) → (prune_days days now db).subscription ≡ db.subscription
unfolding prune_days
prune_days-subscription days now db = ground arith

-- With the dead window on, every node that `Prune` leaves has, in the results that it leaves too, a
-- sign of life at most that many cycles old, the window being the one that `Validate` gives.
pub prune-IsAlive :
    (config : Retention) (current now : ℕ) (db : Db)
    → ((validate config).dead_cycles == 0) ≡ false
    → All
        (IsAlive (validate config).dead_cycles current (prune config current now db).results)
        (prune config current now db).nodes
unfolding prune prune_orphan_subs
prune-IsAlive config current now db e = prune_dead-IsAlive (validate config).dead_cycles current _ e

-- `Prune` takes from the subscription exactly the members whose node it does not leave in the
-- pool.
pub prune-subscription :
    (config : Retention) (current now : ℕ) (db : Db)
    → (prune config current now db).subscription
      ≡ filter (λ s. has_node (prune config current now db).nodes s.node_id) db.subscription
unfolding prune prune_orphan_subs
prune-subscription config current now db =
    let r = validate config in
    let days = prune_days r.history_days now db in
    let samples = prune_samples r.history_cycles days in
    let ttl = prune_ttl r.node_ttl_cycles current samples in
    ap (filter (λ s. has_node (prune_dead r.dead_cycles current ttl).nodes s.node_id)) (
      prune_dead-subscription r.dead_cycles current ttl
      ∙ (prune_ttl-subscription r.node_ttl_cycles current samples
          ∙ (prune_samples-subscription r.history_cycles days
              ∙ prune_days-subscription r.history_days now db)))
