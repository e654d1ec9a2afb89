-- ===== src/Scheduler/Serve/Served.antt =====
-- What the files hold after they were generated.
use sub_manager_vpn.State.Results.Newest.{newest-IsNewest, newest-IsUnknown, IsNewest, IsUnknown}
use sub_manager_vpn.State.Nodes.{node_id}
use sub_manager_vpn.State.Results.{newest, latest_result}
use mathlib.Core.Path.{subst}
use sub_manager_vpn.Base.Sort.Laws.{All-stable_sort}
use Prim.Native.Nat.{max}
use sub_manager_vpn.State.Queries.{subscription_member_nodes}
use sub_manager_vpn.Base.Int.{not_positive, pos_part, ℤ}
use sub_manager_vpn.Scheduler.Serve.{served_latency, served_candidates, served, regenerate_subs}
use sub_manager_vpn.Node.{Node}
use sub_manager_vpn.Base.Map.{lookup_or-insert, lookup, keys, insert, lookup_or, Map}
use sub_manager_vpn.Base.{
  ◌∙◌, ap, ltb_false→le, inr, ltb→lt, inl, text_eq, ltb, ◌≤◌, ◌⊎◌, true, sym, refl, none, All-take,
  ◌++◌, if◌then◌else◌, Option, All-append, ◌<◌, ◌∷◌, some, length, false, arith, [], ◌≡◌, ℕ, map,
  Text, All, List, Bool,
}
use sub_manager_vpn.Scheduler.World.{persist, World, Config}
use mathlib.Core.Option.{none-ne-some}
use sub_manager_vpn.State.Tables.{ResultRow, node_hash, Db, Codec}
use sub_manager_vpn.Select.Defs.{faster_or_known, pick, cap_per_country, by_country, Candidate}

module _ (codec : Codec) (config : Config) where
  pub regenerate_subs-db : (w : World) → (regenerate_subs codec config w).db ≡ w.db
  unfolding regenerate_subs persist
  regenerate_subs-db w = ground arith

  -- Nothing was ever found out about the node, or there is a result that says that it was alive and
  -- that no other of its results is later than.
  abbrev pub IsFresh : List ResultRow → ℕ → Type 0
  IsFresh rows id = IsUnknown id rows ⊎ ((x : ResultRow) × IsNewest id rows x × (x.alive ≡ true))

  -- Not banned, and not dead in its newest result.
  abbrev pub IsServed : Db → Node → Type 0
  IsServed db n =
      (config.is_banned (node_hash codec n) ≡ false)
      × ((id : ℕ) → node_id (node_hash codec n) db ≡ some id → IsFresh db.results id)

  -- A latency is found only for a node that is not dead.
  served_latency-IsFresh :
      (db : Db) (h : Text) (l id : ℕ)
      → served_latency codec config db h ≡ some l
      → node_id h db ≡ some id
      → IsFresh db.results id
  unfolding served_latency latest_result
  served_latency-IsFresh db h l id e m = go (newest id db.results) refl (sym found ∙ e)
    where
      latency : Option ResultRow → Option ℕ
      latency o = elim o [ none ↦ some 0 | some r ↦ if r.alive then some r.latency_ms else none ]

      found : served_latency codec config db h ≡ latency (newest id db.results)
      found = ap (λ o. elim o [ none ↦ some 0 | some i ↦ latency (newest i db.results) ]) m

      go :
          (o : Option ResultRow)
          → newest id db.results ≡ o
          → latency o ≡ some l
          → IsFresh db.results id
      go none f k = inl (newest-IsUnknown id db.results f)
      go (some r) f k = inr (r, newest-IsNewest id db.results r f, gate r.alive refl k)
        where
          gate :
              (b : Bool)
              → r.alive ≡ b
              → (if b then some r.latency_ms else none) ≡ some l
              → r.alive ≡ true
          gate true a k = a
          gate false a k = absurd (none-ne-some l k)

  served-IsServed :
      (db : Db) (n : Node) (c : Candidate) → served codec config db n ≡ some c → IsServed db c.node
  unfolding served
  served-IsServed db n c =
      go (config.is_banned (node_hash codec n)) refl
        (served_latency codec config db (node_hash codec n)) refl
    where
      go :
          (b : Bool)
          → config.is_banned (node_hash codec n) ≡ b
          → (o : Option ℕ) → served_latency codec config db (node_hash codec n) ≡ o
          → (if b then none else elim o as (λ _. Option Candidate) [
            | none ↦ none
            | some l ↦ some record { node = n; latency_ms = l; country = n.country; hash = [] }
          ])
            ≡ some c
          → IsServed db c.node
      go true e o eo h = absurd (cc)
      go false e none eo h = absurd (cc)
      go false e (some l) eo h =
          let same : record { node = n; latency_ms = l; country = n.country; hash = [] } ≡ c = cc in
          subst (λ (x : Candidate). IsServed db x.node) same
            (e, λ id. served_latency-IsFresh db (node_hash codec n) l id eo)

  served_candidates-IsServed :
      (db : Db) (nodes : List Node)
      → All (λ c. IsServed db c.node) (served_candidates codec config db nodes)
  unfolding served_candidates
  served_candidates-IsServed db [] = tt
  served_candidates-IsServed db (n ∷ nodes) =
      go (served codec config db n) refl (served_candidates-IsServed db nodes)
    where
      go :
          (o : Option Candidate)
          → served codec config db n ≡ o
          → All (λ c. IsServed db c.node) (served_candidates codec config db nodes)
          → All
              (λ c. IsServed db c.node)
              (elim o [
                | none ↦ served_candidates codec config db nodes
                | some c ↦ c ∷ served_candidates codec config db nodes
              ])
      go none e ih = ih
      go (some c) e ih = (served-IsServed db n c e, ih)

-- The capped list is made of what was there.
module _ {κ} (P : Candidate → Type κ) where
  All-by_country :
      (m : Map (List Candidate)) (cands : List Candidate)
      → ((k : Text) → All P (lookup_or [] k m))
      → All P cands
      → (k : Text) → All P (lookup_or [] k (by_country m cands))
  unfolding by_country
  All-by_country m [] hm h k = hm k
  All-by_country m (c ∷ cands) hm (hc, h) k =
      All-by_country (insert c.country (lookup_or [] c.country m ++ c ∷ []) m) cands
        (λ j.
          subst (All P)
            (sym (lookup_or-insert [] c.country j (lookup_or [] c.country m ++ c ∷ []) m))
            (at j (text_eq c.country j)))
        h k
    where
      at :
          (j : Text) (b : Bool)
          → All P (if b then lookup_or [] c.country m ++ c ∷ [] else lookup_or [] j m)
      at j true = All-append P (lookup_or [] c.country m) (c ∷ []) (hm c.country) (hc, tt)
      at j false = hm j

  All-pick :
      (less : Candidate → Candidate → Bool) (n : ℕ) (m : Map (List Candidate)) (ks : List Text)
      → ((k : Text) → All P (lookup_or [] k m))
      → All P (pick less n m ks)
  unfolding pick
  All-pick less n m [] h = tt
  All-pick less n m (k ∷ ks) h =
      All-append P _ (pick less n m ks)
        (All-take P _ _ (All-stable_sort less P (lookup_or [] k m) (h k))) (All-pick less n m ks h)

  pub All-cap_per_country :
      (cands : List Candidate) (top_n : ℤ) → All P cands → All P (cap_per_country cands top_n)
  unfolding cap_per_country
  All-cap_per_country cands top_n h = go (not_positive top_n)
    where
      groups : Map (List Candidate)
      groups = by_country [] cands

      go :
          (b : Bool)
          → All P (if b then cands else pick faster_or_known (pos_part top_n) groups (keys groups))
      go true = h
      go false =
          All-pick faster_or_known (pos_part top_n) groups (keys groups)
            (All-by_country [] cands (λ k. unfold lookup_or lookup in tt) h)

module _ (codec : Codec) (config : Config) where
  All-of_map :
      (P : Node → Type 0) (cands : List Candidate)
      → All (λ c. P c.node) cands
      → All P (map (λ c. c.node) cands)
  All-of_map P [] h = tt
  All-of_map P (c ∷ cands) (hc, h) = (hc, All-of_map P cands h)

  -- What may be written.
  abbrev pub to_serve : World → List Node
  to_serve w =
      map (λ c. c.node)
        (cap_per_country
          (served_candidates codec config w.db (subscription_member_nodes codec w.db))
          config.sub_top_n)

  pub regenerate_subs-IsServed :
      (w : World)
      → ((regenerate_subs codec config w).db ≡ w.db)
        × (((length (to_serve w) < max 1 (pos_part config.min_keep))
              × (regenerate_subs codec config w ≡ w))
            ⊎ (((max 1 (pos_part config.min_keep) ≤ length (to_serve w))
                × All (IsServed codec config w.db) (regenerate_subs codec config w).output)))
  unfolding regenerate_subs persist
  regenerate_subs-IsServed w = (
    regenerate_subs-db codec config w,
    go (ltb (pos_part config.min_keep) 1) refl (ltb (length (to_serve w)) keep) refl,
  )
    where
      keep : ℕ
      keep = if ltb (pos_part config.min_keep) 1 then 1 else pos_part config.min_keep

      keep-max : keep ≡ max 1 (pos_part config.min_keep)
      keep-max = ground arith

      go :
          (d : Bool)
          → ltb (pos_part config.min_keep) 1 ≡ d
          → (b : Bool) → ltb (length (to_serve w)) keep ≡ b
          → ((length (to_serve w) < max 1 (pos_part config.min_keep))
              × ((if b then w else record w { output = to_serve w }) ≡ w))
            ⊎ ((max 1 (pos_part config.min_keep) ≤ length (to_serve w))
                × All
                    (IsServed codec config w.db)
                    (if b then w else record w { output = to_serve w }).output)
      go d ed true e = inl (omega (arith, ltb→lt _ _ e, keep-max), refl)
      go d ed false e = inr (
        omega (arith, ltb_false→le _ _ e, keep-max),
        All-of_map (IsServed codec config w.db) _ (
            All-cap_per_country _ _ config.sub_top_n
              (served_candidates-IsServed codec config w.db _)),
      )
