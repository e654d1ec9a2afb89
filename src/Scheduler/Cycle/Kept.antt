-- ===== src/Scheduler/Cycle/Kept.antt =====
-- What the probes of `Cycle` do to the keys of the table.
use sub_manager_vpn.Base.Int.{pos_part}
use mathlib.Core.Path.{subst}
use mathlib.Core.Option.{none-ne-some, some-injective}
use sub_manager_vpn.Select.Defs.{Candidate}
use sub_manager_vpn.Scheduler.World.{Config, ProbeResult}
use sub_manager_vpn.Scheduler.Cycle.{take_answers, take_answer}
use sub_manager_vpn.Node.{Node}
use sub_manager_vpn.Base.Map.{lookup, Map}
use sub_manager_vpn.State.Nodes.{upsert_node_with_country, node_id}
use sub_manager_vpn.State.Nodes.Hashed.{
  upsert_node_with_country-IsKept, hashes, IsHashing, set_speed-IsKept, IsKept-IsKept, IsKept,
}
use sub_manager_vpn.State.Results.{
  record_result, BatchResult, record_chunk, add_history, record_row, record_results_batch,
}
use sub_manager_vpn.Base.Chunks.{each, chunk_loop}
use sub_manager_vpn.Base.{
  text_eq, is_empty, false, ◌∙◌, not, refl, if◌then◌else◌, ap, Bool, true, one_of, ◌≡◌, All, Text,
  some, none, zero, length, Option, take, [], ◌+◌, ◌∷◌, suc, ℕ, List,
}
use sub_manager_vpn.State.Tables.{node_hash, Db, NodeRow, Codec}

module _ {A S : Type 0} (P : S → Type 0) (f : A → S → S)
    (keeps : (x : A) (s : S) → P s → P (f x s)) where
  each-keeps : (xs : List A) (s : S) → P s → P (each f xs s)
  each-keeps [] s h = h
  each-keeps (x ∷ xs) s h = each-keeps xs (f x s) (keeps x s h)

module _ {A S : Type 0} (P : S → Type 0) (step : ℕ → List A → S → S)
    (keeps : (i : ℕ) (xs : List A) (s : S) → P s → P (step i xs s)) where
  chunk_loop-keeps :
      (fuel size start : ℕ) (xs : List A) (s : S) → P s → P (chunk_loop step fuel size start xs s)
  chunk_loop-keeps zero size start xs s h = h
  chunk_loop-keeps (suc fuel) size start [] s h = h
  chunk_loop-keeps (suc fuel) size start (x ∷ xs) s h =
      chunk_loop-keeps fuel size (start + size) _ _ (keeps start (take size (x ∷ xs)) s h)

module _ (codec : Codec) (start : List NodeRow) where
  abbrev pub Kept : Db → Type 0
  Kept db = IsKept codec start db.nodes

  record_row-Kept :
      (cycle now : ℕ) (r : BatchResult) (db : Db) → Kept db → Kept (record_row cycle now r db)
  unfolding record_row add_history record_result
  record_row-Kept cycle now r db h = go (node_id r.hash db)
    where
      go :
          (o : Option ℕ)
          → Kept (elim o as (λ x. Db) [
            | none ↦ db
            | some id ↦
                add_history id r.latency_ms cycle now
                  (record_result id r.alive r.latency_ms r.speed_kbps cycle now db)
          ])
      go none = h
      go (some id) =
          IsKept-IsKept codec start db.nodes _ h
            (set_speed-IsKept codec id r.speed_kbps db.nodes h.hashed)

  pub record_results_batch-Kept :
      (cycle : ℕ) (clock : ℕ → ℕ) (rows : List BatchResult) (db : Db)
      → Kept db
      → Kept (record_results_batch cycle clock rows db)
  unfolding record_results_batch record_chunk
  record_results_batch-Kept cycle clock rows db h =
      chunk_loop-keeps Kept (λ i. record_chunk cycle (clock i))
        (λ i xs s k.
          each-keeps Kept (record_row cycle (clock i)) (record_row-Kept cycle (clock i)) xs s k)
        (length rows) 2000 0 rows db h

  -- Every node of the map has its hash in the table.
  abbrev pub AllListed : Map Node → Type 0
  AllListed m = All (λ e. one_of (hashes start) (node_hash codec e.1) ≡ true) m

  lookup-AllListed :
      (h : Text) (m : Map Node) (n : Node)
      → AllListed m
      → lookup h m ≡ some n
      → one_of (hashes start) (node_hash codec n) ≡ true
  unfolding lookup
  lookup-AllListed h [] n a e = absurd (none-ne-some n e)
  lookup-AllListed h ((k, x) ∷ m) n (ax, a) e = go (text_eq k h) (lookup-AllListed h m n a) e
    where
      go :
          (b : Bool)
          → (lookup h m ≡ some n → one_of (hashes start) (node_hash codec n) ≡ true)
          → (if b then some x else lookup h m) ≡ some n
          → one_of (hashes start) (node_hash codec n) ≡ true
      go true ih q =
          subst (λ y. one_of (hashes start) (node_hash codec y) ≡ true) (some-injective x n q) ax
      go false ih q = ih q

  module _ (law : IsHashing codec) (norm_name : Node → Text) (config : Config) (geo : Node → Text)
      (now : ℕ) where
    same_hash :
        (n : Node) (ip cc : Text)
        → node_hash codec (record n { egress_ip = ip; country = cc }) ≡ node_hash codec n
    unfolding node_hash
    same_hash n ip cc = refl

    take_answer-Kept :
        (top_n : ℕ) (n : Node) (h : Text) (r : ProbeResult) (s : Db × Map (List Candidate))
        → one_of (hashes start) (node_hash codec n) ≡ true
        → Kept s.0
        → Kept (take_answer codec norm_name config geo now top_n n h r s).0
    unfolding take_answer
    take_answer-Kept top_n n h r (db, top_k) m k = go (is_empty cc)
      where
        cc : Text
        cc = geo (record n { egress_ip = r.egress_ip })

        located : Node
        located = record n { egress_ip = r.egress_ip; country = cc }

        listed : one_of (hashes db.nodes) (node_hash codec located) ≡ true
        listed =
            ap (λ hs. one_of hs (node_hash codec located)) k.same_hashes
            ∙ (ap (one_of (hashes start)) (same_hash n r.egress_ip cc) ∙ m)

        go :
            (b : Bool)
            → Kept (
                if b
                then db
                else upsert_node_with_country codec norm_name
                    (if b then record n { egress_ip = r.egress_ip } else located)
                    cc
                    now
                    db)
        go true = k
        go false =
            IsKept-IsKept codec start db.nodes _ k (
              upsert_node_with_country-IsKept codec law norm_name located cc now db listed k.hashed)

    pub take_answers-Kept :
        (m : Map Node) (out : Map ProbeResult) (s : Db × Map (List Candidate))
        → AllListed m
        → Kept s.0
        → Kept (take_answers codec norm_name config geo now m out s).0
    unfolding take_answers
    take_answers-Kept m [] s a k = k
    take_answers-Kept m ((h, r) ∷ out) s a k =
        take_answers-Kept m out _ a (go r.alive (lookup h m) refl)
      where
        next : Bool → Option Node → Db × Map (List Candidate)
        next b o = if not b then s else elim o [
          | none ↦ s
          | some n ↦ take_answer codec norm_name config geo now (pos_part config.top_n) n h r s
        ]

        go : (b : Bool) (o : Option Node) → lookup h m ≡ o → Kept (next b o).0
        go false o e = k
        go true none e = k
        go true (some n) e =
            take_answer-Kept (pos_part config.top_n) n h r s (lookup-AllListed h m n a e) k
