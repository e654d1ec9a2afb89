-- ===== src/Scheduler/Cycle/Listed.antt =====
-- The pages of `Cycle` and the ids behind them.
use sub_manager_vpn.State.Results.{record_results_batch}
use sub_manager_vpn.Select.Defs.{Candidate}
use sub_manager_vpn.Scheduler.Cycle.Kept.{record_results_batch-Kept, take_answers-Kept, AllListed}
use sub_manager_vpn.State.Nodes.{row_node}
use sub_manager_vpn.Base.Map.{Map, insert}
use sub_manager_vpn.Base.Sort.Laws.{All-stable_sort}
use mathlib.Core.Path.{subst}
use sub_manager_vpn.State.Queries.{list_nodes_chunk}
use sub_manager_vpn.Scheduler.World.{ProbeResult, Engine, Config}
use sub_manager_vpn.Node.{Node}
use sub_manager_vpn.Scheduler.Cycle.{
  take_answers, batch_of, probe_all, rests, excluded, default_probe, probe_page, nodes_by_hash,
  chunk_cands, last_id,
}
use sub_manager_vpn.State.Nodes.Hashed.{IsHashed, IsKept, IsHashing, ids, hashes}
use sub_manager_vpn.State.Tables.{node_hash, Db, Codec, NodeRow}
use sub_manager_vpn.Base.{
  is_nil, false, ◌∙◌, text_eq, not, ap, filter, map, All-filter_of, All-filter, All-take, Text,
  text_eq_refl, All-map, ◌+◌, true, ltb, [], ◌==◌, ◌≡◌, length, if◌then◌else◌, arith, any, All, ◌∷◌,
  ◌≤◌, Bool, ◌<◌, ℕ, one_of, List,
}

-- The numbers of a list above a bound.
unfoldable pub count_above : ℕ → List ℕ → ℕ
count_above a [] = 0
count_above a (i ∷ is) = (if ltb a i then 1 else 0) + count_above a is

unfoldable pub occurs : ℕ → List ℕ → Bool
occurs j is = any (λ i. i == j) is

count_above-le : (a j : ℕ) (is : List ℕ) → a ≤ j → count_above j is ≤ count_above a is
unfolding count_above
count_above-le a j [] h = omega arith
count_above-le a j (i ∷ is) h = ground (arith, count_above-le a j is h)

pub count_above-lt :
    (a j : ℕ) (is : List ℕ) → a < j → occurs j is ≡ true → count_above j is < count_above a is
unfolding count_above occurs
count_above-lt a j [] h o = absurd (ground (arith, o))
count_above-lt a j (i ∷ is) h o =
    ground (arith, h, o, count_above-le a j is (omega (arith, h)), count_above-lt a j is h)

pub count_above-length : (a : ℕ) (is : List ℕ) → count_above a is ≤ length is
unfolding count_above
count_above-length a [] = omega arith
count_above-length a (i ∷ is) = ground (arith, count_above-length a is)

rows-occur : (rows : List NodeRow) → All (λ r. occurs r.id (ids rows) ≡ true) rows
unfolding occurs
rows-occur [] = tt
rows-occur (r ∷ rows) = (
  ground arith,
  All-map (λ q. occurs q.id (ids rows) ≡ true) _ (λ q h. ground (arith, h)) rows (rows-occur rows),
)

rows-listed : (rows : List NodeRow) → All (λ r. one_of (hashes rows) r.hash ≡ true) rows
unfolding one_of
rows-listed [] = tt
rows-listed (r ∷ rows) = (
  ground (arith, text_eq_refl r.hash),
  All-map (λ q. one_of (hashes rows) q.hash ≡ true) _ (λ q h. ground (arith, h)) rows
      (rows-listed rows),
)

module _ (codec : Codec) (norm_name : Node → Text) (config : Config) where
  last_id-of :
      (P : ℕ → Type 0) (id : ℕ) (rows : List NodeRow)
      → P id
      → All (λ r. P r.id) rows
      → P (last_id codec norm_name config id rows)
  unfolding last_id
  last_id-of P id [] h a = h
  last_id-of P id (r ∷ rows) h (ar, a) = last_id-of P r.id rows ar a

  -- What holds of every row of a page.
  list_nodes_chunk-All :
      (P : NodeRow → Type 0) (after limit : ℕ) (db : Db)
      → All P db.nodes
      → All P (list_nodes_chunk after limit db)
  unfolding list_nodes_chunk
  list_nodes_chunk-All P after limit db h =
      All-take P limit _ (All-stable_sort _ P _ (All-filter P (λ r. ltb after r.id) db.nodes h))

  list_nodes_chunk-after :
      (after limit : ℕ) (db : Db) → All (λ r. after < r.id) (list_nodes_chunk after limit db)
  unfolding list_nodes_chunk
  list_nodes_chunk-after after limit db =
      All-take (λ (r : NodeRow). after < r.id) limit _
        (All-stable_sort _ (λ (r : NodeRow). after < r.id) _
          (All-filter_of (λ (r : NodeRow). after < r.id) (λ r. ltb after r.id)
            (λ r e. ground (arith, e)) db.nodes))

  -- Each page goes on behind the one before, to an id of the table.
  pub last_id-above :
      (after limit : ℕ) (db : Db) (r : NodeRow) (rows : List NodeRow)
      → list_nodes_chunk after limit db ≡ r ∷ rows
      → (after < last_id codec norm_name config after (r ∷ rows))
        × (occurs (last_id codec norm_name config after (r ∷ rows)) (ids db.nodes) ≡ true)
  unfolding last_id
  last_id-above after limit db r rows e =
      let a =
        subst (All (λ (q : NodeRow). after < q.id)) e (list_nodes_chunk-after after limit db) in
      let o =
        subst (All (λ (q : NodeRow). occurs q.id (ids db.nodes) ≡ true)) e
          (list_nodes_chunk-All _ after limit db (rows-occur db.nodes)) in
      (
        last_id-of (λ i. after < i) r.id rows a.0 a.1,
        last_id-of (λ i. occurs i (ids db.nodes) ≡ true) r.id rows o.0 o.1,
      )

module _ (codec : Codec) (norm_name : Node → Text) (config : Config) (start : List NodeRow) where
  abbrev pub Listed : Node → Type 0
  Listed n = one_of (hashes start) (node_hash codec n) ≡ true

  insert-AllListed :
      (h : Text) (n : Node) (m : Map Node)
      → Listed n
      → AllListed codec start m
      → AllListed codec start (insert h n m)
  unfolding insert
  insert-AllListed h n [] l a = (l, tt)
  insert-AllListed h n ((k, x) ∷ m) l (ax, a) = go (text_eq k h) (insert-AllListed h n m l a)
    where
      go :
          (b : Bool)
          → AllListed codec start (insert h n m)
          → AllListed codec start (if b then (h, n) ∷ m else (k, x) ∷ insert h n m)
      go true r = (l, a)
      go false r = (ax, r)

  nodes_by_hash-AllListed :
      (m : Map Node) (nodes : List Node)
      → AllListed codec start m
      → All Listed nodes
      → AllListed codec start (nodes_by_hash codec norm_name config m nodes)
  unfolding nodes_by_hash
  nodes_by_hash-AllListed m [] a h = a
  nodes_by_hash-AllListed m (n ∷ nodes) a (hn, h) =
      nodes_by_hash-AllListed (insert (node_hash codec n) n m) nodes
        (insert-AllListed (node_hash codec n) n m hn a) h

  abbrev pub ListedRow : NodeRow → Type 0
  ListedRow r = Listed (row_node codec r)

  image-Listed : (rows : List NodeRow) → All ListedRow rows → All Listed (map (row_node codec) rows)
  image-Listed [] h = tt
  image-Listed (r ∷ rows) (hr, h) = (hr, image-Listed rows h)

  chunk_cands-Listed :
      (cycle : ℕ) (db : Db) (rows : List NodeRow)
      → All ListedRow rows
      → All Listed (chunk_cands codec norm_name config cycle db rows)
  unfolding chunk_cands
  chunk_cands-Listed cycle db rows h = image-Listed _ (go (is_nil fresh))
    where
      usable : List NodeRow
      usable = filter (λ r. not (excluded codec norm_name config (row_node codec r))) rows

      fresh : List NodeRow
      fresh = filter (λ r. not (rests codec norm_name config cycle db r)) usable

      known : All ListedRow usable
      known = All-filter ListedRow _ rows h

      go :
          (b : Bool)
          → All ListedRow
              (if b then filter (rests codec norm_name config cycle db) usable else fresh)
      go true = All-filter ListedRow _ usable known
      go false = All-filter ListedRow _ usable known

  pub page-ListedRow :
      (after limit : ℕ) (db : Db)
      → IsKept codec start db.nodes
      → All ListedRow (list_nodes_chunk after limit db)
  page-ListedRow after limit db k =
      list_nodes_chunk-All codec norm_name config ListedRow after limit db
        (both db.nodes k.hashed listed)
    where
      listed : All (λ r. one_of (hashes start) r.hash ≡ true) db.nodes
      listed =
          subst (λ hs. All (λ (r : NodeRow). one_of hs r.hash ≡ true) db.nodes) k.same_hashes
            (rows-listed db.nodes)

      both :
          (rows : List NodeRow)
          → All (IsHashed codec) rows
          → All (λ r. one_of (hashes start) r.hash ≡ true) rows
          → All ListedRow rows
      both [] h l = tt
      both (r ∷ rows) (hr, h) (lr, l) = (ap (one_of (hashes start)) hr ∙ lr, both rows h l)

  module _ (law : IsHashing codec) (engine : Engine) (geo : Node → Text) (cycle now : ℕ)
      (clock : ℕ → ℕ) where
    pub probe_page-Kept :
        (rows : List NodeRow) (s : Db × Map (List Candidate))
        → All ListedRow rows
        → IsKept codec start s.0.nodes
        → IsKept codec start
            (probe_page codec norm_name config engine geo cycle now clock rows s).0.nodes
    unfolding probe_page default_probe
    probe_page-Kept rows (db, top_k) l k = go (is_nil cands)
      where
        cands : List Node
        cands = chunk_cands codec norm_name config cycle db rows

        out : Map ProbeResult
        out = probe_all codec norm_name config engine [] cands

        written : Db
        written = record_results_batch cycle clock (batch_of codec norm_name config out) db

        go :
            (b : Bool)
            → IsKept codec start
                (if b
                  then (db, top_k)
                  else take_answers codec norm_name config geo now
                      (nodes_by_hash codec norm_name config [] cands)
                      out
                      (written, top_k)).0.nodes
        go true = k
        go false =
            take_answers-Kept codec start law norm_name config geo now
              (nodes_by_hash codec norm_name config [] cands) out (written, top_k)
              (nodes_by_hash-AllListed [] cands tt (chunk_cands-Listed cycle db rows l))
              (record_results_batch-Kept codec start cycle clock _ db k)
