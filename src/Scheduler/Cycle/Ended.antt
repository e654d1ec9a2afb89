-- ===== src/Scheduler/Cycle/Ended.antt =====
-- How many pages a run of `Cycle` reads.
use sub_manager_vpn.State.Nodes.{upsert_node}
use sub_manager_vpn.Base.Chunks.{each}
use Prim.Native.Nat.{zero}
use mathlib.Core.Path.{subst}
use sub_manager_vpn.Scheduler.Cycle.Listed.{
  count_above-length, page-ListedRow, ListedRow, probe_page-Kept, count_above-lt, occurs,
  last_id-above, count_above,
}
use sub_manager_vpn.State.Queries.{list_nodes_chunk}
use sub_manager_vpn.Select.Defs.{Candidate}
use sub_manager_vpn.Base.Map.{Map}
use sub_manager_vpn.Scheduler.Cycle.{
  all_of, finish, collect, run_cycle, probe_page, last_id, chunk_size, probe_loop,
}
use sub_manager_vpn.State.Nodes.Hashed.{
  length-upsert_node, upsert_node-IsHashed, IsKept-start, ids, IsKept, IsHashed, IsHashing,
}
use sub_manager_vpn.Scheduler.World.{World, Engine, Config}
use sub_manager_vpn.Base.{
  none, ◌+◌, ◌≤◌, Option, zero, ◌∙◌, sym, refl, [], is_nil, ap, if◌then◌else◌, suc, arith, ◌∷◌, ◌<◌,
  some, length, ◌≡◌, List, All, ℕ, Text,
}
use sub_manager_vpn.Node.{Node}
use sub_manager_vpn.State.Tables.{increment_cycle, NodeRow, Db, Codec}

length-ids : (rows : List NodeRow) → length (ids rows) ≡ length rows
length-ids [] = refl
length-ids (r ∷ rows) = ap suc (length-ids rows)

module _ (codec : Codec) (norm_name : Node → Text) (config : Config) (law : IsHashing codec)
    (engine : Engine) (geo : Node → Text) (cycle now : ℕ) (clock : ℕ → ℕ) where
  abbrev Progress : Type 0
  Progress = Db × Map (List Candidate)

  abbrev Ends : ℕ → ℕ → Progress → Type 0
  Ends fuel after s =
      (t : Progress) × (probe_loop codec norm_name config engine geo cycle now clock fuel after s
        ≡ some t)

  probe_loop-page :
      (fuel after : ℕ) (s : Progress)
      → ((r : NodeRow) (rows : List NodeRow)
          → list_nodes_chunk after (chunk_size codec norm_name config) s.0 ≡ r ∷ rows
          → Ends fuel
              (last_id codec norm_name config after (r ∷ rows))
              (probe_page codec norm_name config engine geo cycle now clock (r ∷ rows) s))
      → Ends (suc fuel) after s
  unfolding probe_loop
  probe_loop-page fuel after s next =
      go (list_nodes_chunk after (chunk_size codec norm_name config) s.0) next
    where
      go :
          (page : List NodeRow)
          → ((r : NodeRow) (rows : List NodeRow)
              → page ≡ r ∷ rows
              → Ends fuel
                  (last_id codec norm_name config after (r ∷ rows))
                  (probe_page codec norm_name config engine geo cycle now clock (r ∷ rows) s))
          → (t : Progress) × ((if is_nil page
                then some s
                else probe_loop codec norm_name config engine geo cycle now clock fuel
                    (last_id codec norm_name config after page)
                    (probe_page codec norm_name config engine geo cycle now clock page s))
              ≡ some t)
      go [] k = (s, refl)
      go (r ∷ rows) k = k r rows refl

  probe_loop-Ends :
      (start : List NodeRow) (fuel after : ℕ) (s : Progress)
      → IsKept codec start s.0.nodes
      → count_above after (ids start) < fuel
      → Ends fuel after s
  probe_loop-Ends start zero after s k h = absurd (omega (arith, h))
  probe_loop-Ends start (suc fuel) after s k h = probe_loop-page fuel after s (λ r rows e.
      let a = last_id-above codec norm_name config after _ s.0 r rows e in
      let o =
        ap (occurs (last_id codec norm_name config after (r ∷ rows))) (sym k.same_ids) ∙ a.1 in
      let less = count_above-lt after _ (ids start) a.0 o in
      probe_loop-Ends start fuel (last_id codec norm_name config after (r ∷ rows)) _
        (probe_page-Kept codec norm_name config start law engine geo cycle now clock (r ∷ rows) s
          (subst (All (ListedRow codec norm_name config start)) e
            (page-ListedRow codec norm_name config start after _ s.0 k))
          k)
        (omega (arith, less, h)))

  probe_loop-Ends_start :
      (fuel : ℕ) (s : Progress)
      → All (IsHashed codec) s.0.nodes
      → length s.0.nodes < fuel
      → Ends fuel 0 s
  probe_loop-Ends_start fuel s h l =
      probe_loop-Ends s.0.nodes fuel 0 s (IsKept-start codec s.0.nodes h)
        (omega (arith, count_above-length 0 (ids s.0.nodes), length-ids s.0.nodes, l))

module _ (codec : Codec) (law : IsHashing codec) (norm_name : Node → Text) where
  upsert_rows-IsHashed :
      (nodes : List Node) (cycle now : ℕ) (db : Db)
      → All (IsHashed codec) db.nodes
      → All (IsHashed codec) (each (λ n. upsert_node codec norm_name n cycle now) nodes db).nodes
  upsert_rows-IsHashed [] cycle now db h = h
  upsert_rows-IsHashed (n ∷ nodes) cycle now db h =
      upsert_rows-IsHashed nodes cycle now _
        (upsert_node-IsHashed codec law norm_name n cycle now db h)

  length-upsert_rows :
      (nodes : List Node) (cycle now : ℕ) (db : Db)
      → length (each (λ n. upsert_node codec norm_name n cycle now) nodes db).nodes
        ≤ length nodes + length db.nodes
  length-upsert_rows [] cycle now db = omega arith
  length-upsert_rows (n ∷ nodes) cycle now db =
      let a = length-upsert_rows nodes cycle now (upsert_node codec norm_name n cycle now db) in
      let b = length-upsert_node codec law norm_name n cycle now db in omega (arith, a, b)

  -- A cycle ends, whatever the engine answers, within as many pages as there are rows and fetched nodes,
  -- and one more, when each row's node has the row's hash and encoding a node keeps its hash: probing
  -- then adds no row behind the pages.
  pub run_cycle-ends :
      (config : Config) (engine : Engine) (geo : Node → Text) (now : ℕ) (clock : ℕ → ℕ) (fuel : ℕ)
      (sources : List (Option (List Node))) (w : World)
      → All (IsHashed codec) w.db.nodes
      → length (collect codec [] sources) + length w.db.nodes < fuel
      → (v : World) × (run_cycle codec norm_name config engine geo now clock fuel sources w
          ≡ some v)
  unfolding run_cycle increment_cycle
  run_cycle-ends config engine geo now clock fuel sources w h l =
      let e =
        probe_loop-Ends_start codec norm_name config law engine geo cycle now clock fuel
          (stored, []) (upsert_rows-IsHashed (collect codec [] sources) cycle now counted h)
          (omega (arith, length-upsert_rows (collect codec [] sources) cycle now counted, l)) in
      (
        _,
        ap
            (λ o. elim o as (λ x. Option World) [
              | none ↦ none
              | some s ↦ some (
                  finish codec norm_name config cycle now (all_of codec norm_name config s.1)
                    (record w { db = s.0 }))
            ])
            e.1,
      )
    where
      cycle : ℕ
      cycle = (increment_cycle w.db).0

      counted : Db
      counted = (increment_cycle w.db).1

      stored : Db
      stored =
          each (λ n. upsert_node codec norm_name n cycle now) (collect codec [] sources) counted
