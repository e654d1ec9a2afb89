-- ===== src/Scheduler/Cycle.antt =====
-- `Cycle`, not stopped: what one pass from the sources to the files does.
pub mod Collected
pub mod Pages
pub mod Finished
pub mod Kept
pub mod Listed
pub mod Ended
pub mod Examples
use sub_manager_vpn.State.Subscription.{list_subscription}
use sub_manager_vpn.Scheduler.Reconcile.{seed_subscription, reconcile}
use sub_manager_vpn.Scheduler.Serve.{regenerate_subs}
use sub_manager_vpn.State.Queries.{list_nodes_chunk}
use sub_manager_vpn.Base.Chunks.{each}
use sub_manager_vpn.State.Nodes.{upsert_node, upsert_node_with_country, row_node}
use sub_manager_vpn.State.Retention.{default_retention, prune}
use sub_manager_vpn.Base.Int.{pos_part, not_positive}
use sub_manager_vpn.State.Results.{latest_result, record_results_batch, BatchResult}
use sub_manager_vpn.Select.Defs.{select, apply_degrade, add_to_top_k, Candidate}
use sub_manager_vpn.Base.Map.{lookup, insert, Map}
use sub_manager_vpn.Scheduler.World.{World, ProbeResult, Engine, Config}
use sub_manager_vpn.Node.{Node}
use sub_manager_vpn.Base.{
  is_nil, ◌-◌, ltb, leb, zero, ◌&&◌, trim_space, to_lower, ◌*◌, ◌||◌, suc, map, false, to_upper,
  none, is_empty, [], one_of, not, if◌then◌else◌, ◌++◌, ℕ, some, filter, Bool, ◌∷◌, Option, Text,
  List,
}
use sub_manager_vpn.State.Tables.{increment_cycle, NodeRow, Db, node_hash, Codec}

module _ (codec : Codec) where
  -- The nodes of the sources that could be fetched, the first with each hash.
  unfoldable pub collect_source : List Text → List Node → List Text × List Node
  collect_source seen [] = (seen, [])
  collect_source seen (n ∷ nodes) =
      let h = node_hash codec n in
      let again = one_of seen h in
      let rest = collect_source (if again then seen else h ∷ seen) nodes in
      if again then rest else (rest.0, n ∷ rest.1)

  unfoldable pub collect : List Text → List (Option (List Node)) → List Node
  collect seen [] = []
  collect seen (none ∷ sources) = collect seen sources
  collect seen (some fetched ∷ sources) =
      let got = collect_source seen fetched in got.1 ++ collect got.0 sources

module _ (codec : Codec) (norm_name : Node → Text) (config : Config) where
  -- `defaultProbe`: the answers by hash.
  unfoldable pub probe_all : Engine → Map ProbeResult → List Node → Map ProbeResult
  probe_all engine out [] = out
  probe_all engine out (n ∷ nodes) =
      probe_all engine (elim (engine n) [ none ↦ out | some r ↦ insert (node_hash codec n) r out ])
        nodes

  unfoldable pub batch_of : Map ProbeResult → List BatchResult
  batch_of [] = []
  batch_of ((h, r) ∷ out) =
      record { hash = h; alive = r.alive; latency_ms = r.latency_ms; speed_kbps = r.speed_kbps }
      ∷ batch_of out

  unfoldable pub default_probe : Engine → ℕ → (ℕ → ℕ) → List Node → Db → Map ProbeResult × Db
  default_probe engine cycle clock nodes db =
      let out = probe_all engine [] nodes in
      (out, record_results_batch cycle clock (batch_of out) db)

  unfoldable pub exclude : List Text
  exclude =
      filter (λ c. not (is_empty c)) (map (λ c. to_upper (trim_space c)) config.exclude_countries)

  unfoldable pub skip_proto : List Text
  skip_proto =
      filter (λ p. not (is_empty p)) (map (λ p. to_lower (trim_space p)) config.exclude_protocols)

  unfoldable pub excluded : Node → Bool
  excluded n = one_of exclude (to_upper n.country) || one_of skip_proto (to_lower n.protocol)

  -- Dead within the last `ReProbeCycles` cycles.
  unfoldable pub rests : ℕ → Db → NodeRow → Bool
  rests cycle db r =
      if not_positive config.re_probe_cycles then false else elim (latest_result r.id db) [
        | none ↦ false
        | some l ↦
            not l.alive
            && (leb l.cycle_id cycle && ltb (cycle - l.cycle_id) (pos_part config.re_probe_cycles))
      ]

  -- The nodes of a page to be probed: all that rest, if no other is left.
  unfoldable pub chunk_cands : ℕ → Db → List NodeRow → List Node
  chunk_cands cycle db rows =
      let usable = filter (λ r. not (excluded (row_node codec r))) rows in
      let fresh = filter (λ r. not (rests cycle db r)) usable in
      map (row_node codec) (if is_nil fresh then filter (rests cycle db) usable else fresh)

  unfoldable pub nodes_by_hash : Map Node → List Node → Map Node
  nodes_by_hash m [] = m
  nodes_by_hash m (n ∷ nodes) = nodes_by_hash (insert (node_hash codec n) n m) nodes

  -- What a probe answer does: the country of an alive node is looked up and written, and the node
  -- becomes a candidate.
  unfoldable pub take_answer :
      (Node → Text)
      → ℕ
      → ℕ
      → Node
      → Text
      → ProbeResult
      → Db × Map (List Candidate)
      → Db × Map (List Candidate)
  take_answer geo now top_n n h r (db, top_k) =
      let n' = record n { egress_ip = r.egress_ip } in
      let cc = geo n' in
      let located = if is_empty cc then n' else record n' { country = cc } in
      let db' =
        if is_empty cc then db else upsert_node_with_country codec norm_name located cc now db in
      (
        db',
        add_to_top_k top_n
            (record { node = located; latency_ms = r.latency_ms; country = cc; hash = h }) top_k,
      )

  unfoldable pub take_answers :
      (Node → Text)
      → ℕ
      → Map Node
      → Map ProbeResult
      → Db × Map (List Candidate)
      → Db × Map (List Candidate)
  take_answers geo now m [] s = s
  take_answers geo now m ((h, r) ∷ out) s = take_answers geo now m out (
      if not r.alive then s else elim (lookup h m) [
        | none ↦ s
        | some n ↦ take_answer geo now (pos_part config.top_n) n h r s
      ])

  -- `ProbeBatch`, or ten for each worker.
  unfoldable pub chunk_size : ℕ
  chunk_size =
      if not (not_positive config.probe_batch)
      then pos_part config.probe_batch
      else if not (not_positive config.workers)
      then pos_part config.workers * 10
      else 3500

  unfoldable pub last_id : ℕ → List NodeRow → ℕ
  last_id id [] = id
  last_id id (r ∷ rows) = last_id r.id rows

  -- One page of the streamed probe phase.
  unfoldable pub probe_page :
      Engine
      → (Node → Text)
      → ℕ
      → ℕ
      → (ℕ → ℕ)
      → List NodeRow
      → Db × Map (List Candidate)
      → Db × Map (List Candidate)
  probe_page engine geo cycle now clock rows (db, top_k) =
      let cands = chunk_cands cycle db rows in
      if is_nil cands
      then (db, top_k)
      else let got = default_probe engine cycle clock cands db in
        take_answers geo now (nodes_by_hash [] cands) got.0 (got.1, top_k)

  -- The loop over the pages; `none` if it does not end within the fuel.
  unfoldable pub probe_loop :
      Engine
      → (Node → Text)
      → ℕ
      → ℕ
      → (ℕ → ℕ)
      → ℕ
      → ℕ
      → Db × Map (List Candidate)
      → Option (Db × Map (List Candidate))
  probe_loop engine geo cycle now clock zero after s = none
  probe_loop engine geo cycle now clock (suc fuel) after s =
      let rows = list_nodes_chunk after chunk_size s.0 in
      let rest =
        probe_loop engine geo cycle now clock fuel (last_id after rows)
          (probe_page engine geo cycle now clock rows s) in
      if is_nil rows then some s else rest

  unfoldable pub all_of : Map (List Candidate) → List Candidate
  all_of [] = []
  all_of ((k, group) ∷ top_k) = group ++ all_of top_k

  -- From the probed database to the files.
  unfoldable pub finish : ℕ → ℕ → List Candidate → World → World
  finish cycle now cands w =
      let pruned =
        prune (record default_retention { dead_cycles = config.dead_cycles }) cycle now w.db in
      let selected =
        apply_degrade (node_hash codec) (select cands config.top_n) cands config.degrade_ms in
      let served =
        regenerate_subs codec config
          (record w { db = reconcile codec config selected now pruned }) in
      if is_nil (list_subscription served.db)
      then seed_subscription codec config now served
      else served

  -- `Cycle`: the sources as they were fetched, and the engine, the country lookup and the clocks.
  unfoldable pub run_cycle :
      Engine → (Node → Text) → ℕ → (ℕ → ℕ) → ℕ → List (Option (List Node)) → World → Option World
  run_cycle engine geo now clock fuel sources w =
      let counted = increment_cycle w.db in
      let stored =
        each (λ n. upsert_node codec norm_name n counted.0 now) (collect codec [] sources)
          counted.1 in
      elim (probe_loop engine geo counted.0 now clock fuel 0 (stored, [])) [
        | none ↦ none
        | some s ↦ some (finish counted.0 now (all_of s.1) (record w { db = s.0 }))
      ]
