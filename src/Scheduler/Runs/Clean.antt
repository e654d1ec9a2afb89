-- ===== src/Scheduler/Runs/Clean.antt =====
-- No routine writes a banned node.
use mathlib.Core.Path.{subst}
use sub_manager_vpn.State.Subscription.{list_subscription}
use sub_manager_vpn.Base.Map.{Map}
use sub_manager_vpn.State.Nodes.{upsert_node}
use sub_manager_vpn.State.Retention.{default_retention, prune}
use sub_manager_vpn.Base.Chunks.{each}
use sub_manager_vpn.Scheduler.Reconcile.{seed_subscription, reconcile}
use sub_manager_vpn.Scheduler.Serve.{regenerate_subs}
use sub_manager_vpn.Select.Defs.{select, apply_degrade, Candidate}
use sub_manager_vpn.Scheduler.Runs.Routines.{
  seed_subscription-IsClean, regenerate_subs-IsClean, sub_ping-IsClean, sub_validity-IsClean,
  IsClean,
}
use sub_manager_vpn.Scheduler.Cycle.{probe_loop, all_of, collect, run_cycle, finish}
use sub_manager_vpn.Scheduler.World.{Engine, World, Config}
use sub_manager_vpn.Base.{
  false, true, is_nil, none, if◌then◌else◌, [], Bool, some, ◌≡◌, Option, List, ℕ, Text,
}
use sub_manager_vpn.Node.{Node}
use sub_manager_vpn.State.Tables.{node_hash, increment_cycle, Db, Codec}
use sub_manager_vpn.Scheduler.Runs.{Run, here, next, cycled, checked, pinged, regenerated, seeded}

module _ (codec : Codec) (norm_name : Node → Text) (config : Config) where
  finish-IsClean :
      (cycle now : ℕ) (cands : List Candidate) (w : World)
      → IsClean codec config w
      → IsClean codec config (finish codec norm_name config cycle now cands w)
  unfolding finish
  finish-IsClean cycle now cands w h = go (is_nil (list_subscription served.db))
    where
      served : World
      served = regenerate_subs codec config (record w {
        db =
            reconcile codec config
              (apply_degrade (node_hash codec) (select cands config.top_n) cands config.degrade_ms)
              now
              (prune (record default_retention { dead_cycles = config.dead_cycles }) cycle now
                w.db);
      })

      clean : IsClean codec config served
      clean = regenerate_subs-IsClean codec config _ h

      go :
          (b : Bool)
          → IsClean codec config (if b then seed_subscription codec config now served else served)
      go true = seed_subscription-IsClean codec config now served clean
      go false = clean

  run_cycle-IsClean :
      (engine : Engine) (geo : Node → Text) (now : ℕ) (clock : ℕ → ℕ) (fuel : ℕ)
      (sources : List (Option (List Node))) (w v : World)
      → IsClean codec config w
      → run_cycle codec norm_name config engine geo now clock fuel sources w ≡ some v
      → IsClean codec config v
  unfolding run_cycle
  run_cycle-IsClean engine geo now clock fuel sources w v h =
      go (probe_loop codec norm_name config engine geo counted.0 now clock fuel 0 (stored, []))
    where
      counted : ℕ × Db
      counted = increment_cycle w.db

      stored : Db
      stored =
          each (λ n. upsert_node codec norm_name n counted.0 now) (collect codec [] sources)
            counted.1

      go :
          (o : Option (Db × Map (List Candidate)))
          → (elim o as (λ _. Option World) [
            | none ↦ none
            | some s ↦ some (
                finish codec norm_name config counted.0 now
                  (all_of codec norm_name config s.1)
                  (record w { db = s.0 }))
          ])
            ≡ some v
          → IsClean codec config v
      go none e = absurd (cc)
      go (some s) e =
          let same : finish codec norm_name config counted.0 now (all_of codec norm_name config s.1)
                (record w { db = s.0 })
              ≡ v =
            cc in
          subst (IsClean codec config) same (
            finish-IsClean counted.0 now (all_of codec norm_name config s.1) (record w { db = s.0 })
              h)

  -- As long as the bans stay the same, no sequence of cycles, checks, pings, seedings and
  -- regenerations puts a banned node into files that had none.
  pub Run-IsClean :
      {w v : World}
      → Run codec norm_name config w v
      → IsClean codec config w
      → IsClean codec config v
  Run-IsClean here h = h
  Run-IsClean (next r (cycled engine geo now clock fuel sources e)) h =
      run_cycle-IsClean engine geo now clock fuel sources _ _ (Run-IsClean r h) e
  Run-IsClean (next r (checked probe now)) h =
      sub_validity-IsClean codec config probe now _ (Run-IsClean r h)
  Run-IsClean (next r (pinged probe now)) h =
      sub_ping-IsClean codec config probe now _ (Run-IsClean r h)
  Run-IsClean (next r regenerated) h = regenerate_subs-IsClean codec config _ (Run-IsClean r h)
  Run-IsClean (next r (seeded now)) h =
      seed_subscription-IsClean codec config now _ (Run-IsClean r h)
