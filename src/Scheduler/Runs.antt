-- ===== src/Scheduler/Runs.antt =====
-- The routines of the scheduler in any order, as its timers and requests may start them.
pub mod Routines
pub mod Clean
use sub_manager_vpn.Scheduler.Reconcile.{seed_subscription}
use sub_manager_vpn.Scheduler.Serve.{regenerate_subs}
use sub_manager_vpn.Scheduler.Members.{sub_ping, sub_validity}
use sub_manager_vpn.Scheduler.Cycle.{run_cycle}
use sub_manager_vpn.Scheduler.World.{Checked, Engine, World, Config}
use sub_manager_vpn.Base.{some, ◌≡◌, Option, List, ℕ, Text}
use sub_manager_vpn.Node.{Node}
use sub_manager_vpn.State.Tables.{SubscriptionRow, Codec}

module _ (codec : Codec) (norm_name : Node → Text) (config : Config) where
  -- One routine, with whatever the engine, the clock and the sources give it.
  pub data Step : World → World → Type 0 where
    cycled :
        {w v : World} (engine : Engine) (geo : Node → Text) (now : ℕ) (clock : ℕ → ℕ) (fuel : ℕ)
        (sources : List (Option (List Node)))
        → run_cycle codec norm_name config engine geo now clock fuel sources w ≡ some v
        → Step w v
    checked :
        {w : World} (probe : List SubscriptionRow → List Checked) (now : ℕ)
        → Step w (sub_validity codec config probe now w)
    pinged :
        {w : World} (probe : List SubscriptionRow → List Checked) (now : ℕ)
        → Step w (sub_ping codec config probe now w)
    regenerated : {w : World} → Step w (regenerate_subs codec config w)
    seeded : {w : World} (now : ℕ) → Step w (seed_subscription codec config now w)

  -- What any number of routines may lead to from a world.
  pub data Run : World → World → Type 0 where
    here : {w : World} → Run w w
    next : {w v u : World} → Run w v → Step v u → Run w u
