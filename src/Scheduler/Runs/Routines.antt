-- ===== src/Scheduler/Runs/Routines.antt =====
-- The routines between the cycles write no banned node.
use mathlib.Core.Path.{subst}
use sub_manager_vpn.State.Nodes.{node_by_hash}
use sub_manager_vpn.Base.Int.{pos_part}
use Prim.Native.Nat.{max}
use sub_manager_vpn.State.Subscription.{
  set_sub_ping_batch, set_sub_valid_checked_batch, add_subscription, SubPingRow,
  remove_subscription, list_subscription,
}
use sub_manager_vpn.Scheduler.Serve.Served.{regenerate_subs-IsServed, IsServed, to_serve}
use sub_manager_vpn.Base.Chunks.{each}
use sub_manager_vpn.Scheduler.Serve.{regenerate_subs}
use sub_manager_vpn.Scheduler.Reconcile.{seed_subscription}
use sub_manager_vpn.Scheduler.Members.{
  replacements, ping_rows, first_alive, checked_hashes, drop_orphans, resolved, sub_validity,
  sub_ping, replace_routine, check_row,
}
use sub_manager_vpn.Scheduler.World.{ProbeResult, Engine, Checked, World, Config}
use sub_manager_vpn.Base.{
  All-map, inr, sym, ◌||◌, inl, ltb, ◌≤◌, is_nil, ◌⊎◌, true, some, false, [], ◌<◌, ◌∷◌, ◌≡◌, none,
  if◌then◌else◌, length, Option, Bool, List, All, ℕ, Text,
}
use sub_manager_vpn.Node.{Node}
use sub_manager_vpn.State.Tables.{node_hash, SubscriptionRow, Codec}

module _ (codec : Codec) (config : Config) where
  -- No node in the files is banned.
  abbrev pub IsClean : World → Type 0
  IsClean w = All (λ n. config.is_banned (node_hash codec n) ≡ false) w.output

  pub regenerate_subs-IsClean : (w : World) → IsClean w → IsClean (regenerate_subs codec config w)
  regenerate_subs-IsClean w h = go ((regenerate_subs-IsServed codec config w).1)
    where
      go :
          ((length (to_serve codec config w) < max 1 (pos_part config.min_keep))
              × (regenerate_subs codec config w ≡ w))
            ⊎ ((max 1 (pos_part config.min_keep) ≤ length (to_serve codec config w))
                × All (IsServed codec config w.db) (regenerate_subs codec config w).output)
          → IsClean (regenerate_subs codec config w)
      go (inl (few, same)) = subst IsClean (sym same) h
      go (inr (enough, a)) =
          All-map (IsServed codec config w.db) _ (λ n s. s.0)
            (regenerate_subs codec config w).output a

  replace_routine-IsClean :
      (engine : Engine) (dead : Text) (now : ℕ) (w : World)
      → IsClean w
      → IsClean (replace_routine codec config engine dead now w)
  unfolding replace_routine
  replace_routine-IsClean engine dead now w h = go (node_by_hash codec dead w.db)
    where
      found : Option Text → World
      found o = elim o [
        | none ↦ regenerate_subs codec config (record w { db = remove_subscription dead w.db })
        | some r ↦
            regenerate_subs codec config
              (record w { db = remove_subscription dead (add_subscription r now w.db) })
      ]

      swap : (o : Option Text) → IsClean (found o)
      swap none = regenerate_subs-IsClean (record w { db = remove_subscription dead w.db }) h
      swap (some r) =
          regenerate_subs-IsClean
            (record w { db = remove_subscription dead (add_subscription r now w.db) }) h

      go :
          (o : Option Node)
          → IsClean (elim o as (λ _. World) [
            | none ↦ record w { db = remove_subscription dead w.db }
            | some n ↦
                found (first_alive codec config engine (replacements codec config n.country w.db))
          ])
      go none = h
      go (some n) =
          swap (first_alive codec config engine (replacements codec config n.country w.db))

  check_row-IsClean :
      (now : ℕ) (c : Checked) (w : World) → IsClean w → IsClean (check_row codec config now c w)
  unfolding check_row
  check_row-IsClean now c w h = go c.answer
    where
      replaced : World
      replaced = replace_routine codec config c.later c.member.node_id now w

      tested : (b : Bool) → IsClean (if b then w else replaced)
      tested true = h
      tested false = replace_routine-IsClean c.later c.member.node_id now w h

      go :
          (o : Option ProbeResult)
          → IsClean (elim o as (λ _. World) [ none ↦ w | some r ↦ if r.alive then w else replaced ])
      go none = h
      go (some r) = tested r.alive

  each-check_row-IsClean :
      (now : ℕ) (cs : List Checked) (w : World)
      → IsClean w
      → IsClean (each (check_row codec config now) cs w)
  each-check_row-IsClean now [] w h = h
  each-check_row-IsClean now (c ∷ cs) w h =
      each-check_row-IsClean now cs (check_row codec config now c w) (check_row-IsClean now c w h)

  pub sub_validity-IsClean :
      (probe : List SubscriptionRow → List Checked) (now : ℕ) (w : World)
      → IsClean w
      → IsClean (sub_validity codec config probe now w)
  unfolding sub_validity
  sub_validity-IsClean probe now w h = go (is_nil items)
    where
      items : List SubscriptionRow
      items = resolved codec config (list_subscription w.db) w.db

      start : World
      start = record w { db = drop_orphans codec config (list_subscription w.db) w.db }

      done : World
      done = each (check_row codec config now) (probe items) start

      go :
          (b : Bool)
          → IsClean (
              if b then start else record done {
                db =
                    set_sub_valid_checked_batch
                      (checked_hashes codec config (probe items))
                      now
                      done.db;
              })
      go true = h
      go false = each-check_row-IsClean now (probe items) start h

  pub sub_ping-IsClean :
      (probe : List SubscriptionRow → List Checked) (now : ℕ) (w : World)
      → IsClean w
      → IsClean (sub_ping codec config probe now w)
  unfolding sub_ping
  sub_ping-IsClean probe now w h =
      go (is_nil items) (ltb (length items) (length (list_subscription w.db)))
        (ltb (length items) (length (list_subscription w.db)) || ltb 0 (length pings))
    where
      items : List SubscriptionRow
      items = resolved codec config (list_subscription w.db) w.db

      start : World
      start = record w { db = drop_orphans codec config (list_subscription w.db) w.db }

      pings : List SubPingRow
      pings = ping_rows codec config (probe items)

      done : World
      done = record start { db = set_sub_ping_batch pings now start.db }

      go :
          (b d e : Bool)
          → IsClean (
              if b
              then if d then regenerate_subs codec config start else start
              else if e
              then regenerate_subs codec config done
              else done)
      go true true e = regenerate_subs-IsClean start h
      go true false e = h
      go false d true = regenerate_subs-IsClean done h
      go false d false = h

  pub seed_subscription-IsClean :
      (now : ℕ) (w : World) → IsClean w → IsClean (seed_subscription codec config now w)
  unfolding seed_subscription
  seed_subscription-IsClean now w h = regenerate_subs-IsClean _ h
