-- ===== src/Scheduler/World.antt =====
-- The configuration of the scheduler and the state its routines work on.
use sub_manager_vpn.Base.Int.{pos_part, ℤ}
use sub_manager_vpn.Node.{Node}
use sub_manager_vpn.State.Tables.{SubscriptionRow, Db}
use sub_manager_vpn.Base.{length, ltb, if◌then◌else◌, Text, ℕ, Option, List, Bool}

-- The fields of `Config` that the modelled routines read. No `IsBanned` is one that bans nothing.
pub record Config : Type 0 where
  pub workers : ℤ
  pub probe_batch : ℤ
  pub top_n : ℤ
  pub sub_top_n : ℤ
  pub degrade_ms : ℤ
  pub max_ping_ms : ℤ
  pub min_keep : ℤ
  pub dead_cycles : ℕ
  pub re_probe_cycles : ℤ
  pub exclude_countries : List Text
  pub exclude_protocols : List Text
  pub is_banned : Text → Bool

-- What the engine says of a node.
pub record ProbeResult : Type 0 where
  pub alive : Bool
  pub latency_ms : ℕ
  pub speed_kbps : ℕ
  pub egress_ip : Text

-- `none` is a probe that failed or took too long.
abbrev pub Engine : Type 0
Engine = Node → Option ProbeResult

-- The database, and the nodes that the files of the output directory were last generated from.
pub record World : Type 0 where
  pub db : Db
  pub output : List Node

-- `Persist`: with fewer nodes than `MinKeep` the old files stay.
unfoldable pub persist : ℤ → List Node → World → World
persist min_keep nodes w =
    let keep = if ltb (pos_part min_keep) 1 then 1 else pos_part min_keep in
    if ltb (length nodes) keep then w else record w { output = nodes }

-- The answer for one member, and the engine as it is when that member is replaced.
pub record Checked : Type 0 where
  pub member : SubscriptionRow
  pub answer : Option ProbeResult
  pub later : Engine
