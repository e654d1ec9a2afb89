-- ===== src/Scheduler/Members.antt =====
-- The routines over the members: `ReplaceRoutine`, `SubValidity` and `SubPing`, not skipped for a
-- probing cycle.
pub mod Replaced
use sub_manager_vpn.Scheduler.Serve.{regenerate_subs}
use sub_manager_vpn.State.Results.{latest_result}
use sub_manager_vpn.State.Queries.{common_alive_same_country}
use sub_manager_vpn.Base.Sort.{stable_sort}
use sub_manager_vpn.State.Nodes.{node_id, node_by_hash}
use sub_manager_vpn.Base.Chunks.{each}
use sub_manager_vpn.State.Subscription.{
  set_sub_ping_batch, add_subscription, set_sub_valid_checked_batch, remove_subscription,
  list_subscription, SubPingRow,
}
use sub_manager_vpn.Select.Defs.{faster_or_known, Candidate}
use sub_manager_vpn.Base.{
  is_nil, ◌||◌, take, true, [], some, false, ◌==◌, none, ltb, length, if◌then◌else◌, ◌∷◌, filter,
  Option, Bool, ℕ, Text, List,
}
use sub_manager_vpn.Scheduler.World.{Checked, ProbeResult, World, Engine, Config}
use sub_manager_vpn.State.Tables.{node_hash, SubscriptionRow, Db, Codec}

module _ (codec : Codec) (config : Config) where
  -- The loop over the candidates; `none` if none of them is alive and not banned.
  unfoldable pub first_alive : Engine → List Candidate → Option Text
  first_alive engine [] = none
  first_alive engine (c ∷ cands) =
      let rest = first_alive engine cands in
      let h = node_hash codec c.node in
      elim (engine c.node) [
        | none ↦ rest
        | some r ↦ if r.alive then if config.is_banned h then rest else some h else rest
      ]

  -- The five with the best stored latency.
  unfoldable pub replacements : Text → Db → List Candidate
  replacements country db =
      let sorted = stable_sort faster_or_known (
        common_alive_same_country codec country config.exclude_countries config.exclude_protocols
          db) in
      take 5 sorted

  -- `ReplaceRoutine`
  unfoldable pub replace_routine : Engine → Text → ℕ → World → World
  replace_routine engine dead now w = elim (node_by_hash codec dead w.db) [
    | none ↦ record w { db = remove_subscription dead w.db }
    | some n ↦ elim (first_alive engine (replacements n.country w.db)) [
      | none ↦ regenerate_subs codec config (record w { db = remove_subscription dead w.db })
      | some h ↦
          regenerate_subs codec config
            (record w { db = remove_subscription dead (add_subscription h now w.db) })
    ]
  ]

  -- Dropping the members whose node is gone.
  unfoldable pub drop_orphans : List SubscriptionRow → Db → Db
  drop_orphans members db =
      each
        (λ m d. elim (node_by_hash codec m.node_id db) [
          | none ↦ remove_subscription m.node_id d
          | some n ↦ d
        ])
        members db

  unfoldable pub resolved : List SubscriptionRow → Db → List SubscriptionRow
  resolved members db =
      filter (λ m. elim (node_by_hash codec m.node_id db) [ none ↦ false | some n ↦ true ]) members

  unfoldable pub check_row : ℕ → Checked → World → World
  check_row now c w = elim c.answer [
    | none ↦ w
    | some r ↦ if r.alive then w else replace_routine c.later c.member.node_id now w
  ]

  unfoldable pub checked_hashes : List Checked → List Text
  checked_hashes [] = []
  checked_hashes (c ∷ cs) = elim c.answer [
    | none ↦ checked_hashes cs
    | some r ↦ c.member.node_id ∷ checked_hashes cs
  ]

  -- `SubValidity`: `results` are the answers for the resolved members, in the order they came in.
  unfoldable pub sub_validity : (List SubscriptionRow → List Checked) → ℕ → World → World
  sub_validity probe now w =
      let members = list_subscription w.db in
      let items = resolved members w.db in
      let start = record w { db = drop_orphans members w.db } in
      if is_nil items
      then start
      else let results = probe items in
        let done = each (check_row now) results start in
        record done { db = set_sub_valid_checked_batch (checked_hashes results) now done.db }

  unfoldable pub ping_rows : List Checked → List SubPingRow
  ping_rows [] = []
  ping_rows (c ∷ cs) = elim c.answer [
    | none ↦ ping_rows cs
    | some r ↦ record { node_hash = c.member.node_id; latency_ms = r.latency_ms } ∷ ping_rows cs
  ]

  -- `SubPing`
  unfoldable pub sub_ping : (List SubscriptionRow → List Checked) → ℕ → World → World
  sub_ping probe now w =
      let members = list_subscription w.db in
      let items = resolved members w.db in
      let start = record w { db = drop_orphans members w.db } in
      let dropped = ltb (length items) (length members) in
      if is_nil items
      then if dropped then regenerate_subs codec config start else start
      else let pings = ping_rows (probe items) in
        let done = record start { db = set_sub_ping_batch pings now start.db } in
        if dropped || ltb 0 (length pings) then regenerate_subs codec config done else done

  -- `SubStatus`: the members, and those whose newest result is alive.
  unfoldable pub is_alive_member : Db → SubscriptionRow → Bool
  is_alive_member db m = elim (node_id m.node_id db) [
    | none ↦ false
    | some id ↦ elim (latest_result id db) [ none ↦ false | some r ↦ r.alive ]
  ]

  unfoldable pub sub_status : Db → ℕ × ℕ
  sub_status db =
      let members = list_subscription db in
      (length members, length (filter (is_alive_member db) members))
