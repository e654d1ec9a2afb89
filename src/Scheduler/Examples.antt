-- ===== src/Scheduler/Examples.antt =====
-- Runs of the scheduler and the theorems at concrete worlds.
use sub_manager_vpn.State.Nodes.{row_node}
use sub_manager_vpn.Scheduler.Runs.Routines.{IsClean}
use sub_manager_vpn.Scheduler.Cycle.Pages.{IsAllowed, chunk_cands_live}
use sub_manager_vpn.Base.Map.{lookup, lookup_or, insert, keys}
use sub_manager_vpn.Base.Sort.{stable_sort}
use sub_manager_vpn.Scheduler.Runs.{next, here, regenerated, seeded}
use sub_manager_vpn.Scheduler.Cycle.Collected.{collect_exact, is_fetched, hashes_of}
use sub_manager_vpn.Scheduler.Cycle.Finished.{is_member-finish, chosen}
use sub_manager_vpn.Node.{Node}
use sub_manager_vpn.Scheduler.Cycle.{chunk_cands, collect, finish}
use sub_manager_vpn.Scheduler.Runs.Clean.{Run-IsClean}
use sub_manager_vpn.Scheduler.Reconcile.Exact.{IsWanted-of_hashes, IsWanted, is_member-reconcile}
use sub_manager_vpn.Scheduler.Members.{replace_routine}
use sub_manager_vpn.Scheduler.Reconcile.{seed_subscription, accepted, accepted_hashes, reconcile}
use sub_manager_vpn.Base.Int.{itoa, pos}
use sub_manager_vpn.State.Tables.{node_hash}
use sub_manager_vpn.State.Examples.{node_at, sample_db, host_codec}
use sub_manager_vpn.Select.Defs.{
  latency_in, median_int, clamp_top_n, by_country, pick, select, degraded, replacement, by_hash,
  swap_loop, apply_degrade, Candidate,
}
use sub_manager_vpn.Scheduler.Serve.{regenerate_subs}
use sub_manager_vpn.State.Subscription.Members.{is_member}
use sub_manager_vpn.Base.{
  ◌↔◌, is_nil, false, refl, Text, none, Option, IsDistinct, All, ◌⊎◌, one_of, ◌∷◌, text_eq, codes,
  ◌≡◌, true, [], some, List,
}
use sub_manager_vpn.Scheduler.Members.Replaced.{replace_routine-IsReplaced, IsReplaced}
use sub_manager_vpn.Scheduler.World.{World, Engine, Config}

abbrev pub sample_config : Config
sample_config = record {
  workers = pos 350;
  probe_batch = pos 3500;
  top_n = pos 5;
  sub_top_n = pos 5;
  degrade_ms = pos 0;
  max_ping_ms = pos 500;
  min_keep = pos 1;
  dead_cycles = 84;
  re_probe_cycles = pos 5;
  exclude_countries = [];
  exclude_protocols = [];
  is_banned = λ h. text_eq h (node_hash host_codec (node_at (codes "c")));
}

abbrev sample_world : World
sample_world = record { db = sample_db; output = [] }

abbrev sample_selection : List Candidate
sample_selection =
    record { node = node_at (codes "a"); latency_ms = 20; country = codes "DE"; hash = [] }
    ∷ record { node = node_at (codes "c"); latency_ms = 10; country = codes "DE"; hash = [] }
    ∷ record { node = node_at (codes "d"); latency_ms = 900; country = codes "DE"; hash = [] }
    ∷ []

is_member-reconcile_example :
    ((is_nil sample_selection ≡ true)
      × (is_member
            (node_hash host_codec (node_at (codes "b")))
            (reconcile host_codec sample_config sample_selection 7 sample_db)
          ≡ is_member (node_hash host_codec (node_at (codes "b"))) sample_db))
    ⊎ ((is_nil sample_selection ≡ false)
        × ((is_member
                (node_hash host_codec (node_at (codes "b")))
                (reconcile host_codec sample_config sample_selection 7 sample_db)
              ≡ true)
            ↔ IsWanted host_codec sample_config sample_selection
                (node_hash host_codec (node_at (codes "b")))))
is_member-reconcile_example =
    is_member-reconcile host_codec sample_config sample_selection 7 sample_db
      (node_hash host_codec (node_at (codes "b")))

-- The engine finds everything alive.
abbrev all_alive : Engine
all_alive n = some (record { alive = true; latency_ms = 1; speed_kbps = 1; egress_ip = [] })

replace_routine-IsReplaced_example :
    IsReplaced host_codec sample_config
      (node_hash host_codec (node_at (codes "b")))
      sample_db
      (replace_routine host_codec sample_config all_alive
        (node_hash host_codec (node_at (codes "b")))
        7
        sample_world).db
replace_routine-IsReplaced_example =
    replace_routine-IsReplaced host_codec sample_config all_alive
      (node_hash host_codec (node_at (codes "b"))) 7 sample_world

-- The node `a` is selected and accepted, `c` is banned and `d` too slow.
chosen_sample :
    one_of
      (accepted_hashes host_codec sample_config
        (chosen host_codec (λ n. n.name) sample_config sample_selection))
      (node_hash host_codec (node_at (codes "a")))
    ≡ true
unfolding accepted_hashes accepted node_hash apply_degrade swap_loop by_hash replacement degraded
    select pick by_country clamp_top_n one_of stable_sort keys insert text_eq lookup_or lookup itoa
    median_int latency_in
chosen_sample = refl

is_member-finish_example :
    (is_member
        (node_hash host_codec (node_at (codes "b")))
        (finish host_codec (λ n. n.name) sample_config 100 7 sample_selection sample_world).db
      ≡ true)
    ↔ IsWanted host_codec sample_config
        (chosen host_codec (λ n. n.name) sample_config sample_selection)
        (node_hash host_codec (node_at (codes "b")))
is_member-finish_example =
    is_member-finish host_codec (λ n. n.name) sample_config 100 7 sample_selection sample_world
      (node_hash host_codec (node_at (codes "a"))) (node_hash host_codec (node_at (codes "b")))
      (IsWanted-of_hashes host_codec sample_config
        (chosen host_codec (λ n. n.name) sample_config sample_selection)
        (node_hash host_codec (node_at (codes "a"))) chosen_sample)

abbrev sample_sources : List (Option (List Node))
sample_sources =
    some (node_at (codes "a") ∷ node_at (codes "b") ∷ [])
    ∷ none
    ∷ some (node_at (codes "a") ∷ [])
    ∷ []

collect_exact_example :
    IsDistinct (hashes_of host_codec (collect host_codec [] sample_sources))
    × ((h : Text)
        → one_of (hashes_of host_codec (collect host_codec [] sample_sources)) h
          ≡ is_fetched host_codec sample_sources h)
collect_exact_example = collect_exact host_codec sample_sources

Run-IsClean_example : IsClean host_codec sample_config (
    seed_subscription host_codec sample_config 9
      (regenerate_subs host_codec sample_config sample_world))
Run-IsClean_example =
    Run-IsClean host_codec (λ n. n.name) sample_config (next (next here regenerated) (seeded 9)) tt

chunk_cands_live_example :
    All
      (IsAllowed host_codec (λ n. n.name) sample_config)
      (chunk_cands host_codec (λ n. n.name) sample_config 100 sample_db sample_db.nodes)
    × (All
          (λ r. ¬ IsAllowed host_codec (λ n. n.name) sample_config (row_node host_codec r))
          sample_db.nodes
        ⊎ (is_nil (chunk_cands host_codec (λ n. n.name) sample_config 100 sample_db sample_db.nodes)
            ≡ false))
chunk_cands_live_example =
    chunk_cands_live host_codec (λ n. n.name) sample_config 100 sample_db sample_db.nodes
