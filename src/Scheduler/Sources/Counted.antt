-- ===== src/Scheduler/Sources/Counted.antt =====
-- The nodes and the counters of `parseFetched`.
use sub_manager_vpn.Filter.Passes.{open_of_broken}
use sub_manager_vpn.Node.{Node}
use sub_manager_vpn.Filter.Defs.{
  key, drop_unsupported, drop_open, drop_malware, drop_insecure, drop_broken, dedup_loop, dedup,
  apply,
}
use sub_manager_vpn.Base.{
  ◌∙◌, ◌++◌, false, true, length-filter-le, filter-cong, arith, ap, Bool, ◌∷◌, length,
  filter-filter, some, none, [], if◌then◌else◌, ◌≤◌, refl, ◌+◌, ◌≡◌, Option, List, Text,
}
use sub_manager_vpn.Scheduler.Sources.{parse_fetched, FetchedSource, filter_counted, Counters}
use mathlib.Core.List.{flat_map}

-- The nodes of one body without counting
unfoldable pub nodes_of :
    (Text → Option (List Node))
    → (FetchedSource → List Node → List Node)
    → FetchedSource
    → List Node
nodes_of parse rewrite fs =
    if fs.not_modified
    then []
    else elim (parse fs.body) [ none ↦ [] | some nodes ↦ apply (rewrite fs nodes) ]

-- Each node that was not a duplicate is kept or dropped by exactly one filter, and no more nodes are
-- counted than were parsed.
abbrev pub IsBalanced : Counters → Type 0
IsBalanced c =
    (c.dedup_kept
      ≡ c.kept
        + (c.dropped_broken + (c.dropped_unsupported + (c.dropped_insecure + c.dropped_malware))))
    × (c.dedup_kept ≤ c.parsed)

filter_counted-apply : (nodes : List Node) (c : Counters) → (filter_counted nodes c).0 ≡ apply nodes
unfolding filter_counted apply
filter_counted-apply nodes c = refl

drop_open-drop_unsupported :
    (nodes : List Node)
    → drop_open (drop_unsupported (drop_broken nodes)) ≡ drop_unsupported (drop_broken nodes)
unfolding drop_open drop_unsupported drop_broken
drop_open-drop_unsupported nodes =
    simp filter-filter (filter-cong _ _ (λ n. ground (arith, open_of_broken n)) nodes)

length-drop_broken : (nodes : List Node) → length (drop_broken nodes) ≤ length nodes
unfolding drop_broken
length-drop_broken nodes = length-filter-le _ nodes

length-drop_unsupported : (nodes : List Node) → length (drop_unsupported nodes) ≤ length nodes
unfolding drop_unsupported
length-drop_unsupported nodes = length-filter-le _ nodes

length-drop_insecure : (nodes : List Node) → length (drop_insecure nodes) ≤ length nodes
unfolding drop_insecure
length-drop_insecure nodes = length-filter-le _ nodes

length-drop_malware : (nodes : List Node) → length (drop_malware nodes) ≤ length nodes
unfolding drop_malware
length-drop_malware nodes = length-filter-le _ nodes

length-dedup_loop :
    (seen : List Text) (nodes : List Node) → length (dedup_loop seen nodes) ≤ length nodes
unfolding dedup_loop
length-dedup_loop seen [] = omega arith
length-dedup_loop seen (n ∷ nodes) =
    ground (arith, length-dedup_loop seen nodes, length-dedup_loop (key n ∷ seen) nodes)

length-dedup : (nodes : List Node) → length (dedup nodes) ≤ length nodes
unfolding dedup
length-dedup nodes = length-dedup_loop [] nodes

filter_counted-IsBalanced :
    (nodes : List Node) (c : Counters) → IsBalanced c → IsBalanced (filter_counted nodes c).1
unfolding filter_counted
filter_counted-IsBalanced nodes c (e, l) =
    let same : length (drop_open u) ≡ length u =
      ap length (drop_open-drop_unsupported (dedup nodes)) in
    let i = length-drop_insecure (drop_open u) in
    let m = length-drop_malware (drop_insecure (drop_open u)) in
    let b = length-drop_broken (dedup nodes) in
    let s = length-drop_unsupported (drop_broken (dedup nodes)) in
    (omega (arith, e, same, i, m, b, s), omega (arith, l, length-dedup nodes))
  where
    u : List Node
    u = drop_unsupported (drop_broken (dedup nodes))

-- The nodes of a fetch are those that Apply keeps of the rewritten nodes of each body in turn, without
-- the bodies that were not sent or do not parse.
pub parse_fetched-nodes_of :
    (parse : Text → Option (List Node)) (rewrite : FetchedSource → List Node → List Node)
    (fetched : List FetchedSource) (c : Counters)
    → (parse_fetched parse rewrite fetched c).0 ≡ flat_map (nodes_of parse rewrite) fetched
unfolding parse_fetched nodes_of flat_map
parse_fetched-nodes_of parse rewrite [] c = refl
parse_fetched-nodes_of parse rewrite (fs ∷ fetched) c =
    ap (λ r. r ++ (parse_fetched parse rewrite fetched now).0)
      (same fs.not_modified (parse fs.body))
    ∙ ap (λ r. nodes_of parse rewrite fs ++ r) (parse_fetched-nodes_of parse rewrite fetched now)
  where
    one : Bool → Option (List Node) → List Node × Counters
    one b o =
        if b
        then ([], c)
        else elim o [ none ↦ ([], c) | some parsed ↦ filter_counted (rewrite fs parsed) c ]

    now : Counters
    now = (one fs.not_modified (parse fs.body)).1

    same :
        (b : Bool) (o : Option (List Node))
        → (one b o).0
          ≡ (if b then [] else elim o [ none ↦ [] | some nodes ↦ apply (rewrite fs nodes) ])
    same true o = refl
    same false none = refl
    same false (some parsed) = filter_counted-apply (rewrite fs parsed) c

-- If the counters add up before a fetch they do after it: each node that was not a duplicate is kept or
-- counted by exactly one filter, though DropOpen has no counter, and no more are counted than were parsed.
pub parse_fetched-IsBalanced :
    (parse : Text → Option (List Node)) (rewrite : FetchedSource → List Node → List Node)
    (fetched : List FetchedSource) (c : Counters)
    → IsBalanced c
    → IsBalanced (parse_fetched parse rewrite fetched c).1
unfolding parse_fetched
parse_fetched-IsBalanced parse rewrite [] c h = h
parse_fetched-IsBalanced parse rewrite (fs ∷ fetched) c h =
    parse_fetched-IsBalanced parse rewrite fetched _ (go fs.not_modified (parse fs.body))
  where
    one : Bool → Option (List Node) → List Node × Counters
    one b o =
        if b
        then ([], c)
        else elim o [ none ↦ ([], c) | some parsed ↦ filter_counted (rewrite fs parsed) c ]

    go : (b : Bool) (o : Option (List Node)) → IsBalanced (one b o).1
    go true o = h
    go false none = h
    go false (some parsed) = filter_counted-IsBalanced (rewrite fs parsed) c h
