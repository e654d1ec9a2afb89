-- ===== src/Scheduler/Sources/Examples.antt =====
-- A source that is fetched twice, and the theorems at it.
use sub_manager_vpn.Base.Map.{insert, lookup}
use sub_manager_vpn.State.Tables.{set_source_meta, get_source_meta, SourceMeta}
use sub_manager_vpn.Scheduler.Sources.Transparent.{Gives, default_fetch-nodes}
use sub_manager_vpn.State.Examples.{sample_db, node_at}
use sub_manager_vpn.Node.{Node}
use sub_manager_vpn.Scheduler.Cache.{set_cache, empty_cache, ParseCache}
use sub_manager_vpn.Base.{
  map, inl, text_eq, ap, ◌∙◌, sym, is_empty, refl, inr, arith, true, length, false, ◌⊎◌, ◌≡◌, none,
  [], ◌≤◌, ◌∷◌, some, codes, Option, Text, List,
}
use sub_manager_vpn.Scheduler.Sources.Faithful.{default_fetch-IsFaithful, IsFaithful}
use sub_manager_vpn.Scheduler.Cache.Bounded.{IsConsistent}
use sub_manager_vpn.Scheduler.Sources.Counted.{
  parse_fetched-nodes_of, parse_fetched-IsBalanced, nodes_of, IsBalanced,
}
use sub_manager_vpn.Scheduler.Sources.{
  source_meta_from, parse_and_store, reuse_or, full_fetch, parse_fetched, default_fetch, Memory,
  FetchedSource, Counters, Answers,
}
use mathlib.Core.List.{flat_map}
use mathlib.Core.Option.{some-injective, none-ne-some}
use sub_manager_vpn.Scheduler.Cache.Reached.{Reached-IsConsistent, started, put}

abbrev no_counters : Counters
no_counters = record {
  parsed = 0;
  dedup_kept = 0;
  dropped_broken = 0;
  dropped_unsupported = 0;
  dropped_insecure = 0;
  dropped_malware = 0;
  kept = 0;
}

-- A body is the name of the host of its node, and an empty one has no nodes.
abbrev toy_parse : Text → Option (List Node)
toy_parse [] = none
toy_parse (c ∷ s) = some (node_at (c ∷ s) ∷ node_at (c ∷ s) ∷ [])

abbrev file_a : FetchedSource
file_a = record {
  url = codes "u";
  body = codes "a";
  etag = codes "v1";
  last_modified = [];
  not_modified = false;
}

abbrev first_answers : Answers
first_answers = record {
  fetch = some (file_a ∷ []);
  fetch_conditional = λ e l. some (file_a ∷ [], false);
}

abbrev fresh : Memory
fresh = record { cache = empty_cache; counters = no_counters; db = sample_db }

-- The edge address at the first fetch, which changes nothing, and at the second.
abbrev same_edge : List Node → List Node
same_edge ns = ns

abbrev new_edge : List Node → List Node
new_edge = map {A = Node} (λ n. record n { host = codes "edge" })

abbrev WasEdge : (List Node → List Node) → Type 0
WasEdge r = (r ≡ same_edge) ⊎ (r ≡ new_edge)

fresh-IsFaithful : IsFaithful (λ t. t) toy_parse WasEdge fresh
unfolding lookup
fresh-IsFaithful url nodes meta c m e = absurd (none-ne-some nodes c)

-- After the first fetch
abbrev warm : Memory
warm = (default_fetch (λ t. t) toy_parse (λ fs. same_edge) 10 (codes "u") first_answers fresh).1

default_fetch-IsFaithful_example : IsFaithful (λ t. t) toy_parse WasEdge warm
default_fetch-IsFaithful_example =
    default_fetch-IsFaithful (λ t. t) toy_parse WasEdge (λ fs. same_edge) (λ fs. inl refl) 10
      (codes "u") first_answers fresh fresh-IsFaithful

warm-IsFaithful : IsFaithful (λ t. t) toy_parse WasEdge warm
warm-IsFaithful =
    default_fetch-IsFaithful (λ t. t) toy_parse WasEdge (λ fs. same_edge) (λ fs. inl refl) 10
      (codes "u") first_answers fresh fresh-IsFaithful

warm-meta :
    get_source_meta (codes "u") warm.db
    ≡ some record { etag = codes "v1"; last_modified = []; body_sha = codes "a" }
unfolding get_source_meta lookup default_fetch full_fetch reuse_or parse_and_store set_source_meta
    insert text_eq source_meta_from
warm-meta = refl

warm-hash :
    (meta : SourceMeta)
    → get_source_meta (codes "u") warm.db ≡ some meta
    → (meta.body_sha ≡ codes "a") × (is_empty meta.body_sha ≡ false)
warm-hash meta m =
    let same = some-injective _ _ (sym m ∙ warm-meta) in
    (ap (λ a. a.body_sha) same, ap (λ a. is_empty a.body_sha) same ∙ unfold is_empty in refl)

abbrev second_answers : Answers
second_answers = record { fetch = some (file_a ∷ []); fetch_conditional = λ e l. some ([], true) }

default_fetch-nodes_example :
    Gives toy_parse WasEdge file_a
      (default_fetch (λ t. t) toy_parse (λ fs. new_edge) 10 (codes "u") second_answers warm).0
default_fetch-nodes_example =
    default_fetch-nodes (λ t. t) toy_parse WasEdge (λ fs. new_edge) (λ fs. inr refl) 10 (codes "u")
      file_a second_answers warm (λ a b e. e) warm-IsFaithful
      (refl, refl, λ meta m. inr ([], refl, (warm-hash meta m).0, (warm-hash meta m).1))

parse_fetched-IsBalanced_example :
    IsBalanced (parse_fetched toy_parse (λ fs ns. ns) (file_a ∷ file_a ∷ []) no_counters).1
parse_fetched-IsBalanced_example =
    parse_fetched-IsBalanced toy_parse (λ fs ns. ns) (file_a ∷ file_a ∷ []) no_counters
      (refl, omega arith)

parse_fetched-nodes_of_example :
    (parse_fetched toy_parse (λ fs ns. ns) (file_a ∷ file_a ∷ []) no_counters).0
    ≡ flat_map (nodes_of toy_parse (λ fs ns. ns)) (file_a ∷ file_a ∷ [])
parse_fetched-nodes_of_example =
    parse_fetched-nodes_of toy_parse (λ fs ns. ns) (file_a ∷ file_a ∷ []) no_counters

abbrev one_node : List Node
one_node = node_at (codes "a") ∷ []

abbrev both : ParseCache
both = set_cache 1 (codes "v") one_node (set_cache 1 (codes "u") one_node empty_cache)

Reached-IsConsistent_example : IsConsistent both × ((both.size ≤ 1) ⊎ (length both.lru ≡ 1))
Reached-IsConsistent_example =
    Reached-IsConsistent 1 both (put (codes "v") one_node _ (put (codes "u") one_node _ started))
