-- ===== src/Select/Defs.antt =====
-- `Candidate` and `Select` of internal/select/select.go; `addToTopK` and `capPerCountry` of
-- internal/scheduler/scheduler.go; internal/scheduler/degrade.go.
use sub_manager_vpn.Base.Sort.{stable_sort}
use sub_manager_vpn.Base.Int.{pos_part, not_positive, ℤ}
use sub_manager_vpn.Node.{Node}
use sub_manager_vpn.Base.Map.{keys, lookup, insert, lookup_or, Map}
use sub_manager_vpn.Base.{
  ◌+◌, ◌-◌, get_or, one_of, ◌%◌, true, text_eq, take, some, false, ◌/◌, text_less, not, none,
  length, ◌&&◌, map, Option, ◌==◌, ◌++◌, ◌*◌, ◌∷◌, ltb, if◌then◌else◌, [], Text, ℕ, List, Bool,
}

-- A latency is what the probe measured, never negative.
pub record Candidate : Type 0 where
  pub node : Node
  pub latency_ms : ℕ
  pub country : Text
  pub hash : Text

abbrev pub faster : Candidate → Candidate → Bool
faster a b = ltb a.latency_ms b.latency_ms

unfoldable pub clamp_top_n : ℤ → ℕ
clamp_top_n top_n =
    let n = if not_positive top_n then 5 else pos_part top_n in
    let n' = if ltb n 3 then 3 else n in if ltb 500 n' then 500 else n'

-- `byCountry[c.Country] = append(byCountry[c.Country], c)` for each candidate
unfoldable pub by_country : Map (List Candidate) → List Candidate → Map (List Candidate)
by_country m [] = m
by_country m (c ∷ cs) = by_country (insert c.country (lookup_or [] c.country m ++ c ∷ []) m) cs

-- The best `limit` of each country, in the order of the countries.
unfoldable pub pick :
    (Candidate → Candidate → Bool) → ℕ → Map (List Candidate) → List Text → List Candidate
pick less top_n m [] = []
pick less top_n m (k ∷ ks) =
    let group = stable_sort less (lookup_or [] k m) in
    let limit = if ltb (length group) top_n then length group else top_n in
    take limit group ++ pick less top_n m ks

unfoldable pub select : List Candidate → ℤ → List Candidate
unfolding pick by_country
select cands top_n =
    let m = by_country [] cands in
    pick faster (clamp_top_n top_n) m (stable_sort text_less (keys m))

-- The comparison of `capPerCountry`: no latency is worst.
unfoldable pub faster_or_known : Candidate → Candidate → Bool
faster_or_known a b =
    if a.latency_ms == 0 && b.latency_ms == 0
    then false
    else if a.latency_ms == 0
    then false
    else if b.latency_ms == 0
    then true
    else ltb a.latency_ms b.latency_ms

-- `keys` is `order`: the countries as they are first met.
unfoldable pub cap_per_country : List Candidate → ℤ → List Candidate
unfolding pick by_country
cap_per_country cands top_n =
    let m = by_country [] cands in
    if not_positive top_n then cands else pick faster_or_known (pos_part top_n) m (keys m)

-- `topN` is positive here: `New` replaces any other value by 5.
unfoldable pub add_to_top_k : ℕ → Candidate → Map (List Candidate) → Map (List Candidate)
add_to_top_k top_n c top_k =
    let group = lookup_or [] c.country top_k ++ c ∷ [] in
    insert c.country
      (if ltb top_n (length group) then take top_n (stable_sort faster group) else group) top_k

unfoldable pub median_int : List ℕ → ℕ
median_int [] = 0
median_int (x ∷ xs) =
    let s = stable_sort ltb (x ∷ xs) in
    let m = length s / 2 in
    if length s % 2 == 0 then (get_or s (m - 1) 0 + get_or s m 0) / 2 else get_or s m 0

unfoldable pub degraded : ℕ → ℤ → Candidate → Bool
degraded median degrade_ms c =
    let slow = ltb (2 * median) c.latency_ms in
    if not (not_positive degrade_ms) && ltb (pos_part degrade_ms) c.latency_ms then true else slow

module _ (node_hash : Node → Text) where
  -- The loop of `bestUnselected`: the best so far.
  unfoldable pub best_loop : Option Candidate → List Candidate → Text → List Text → Option Candidate
  best_loop best [] country taken = best
  best_loop best (c ∷ cands) country taken =
      best_loop
        (if not (text_eq c.country country)
          then best
          else if one_of taken (node_hash c.node)
          then best
          else elim best [ none ↦ some c | some b ↦ if faster c b then some c else some b ])
        cands country taken

  unfoldable pub best_unselected : List Candidate → Text → List Text → Option Candidate
  unfolding best_loop
  best_unselected = best_loop none

  -- `byHash[nodeHash(&c.Node)] = c`: a later candidate replaces an earlier one.
  unfoldable pub by_hash : Map Candidate → List Candidate → Map Candidate
  by_hash m [] = m
  by_hash m (c ∷ cs) = by_hash (insert (node_hash c.node) c m) cs

  unfoldable pub latency_in : Map Candidate → Candidate → ℕ
  latency_in m n = elim (lookup (node_hash n.node) m) [ none ↦ 0 | some c ↦ c.latency_ms ]

  -- What a selected node is replaced by, if it is degraded.
  unfoldable pub replacement :
      Map Candidate → List Candidate → ℕ → ℤ → List Text → Candidate → Option Candidate
  replacement m cands median degrade_ms taken n = elim (lookup (node_hash n.node) m) [
    | none ↦ none
    | some c ↦
        if not (degraded median degrade_ms c) then none else best_unselected cands c.country taken
  ]

  -- The loop over the selected nodes; `taken` grows with each replacement.
  unfoldable pub swap_loop :
      Map Candidate → List Candidate → ℕ → ℤ → List Text → List Candidate → List Candidate
  swap_loop m cands median degrade_ms taken [] = []
  swap_loop m cands median degrade_ms taken (n ∷ selected) =
      elim (replacement m cands median degrade_ms taken n) [
        | none ↦ n ∷ swap_loop m cands median degrade_ms taken selected
        | some best ↦
            best ∷ swap_loop m cands median degrade_ms (node_hash best.node ∷ taken) selected
      ]

  unfoldable pub apply_degrade : List Candidate → List Candidate → ℤ → List Candidate
  unfolding by_hash swap_loop
  apply_degrade [] cands degrade_ms = []
  apply_degrade (n ∷ selected) cands degrade_ms =
      let m = by_hash [] cands in
      swap_loop m cands (median_int (map (latency_in m) (n ∷ selected))) degrade_ms
        (map (λ c. node_hash c.node) (n ∷ selected)) (n ∷ selected)
