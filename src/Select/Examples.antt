-- ===== src/Select/Examples.antt =====
-- Runs of the selection and the theorems at concrete candidates.
use sub_manager_vpn.Select.Degrade.Swap.{apply_degrade-IsDistinct, hashes}
use sub_manager_vpn.Select.Stream.{stream_exact, stream}
use sub_manager_vpn.Select.Degrade.Idle.{apply_degrade-select}
use sub_manager_vpn.Base.Map.{keys, lookup, lookup_or, insert}
use sub_manager_vpn.Base.Int.{pos}
use sub_manager_vpn.Base.Sort.{stable_sort}
use sub_manager_vpn.Select.Groups.{group-select, group}
use sub_manager_vpn.Select.Defs.{
  best_loop, degraded, replacement, swap_loop, faster_or_known, best_unselected, by_country, pick,
  faster, by_hash, Candidate, select, clamp_top_n, cap_per_country, apply_degrade,
}
use sub_manager_vpn.Node.{vless, Node}
use sub_manager_vpn.Base.{
  one_of, refl, text_less, map, length-filter-le, arith, IsDistinct, ◌≤◌, ◌≡◌, ◌∷◌, take, [], ℕ,
  length, codes, text_eq, Text, List,
}

abbrev node_at : Text → Node
node_at h = record {
  protocol = vless;
  host = h;
  port = pos 443;
  security = codes "tls";
  encryption = [];
  flow = [];
  network = [];
  user = codes "u";
  extra = [];
  plugin = [];
  name = [];
  raw = [];
  source = [];
  country = [];
  egress_ip = [];
}

abbrev cand : Text → Text → ℕ → Candidate
cand h k l = record { node = node_at h; latency_ms = l; country = k; hash = h }

abbrev sample : List Candidate
sample =
    cand (codes "a") (codes "DE") 90
    ∷ cand (codes "b") (codes "NL") 10
    ∷ cand (codes "c") (codes "DE") 20
    ∷ cand (codes "d") (codes "DE") 0
    ∷ cand (codes "e") (codes "DE") 20
    ∷ []

-- At least three of a country are taken, even if one is asked for.
select-sample :
    map (λ c. c.hash) (select sample (pos 1)) ≡ codes "d" ∷ codes "c" ∷ codes "e" ∷ codes "b" ∷ []
unfolding select clamp_top_n pick by_country insert lookup_or lookup text_eq keys stable_sort
    text_less
select-sample = refl

-- Without a measured latency a candidate comes last.
cap_sample :
    map (λ c. c.hash) (cap_per_country sample (pos 2)) ≡ codes "c" ∷ codes "e" ∷ codes "b" ∷ []
unfolding cap_per_country pick by_country insert lookup_or lookup text_eq keys stable_sort
    faster_or_known
cap_sample = refl

group-select_example :
    group (codes "DE") (select sample (pos 1))
    ≡ take (clamp_top_n (pos 1)) (stable_sort faster (group (codes "DE") sample))
group-select_example = group-select sample (pos 1) (codes "DE")

stream_exact_example :
    stable_sort faster (lookup_or [] (codes "DE") (stream 2 [] sample))
    ≡ take 2 (stable_sort faster (group (codes "DE") sample))
stream_exact_example = stream_exact 2 sample (codes "DE")

abbrev host_of : Node → Text
host_of n = n.host

few : (k : Text) → length (group k sample) ≤ clamp_top_n (pos 5)
unfolding clamp_top_n group
few k = omega (arith, length-filter-le (λ (c : Candidate). text_eq c.country k) sample)

apply_degrade-select_example :
    apply_degrade host_of (select sample (pos 5)) sample (pos 15) ≡ select sample (pos 5)
apply_degrade-select_example = apply_degrade-select host_of sample (pos 5) (pos 15) few

-- The slow node is replaced by the next of its country where the caller passes one.
degrade_sample :
    map (λ c. c.hash) (apply_degrade host_of (take 1 sample) sample (pos 50)) ≡ codes "d" ∷ []
unfolding apply_degrade by_hash insert swap_loop replacement lookup text_eq degraded best_unselected
    best_loop one_of
degrade_sample = refl

apply_degrade-IsDistinct_example :
    (length (apply_degrade host_of (take 2 sample) sample (pos 50)) ≡ 2)
    × IsDistinct (hashes host_of (apply_degrade host_of (take 2 sample) sample (pos 50)))
unfolding text_eq
apply_degrade-IsDistinct_example =
    apply_degrade-IsDistinct host_of (take 2 sample) sample (pos 50) ((refl, tt), (tt, tt))
