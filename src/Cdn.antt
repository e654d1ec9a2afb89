-- ===== src/Cdn.antt =====
-- internal/cdn/cdn.go: nodes behind Cloudflare are sent to another edge address.
pub mod Rewritten
pub mod Examples
use sub_manager_vpn.Base.Strings.Split.{split}
use sub_manager_vpn.Base.Map.{insert, lookup_or, lookup}
use sub_manager_vpn.Node.{Node}
use sub_manager_vpn.Settings.{Settings}
use sub_manager_vpn.Base.{
  any, some, ◌&&◌, map, is_empty, false, [], ◌-◌, text_eq, not, none, ltb, is_nil, trim_space,
  if◌then◌else◌, ◌∷◌, codes, Option, ℕ, Text, List, Bool,
}

abbrev pub sni : Text
sni = codes "sni"

-- The first line with something on it.
unfoldable pub first_line : List Text → Text
first_line [] = []
first_line (line ∷ lines) =
    let t = trim_space line in if not (is_empty t) then t else first_line lines

-- The cached ranges with the time they were loaded. `Range` is a network of package net.
pub record Ranges (Range : Type 0) : Type 0 where
  pub ranges : List Range
  pub loaded_at : ℕ

-- `loadCFRanges`: `fetched` is what a download gives now, and `ttl` is 24 hours.
unfoldable pub load_cf_ranges :
    {Range : Type 0} → ℕ → ℕ → Option (List Range) → Ranges Range → List Range × Ranges Range
load_cf_ranges ttl now fetched cache =
    if ltb (now - cache.loaded_at) ttl && not (is_nil cache.ranges)
    then (cache.ranges, cache)
    else elim fetched [
      | none ↦ (if not (is_nil cache.ranges) then cache.ranges else [], cache)
      | some ranges ↦ (ranges, record { ranges = ranges; loaded_at = now })
    ]

-- `isCF`; `contains` is the test of package net
unfoldable pub is_cf :
    {Range Address : Type 0}
    → (Range → Address → Bool)
    → (Text → Option Address)
    → List Range
    → Text
    → Bool
is_cf contains parse_ip ranges host =
    if is_nil ranges
    then false
    else elim (parse_ip host) [ none ↦ false | some ip ↦ any (λ r. contains r ip) ranges ]

-- `files` is what the file at a path holds, `cf` the test on a host.
module _ (files : Text → Option Text) (cf : Text → Bool) (s : Settings) where
  -- `readFirstLine`
  unfoldable pub read_first_line : Text → Text
  read_first_line path = elim (files path) [ none ↦ [] | some t ↦ first_line (split b'\n' t) ]

  -- `resolveCDNIP`
  unfoldable pub resolve_cdn_ip : Text
  resolve_cdn_ip =
      if text_eq s.cdn_source (codes "vwn")
      then (let path =
            if is_empty s.cdn_vwn_config
            then codes "/usr/local/etc/xray/connect_host"
            else s.cdn_vwn_config in
          let ip = read_first_line path in if not (is_empty ip) then ip else s.cdn_fallback_ip)
      else if text_eq s.cdn_source (codes "manual")
      then s.cdn_fallback_ip
      else []

  -- The name a server is asked for: the one the node gives, or its host.
  unfoldable pub sni_of : Node → Text
  sni_of n = let given = lookup_or [] sni n.extra in if is_empty given then n.host else given

  unfoldable pub override : Node → Text → Text
  override n target = elim (lookup n.host s.cdn_overrides) [
    | some ip ↦ ip
    | none ↦ elim (lookup (sni_of n) s.cdn_overrides) [ some ip ↦ ip | none ↦ target ]
  ]

  -- What is done to one node.
  unfoldable pub rewrite_node : Node → Node
  rewrite_node n =
      if not (cf n.host)
      then n
      else if is_empty resolve_cdn_ip
      then n
      else (let extra =
            if is_empty (lookup_or [] sni n.extra) then insert sni n.host n.extra else n.extra in
          let target = override n resolve_cdn_ip in
          if is_empty target
          then record n { extra = extra }
          else record n { extra = extra; host = target })

  -- `Rewrite`
  unfoldable pub rewrite : List Node → List Node
  rewrite nodes = if not s.cdn_enabled then nodes else map rewrite_node nodes
