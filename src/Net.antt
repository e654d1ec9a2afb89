-- ===== src/Net.antt =====
-- internal/netutil/netutil.go: which addresses a source may be fetched from.
pub mod Blocks
pub mod Resolve
pub mod Examples
use sub_manager_vpn.Base.{
  codes, ◌/◌, text_eq, leb, [], true, not, all, ◌&&◌, ◌∷◌, some, false, ◌==◌, none, if◌then◌else◌,
  Option, ℕ, Text, List, Bool,
}

-- The bytes of an address that `To4` brings to four bytes, or the sixteen bytes of another.
pub data Ip : Type 0 where
  v4 : ℕ → ℕ → ℕ → ℕ → Ip
  v6 : ℕ → List ℕ → Ip

-- A URL as package net/url parses it, with its `Hostname()`.
pub record Url : Type 0 where
  pub scheme : Text
  pub host : Text
  pub path : Text
  pub hostname : Text

-- Packages net and net/url, and the resolver. `none` is an error. `host_only` is the host without a
-- port if there is one. `is_special` is loopback, link-local, multicast or unspecified.
pub record Network : Type 0 where
  pub url_parse : Text → Option Url
  pub host_only : Text → Text
  pub parse_ip : Text → Option Ip
  pub look_up : Text → Option (List Ip)
  pub is_special : ℕ → List ℕ → Bool
  pub is_global_unicast : ℕ → List ℕ → Bool

module _ (net : Network) where
  -- `isPublicIP`
  unfoldable pub is_public_ip : Ip → Bool
  is_public_ip (v4 a b c d) =
      if a == 0
      then false
      else if a == 127
      then false
      else if a == 10
      then false
      else if (a == 172) && (leb 16 b && leb b 31)
      then false
      else if (a == 192) && (b == 168)
      then false
      else if (a == 169) && (b == 254)
      then false
      else if leb 224 a && leb a 239
      then false
      else if leb 240 a
      then false
      else true
  is_public_ip (v6 a rest) =
      if net.is_special a rest
      then false
      else if a / 2 == 126
      then false
      else net.is_global_unicast a rest

  -- The addresses that were found must be there and all public.
  unfoldable pub all_public : List Ip → Option Bool
  all_public [] = none
  all_public (ip ∷ ips) = some (all is_public_ip (ip ∷ ips))

  -- `IsPublicHost`
  unfoldable pub is_public_host : Text → Option Bool
  is_public_host host = elim (net.parse_ip (net.host_only host)) [
    | some ip ↦ some (is_public_ip ip)
    | none ↦ elim (net.look_up (net.host_only host)) [ none ↦ none | some ips ↦ all_public ips ]
  ]

  -- `IsPublicURL`
  unfoldable pub is_public_url : Text → Option Bool
  is_public_url raw = elim (net.url_parse raw) [
    | none ↦ none
    | some u ↦
        if not (text_eq u.scheme (codes "https")) then some false else is_public_host u.hostname
  ]

  -- `IsPublicLiteralIP`: is it a literal address, and is that public?
  unfoldable pub is_public_literal_ip : Text → Bool × Bool
  is_public_literal_ip host = elim (net.parse_ip (net.host_only host)) [
    | none ↦ (false, false)
    | some ip ↦ (true, is_public_ip ip)
  ]

  -- The first address, if all are public.
  unfoldable pub first_public : List Ip → Option (Option Ip × Bool)
  first_public [] = none
  first_public (ip ∷ ips) =
      some (if all is_public_ip (ip ∷ ips) then (some ip, true) else (none, false))

  -- `ResolveAndCheckPublic`
  unfoldable pub resolve_and_check_public : Text → Option (Option Ip × Bool)
  resolve_and_check_public host = elim (net.parse_ip (net.host_only host)) [
    | some ip ↦ some (some ip, is_public_ip ip)
    | none ↦ elim (net.look_up (net.host_only host)) [ none ↦ none | some ips ↦ first_public ips ]
  ]
