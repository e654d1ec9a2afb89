-- ===== src/Net/Examples.antt =====
-- The theorems at a small network.
use sub_manager_vpn.Net.Blocks.{is_public_ip-reserved, reserved, address, in_block}
use sub_manager_vpn.Base.{
  ◌==◌, all, ◌&&◌, true, arith, false, ◌∷◌, text_eq, none, any, [], some, not, ◌≡◌, has_prefix,
  codes, if◌then◌else◌,
}
use sub_manager_vpn.Net.Resolve.{resolve_and_check_public-is_public_host, IsPinned, verdict}
use sub_manager_vpn.Net.{is_public_host, v4, resolve_and_check_public, is_public_ip, Network}

-- Only one address is known by its literal, every name resolves to two addresses, and a line that
-- starts with h is an https URL whose host it spells.
abbrev pub toy_net : Network
toy_net = record {
  url_parse = λ t.
      if has_prefix t (codes "h") && all (λ c. not (c == b'\n')) t
      then some (record { scheme = codes "https"; host = t; path = []; hostname = t })
      else none;
  host_only = λ t. t;
  parse_ip = λ t. if text_eq t (codes "10.0.0.1") then some (v4 10 0 0 1) else none;
  look_up = λ t. some (v4 1 1 1 1 ∷ v4 192 168 0 1 ∷ []);
  is_special = λ a rest. false;
  is_global_unicast = λ a rest. true;
}

is_public_ip-reserved_example :
    is_public_ip toy_net (v4 172 31 0 9) ≡ not (any (in_block (address 172 31 0 9)) reserved)
is_public_ip-reserved_example =
    is_public_ip-reserved toy_net 172 31 0 9 (omega arith) (omega arith) (omega arith) (omega arith)

resolve_and_check_public-is_public_host_example :
    (verdict (resolve_and_check_public toy_net (codes "a")) ≡ is_public_host toy_net (codes "a"))
    × IsPinned toy_net (resolve_and_check_public toy_net (codes "a"))
resolve_and_check_public-is_public_host_example =
    resolve_and_check_public-is_public_host toy_net (codes "a")
