-- ===== src/Net/Resolve.antt =====
-- The two checks of a host agree, and the address to connect to is public.
use sub_manager_vpn.Base.{
  [], all, ◌&&◌, true, refl, if◌then◌else◌, false, ◌∷◌, ◌≡◌, none, Text, some, List, Bool, Option,
}
use sub_manager_vpn.Net.{
  is_public_ip, is_public_host, all_public, resolve_and_check_public, first_public, Ip, Network,
}

-- What is said of the host, without the address.
abbrev pub verdict : Option (Option Ip × Bool) → Option Bool
verdict none = none
verdict (some (r, b)) = some b

-- A connection goes to an address that is there and public.
abbrev pub IsPinned : Network → Option (Option Ip × Bool) → Type 0
IsPinned net none = Unit
IsPinned net (some (r, false)) = Unit
IsPinned net (some (none, true)) = ⊥
IsPinned net (some (some ip, true)) = is_public_ip net ip ≡ true

module _ (net : Network) where
  first_public-verdict : (ips : List Ip) → verdict (first_public net ips) ≡ all_public net ips
  unfolding first_public all_public
  first_public-verdict [] = refl
  first_public-verdict (ip ∷ ips) = go (all (is_public_ip net) (ip ∷ ips))
    where
      go : (b : Bool) → verdict (some (if b then (some ip, true) else (none, false))) ≡ some b
      go true = refl
      go false = refl

  first_public-IsPinned : (ips : List Ip) → IsPinned net (first_public net ips)
  unfolding first_public
  first_public-IsPinned [] = tt
  first_public-IsPinned (ip ∷ ips) = go (is_public_ip net ip) refl (all (is_public_ip net) ips)
    where
      go :
          (b : Bool)
          → is_public_ip net ip ≡ b
          → (c : Bool) → IsPinned net (some (if b && c then (some ip, true) else (none, false)))
      go true e true = e
      go true e false = tt
      go false e c = tt

  literal-IsPinned : (ip : Ip) → IsPinned net (some (some ip, is_public_ip net ip))
  literal-IsPinned ip = go (is_public_ip net ip) refl
    where
      go : (b : Bool) → is_public_ip net ip ≡ b → IsPinned net (some (some ip, b))
      go true e = e
      go false e = tt

  -- `IsPublicHost` and `ResolveAndCheckPublic` say the same of every host, errors included, and
  -- where they call it public the second returns an address that is public.
  pub resolve_and_check_public-is_public_host :
      (host : Text)
      → (verdict (resolve_and_check_public net host) ≡ is_public_host net host)
        × IsPinned net (resolve_and_check_public net host)
  unfolding resolve_and_check_public is_public_host
  resolve_and_check_public-is_public_host host =
      go (net.parse_ip (net.host_only host)) (net.look_up (net.host_only host))
    where
      resolved : Option Ip → Option (List Ip) → Option (Option Ip × Bool)
      resolved p l = elim p [
        | some ip ↦ some (some ip, is_public_ip net ip)
        | none ↦ elim l [ none ↦ none | some ips ↦ first_public net ips ]
      ]

      public : Option Ip → Option (List Ip) → Option Bool
      public p l = elim p [
        | some ip ↦ some (is_public_ip net ip)
        | none ↦ elim l [ none ↦ none | some ips ↦ all_public net ips ]
      ]

      go :
          (p : Option Ip) (l : Option (List Ip))
          → (verdict (resolved p l) ≡ public p l) × IsPinned net (resolved p l)
      go (some ip) l = (refl, literal-IsPinned ip)
      go none none = (refl, tt)
      go none (some ips) = (first_public-verdict ips, first_public-IsPinned ips)
