-- ===== src/Registry/Spec.antt =====
-- The whitelist as its user sees it: an ordered list of addresses, each switched on or off.
use sub_manager_vpn.Registry.{
  normalize_source_url, replace_all, is_refused_host, set_enabled, remove_source, is_https,
  add_source,
}
use sub_manager_vpn.Net.{Network}
use sub_manager_vpn.Base.{
  filter, false, ◌++◌, true, not, trim_space, [], ◌&&◌, text_eq, if◌then◌else◌, any, Option, ◌∷◌,
  Bool, Text, List,
}

abbrev pub Whitelist : Type 0
Whitelist = List (Text × Bool)

-- The calls that change the registry.
pub data Call : Type 0 where
  adds removes : Text → Call
  switches : Text → Bool → Call
  replaces : List Text → Call

-- What a call does to the file, where that can be written or not.
unfoldable pub step : Network → Bool → Call → Option Text → Bool × Option Text
step net writable (adds url) file = add_source net writable url file
step net writable (removes id) file = remove_source net writable id file
step net writable (switches id enabled) file = set_enabled net writable id enabled file
step net writable (replaces lines) file = (replace_all net writable lines file).0

module _ (net : Network) where
  unfoldable pub is_listed : Text → Whitelist → Bool
  is_listed url w = any (λ p. text_eq p.0 url) w

  unfoldable pub switch_first : Text → Bool → Whitelist → Whitelist
  switch_first url enabled [] = []
  switch_first url enabled (p ∷ w) =
      if text_eq p.0 url then (p.0, enabled) ∷ w else p ∷ switch_first url enabled w

  -- The lines that are addresses.
  unfoldable pub addresses : List Text → Whitelist
  addresses [] = []
  addresses (line ∷ lines) =
      if is_https net (trim_space line)
      then (trim_space line, true) ∷ addresses lines
      else addresses lines

  -- What a call promises.
  unfoldable pub promised : Call → Whitelist → Bool × Whitelist
  promised (adds url) w =
      if is_https net url
        && (not (is_refused_host net url)
            && not (
                any (λ p. text_eq (normalize_source_url net p.0) (normalize_source_url net url)) w))
      then (true, w ++ (url, true) ∷ [])
      else (false, w)
  promised (removes url) w =
      if is_listed url w then (true, filter (λ p. not (text_eq p.0 url)) w) else (false, w)
  promised (switches url enabled) w =
      if is_listed url w then (true, switch_first url enabled w) else (false, w)
  promised (replaces lines) w = (true, addresses lines)
