-- ===== src/Cdn/Examples.antt =====
-- Nodes behind Cloudflare, and the theorem at them.
use sub_manager_vpn.Base.Map.{lookup_or, lookup}
use sub_manager_vpn.State.Examples.{node_at}
use sub_manager_vpn.Cdn.{sni_of, override, resolve_cdn_ip, rewrite_node, rewrite}
use sub_manager_vpn.Node.{Node}
use sub_manager_vpn.Settings.{default_settings, Settings}
use sub_manager_vpn.Base.{
  is_empty, [], ◌∷◌, ◌||◌, refl, codes, ◌≡◌, true, text_eq, none, Bool, map, Text, List,
}
use sub_manager_vpn.Cdn.Rewritten.{rewrite-AllRewritten, AllRewritten}

abbrev edge : Settings
edge = record default_settings {
  cdn_enabled = true;
  cdn_source = codes "manual";
  cdn_fallback_ip = codes "9.9.9.9";
  cdn_overrides = (codes "c", codes "8.8.8.8") ∷ [];
}

abbrev behind : Text → Bool
behind h = text_eq h (codes "a") || text_eq h (codes "c")

abbrev three : List Node
three = node_at (codes "a") ∷ node_at (codes "b") ∷ node_at (codes "c") ∷ []

rewrite-three :
    map (λ n. n.host) (rewrite (λ p. none) behind edge three)
    ≡ codes "9.9.9.9" ∷ codes "b" ∷ codes "8.8.8.8" ∷ []
unfolding rewrite rewrite_node text_eq is_empty resolve_cdn_ip override lookup sni_of lookup_or
rewrite-three = refl

rewrite-AllRewritten_example :
    AllRewritten (λ p. none) behind edge three (rewrite (λ p. none) behind edge three)
rewrite-AllRewritten_example =
    rewrite-AllRewritten (λ p. none) behind edge (unfold text_eq in refl) three
