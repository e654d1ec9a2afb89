-- ===== src/Node.antt =====
-- internal/model/model.go: the schemes and the node.
use sub_manager_vpn.Base.{
  Text, codes, one_of, trim_space, to_lower, List, [], ◌∷◌, Option, none, some, if◌then◌else◌,
}
use sub_manager_vpn.Base.Map.{Map}
use sub_manager_vpn.Base.Int.{ℤ}

-- `Scheme` is a string type, and a node may hold any string there.
abbrev pub Scheme : Type 0
Scheme = Text

abbrev pub vmess : Scheme
vmess = codes "vmess"

abbrev pub vless : Scheme
vless = codes "vless"

abbrev pub trojan : Scheme
trojan = codes "trojan"

abbrev pub ss : Scheme
ss = codes "ss"

abbrev pub hysteria2 : Scheme
hysteria2 = codes "hysteria2"

abbrev pub tuic : Scheme
tuic = codes "tuic"

abbrev pub wireguard : Scheme
wireguard = codes "wireguard"

abbrev pub supported_schemes : List Scheme
supported_schemes = vmess ∷ vless ∷ trojan ∷ ss ∷ hysteria2 ∷ tuic ∷ wireguard ∷ []

-- `none` is the error.
unfoldable pub parse_scheme : Text → Option Scheme
parse_scheme s =
    let norm = to_lower (trim_space s) in if one_of supported_schemes norm then some norm else none

-- A nil `Extra` is read like an empty one.
pub record Node : Type 0 where
  pub protocol : Scheme
  pub host : Text
  pub port : ℤ
  pub security : Text
  pub encryption : Text
  pub flow : Text
  pub network : Text
  pub user : Text
  pub extra : Map Text
  pub plugin : Text
  pub name : Text
  pub raw : Text
  pub source : Text
  pub country : Text
  pub egress_ip : Text
