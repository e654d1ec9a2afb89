-- ===== src/Filter/Examples.antt =====
-- Runs of the filters and the theorems at concrete nodes.
use sub_manager_vpn.Base.Int.{pos}
use sub_manager_vpn.Filter.Passes.{apply-IsServable}
use sub_manager_vpn.Filter.Defs.{key, dedup, apply}
use sub_manager_vpn.Node.{vless, Node}
use sub_manager_vpn.Filter.Servable.{IsServable}
use sub_manager_vpn.Filter.Distinct.{dedup_first, first_with, key-injective, IsSeparable}
use sub_manager_vpn.Base.{IsDistinct, refl, Text, [], ◌≡◌, ◌∷◌, map, codes, arith, List, All}

abbrev good : Node
good = record {
  protocol = vless;
  host = codes "a.example";
  port = pos 443;
  security = codes "tls";
  encryption = codes "none";
  flow = [];
  network = codes "ws";
  user = codes "u1";
  extra = (codes "path", codes "/?ed=2048&v=1") ∷ [];
  plugin = [];
  name = codes "A";
  raw = [];
  source = codes "s1";
  country = [];
  egress_ip = [];
}

abbrev plain : Node
plain = record good { security = codes "none" }

abbrev scripted : Node
scripted = record good { host = codes "b.example"; extra = (codes "Exec", codes "rm") ∷ [] }

abbrev sample : List Node
sample = good ∷ plain ∷ scripted ∷ record good { name = codes "twin" } ∷ []

apply-IsServable_example : All IsServable (apply sample)
apply-IsServable_example = apply-IsServable sample

dedup_first_example :
    IsDistinct (map key (dedup sample))
    × ((k : Text) → first_with k (dedup sample) ≡ first_with k sample)
dedup_first_example = dedup_first sample

separable : (x : Text) → IsSeparable (record good { name = x })
separable x = record {
  protocol = omega arith;
  network = omega arith;
  host = omega arith;
  user = omega arith;
  security = omega arith;
}

key-injective_example :
    (vless ≡ vless)
    × (codes "ws" ≡ codes "ws")
    × (codes "a.example" ≡ codes "a.example")
    × (pos 443 ≡ pos 443)
    × (codes "u1" ≡ codes "u1")
    × (codes "tls" ≡ codes "tls")
    × (codes "none" ≡ codes "none")
unfolding key
key-injective_example =
    key-injective good (record good { name = codes "twin" }) (separable (codes "A"))
      (separable (codes "twin")) refl
