-- ===== src/Filter/Passes.antt =====
-- The six passes together: what they keep is exactly what is servable, of the first occurrences.
use sub_manager_vpn.Filter.Servable.{IsServable-of_kept, IsServable}
use sub_manager_vpn.Base.{
  All-filter_of, All, filter-cong, ◌∙◌, arith, true, filter-filter, filter, false, ◌≡◌, ◌&&◌,
  one_of, not, List, Bool,
}
use sub_manager_vpn.Filter.Defs.{
  malware, insecure, dedup, unsupported, drop_malware, drop_insecure, drop_unsupported, open_proxy,
  drop_broken, drop_open, broken, apply,
}
use sub_manager_vpn.Node.{Node}

-- A node passes: no filter of the chain drops it.
unfoldable pub passes : Node → Bool
passes n =
    not (broken n)
    && (not (unsupported n) && (not (open_proxy n) && (not (insecure n) && not (malware n))))

-- `DropBroken` leaves `DropOpen` nothing to drop.
pub open_of_broken : (n : Node) → broken n ≡ false → open_proxy n ≡ false
unfolding broken open_proxy one_of
open_of_broken n h = ground arith

pub drop_open-drop_broken : (nodes : List Node) → drop_open (drop_broken nodes) ≡ drop_broken nodes
unfolding drop_open drop_broken
drop_open-drop_broken nodes =
    filter-filter (λ n. not (open_proxy n)) (λ n. not (broken n)) nodes
    ∙ filter-cong _ _ (λ n. ground (arith, open_of_broken n)) nodes

pub apply-filter : (nodes : List Node) → apply nodes ≡ filter passes (dedup nodes)
unfolding apply passes drop_broken drop_unsupported drop_open drop_insecure drop_malware
apply-filter nodes = simp filter-filter (filter-cong _ _ (λ n. ground arith) (dedup nodes))

IsServable-of_passes : (n : Node) → passes n ≡ true → IsServable n
unfolding passes
IsServable-of_passes n h =
    IsServable-of_kept n (ground arith) (ground arith) (ground arith) (ground arith)

-- Every node that the filters keep is servable, whatever was downloaded.
pub apply-IsServable : (nodes : List Node) → All IsServable (apply nodes)
apply-IsServable nodes =
    rw apply-filter (All-filter_of IsServable passes IsServable-of_passes (dedup nodes))
