-- ===== src/Filter/Distinct.antt =====
-- `Dedup`: one node for each key, the first, and which fields a key tells apart.
use sub_manager_vpn.Base.Int.{itoa-injective, itoa-All, itoa}
use sub_manager_vpn.Filter.Defs.{sep, key, dedup_loop, dedup}
use sub_manager_vpn.Node.{Node}
use sub_manager_vpn.Base.{
  one_of_head, true, refl, All-map, text_eq_iff, if◌then◌else◌, [], ◌++◌, ◌≢◌, text_eq, map, find,
  false, arith, Bool, ◌≡◌, ◌∷◌, Option, IsDistinct, All, one_of, Text, List,
}

abbrev pub IsNew : List Text → Node → Type 0
IsNew seen n = one_of seen (key n) ≡ false

IsNew-tail : (k : Text) (seen : List Text) (n : Node) → IsNew (k ∷ seen) n → IsNew seen n
unfolding one_of
IsNew-tail k seen n h = ground arith

-- What the loop keeps was not seen before.
dedup_loop-IsNew : (seen : List Text) (nodes : List Node) → All (IsNew seen) (dedup_loop seen nodes)
unfolding dedup_loop
dedup_loop-IsNew seen [] = tt
dedup_loop-IsNew seen (n ∷ nodes) = go (one_of seen (key n)) refl (dedup_loop-IsNew seen nodes) (
    All-map (IsNew (key n ∷ seen)) (IsNew seen) (IsNew-tail (key n) seen) _
      (dedup_loop-IsNew (key n ∷ seen) nodes))
  where
    go :
        (b : Bool)
        → one_of seen (key n) ≡ b
        → All (IsNew seen) (dedup_loop seen nodes)
        → All (IsNew seen) (dedup_loop (key n ∷ seen) nodes)
        → All
            (IsNew seen)
            (if b then dedup_loop seen nodes else n ∷ dedup_loop (key n ∷ seen) nodes)
    go true e skip take = skip
    go false e skip take = (e, take)

keys_differ :
    (k : Text) (seen : List Text) (nodes : List Node)
    → All (IsNew (k ∷ seen)) nodes
    → All (λ j. text_eq k j ≡ false) (map key nodes)
keys_differ k seen [] h = tt
keys_differ k seen (n ∷ nodes) (hn, h) = (one_of_head k (key n) seen hn, keys_differ k seen nodes h)

dedup_loop-IsDistinct :
    (seen : List Text) (nodes : List Node) → IsDistinct (map key (dedup_loop seen nodes))
unfolding dedup_loop
dedup_loop-IsDistinct seen [] = tt
dedup_loop-IsDistinct seen (n ∷ nodes) =
    go (one_of seen (key n)) (dedup_loop-IsDistinct seen nodes)
      (dedup_loop-IsDistinct (key n ∷ seen) nodes)
  where
    go :
        (b : Bool)
        → IsDistinct (map key (dedup_loop seen nodes))
        → IsDistinct (map key (dedup_loop (key n ∷ seen) nodes))
        → IsDistinct
            (map key (if b then dedup_loop seen nodes else n ∷ dedup_loop (key n ∷ seen) nodes))
    go true skip take = skip
    go false skip take = (keys_differ (key n) seen _ (dedup_loop-IsNew (key n ∷ seen) nodes), take)

-- The first node with a key, if there is one.
unfoldable pub first_with : Text → List Node → Option Node
first_with k nodes = find (λ n. text_eq (key n) k) nodes

first_with-dedup_loop :
    (k : Text) (seen : List Text) (nodes : List Node)
    → one_of seen k ≡ false
    → first_with k (dedup_loop seen nodes) ≡ first_with k nodes
unfolding dedup_loop first_with one_of
first_with-dedup_loop k seen [] h = refl
first_with-dedup_loop k seen (n ∷ nodes) h = ground (
  arith,
  text_eq_iff (key n) k,
  text_eq_iff k (key n),
  first_with-dedup_loop k seen nodes h,
  first_with-dedup_loop k (key n ∷ seen) nodes,
)

-- The keys of what `Dedup` returns are pairwise different, and for every key it returns the node
-- that was first with it: a later node never shadows an earlier one, and no key is lost.
pub dedup_first :
    (nodes : List Node)
    → IsDistinct (map key (dedup nodes))
      × ((k : Text) → first_with k (dedup nodes) ≡ first_with k nodes)
unfolding dedup one_of
dedup_first nodes = (dedup_loop-IsDistinct [] nodes, λ k. first_with-dedup_loop k [] nodes refl)

-- No field of the key holds the separator.
pub record IsSeparable (n : Node) : Type 0 where
  pub protocol : All (λ c. c ≢ 0) n.protocol
  pub network : All (λ c. c ≢ 0) n.network
  pub host : All (λ c. c ≢ 0) n.host
  pub user : All (λ c. c ≢ 0) n.user
  pub security : All (λ c. c ≢ 0) n.security

split_at_sep :
    (s t r q : Text)
    → All (λ c. c ≢ 0) s
    → All (λ c. c ≢ 0) t
    → s ++ (sep ++ r) ≡ t ++ (sep ++ q)
    → (s ≡ t) × (r ≡ q)
split_at_sep [] [] r q hs ht e = (refl, cc)
split_at_sep [] (d ∷ t) r q hs (hd, ht) e = absurd (hd (cc))
split_at_sep (c ∷ s) [] r q (hc, hs) ht e = absurd (hc (cc))
split_at_sep (c ∷ s) (d ∷ t) r q (hc, hs) (hd, ht) e =
    let (p, rest) = split_at_sep s t r q hs ht (cc) in (cc (p), rest)

-- Nodes with one key agree in all seven fields of the key, unless a field holds the separator:
-- `Dedup` drops no node but for a twin with the same endpoint, transport, credential and security.
pub key-injective :
    (m n : Node)
    → IsSeparable m
    → IsSeparable n
    → key m ≡ key n
    → (m.protocol ≡ n.protocol)
      × (m.network ≡ n.network)
      × (m.host ≡ n.host)
      × (m.port ≡ n.port)
      × (m.user ≡ n.user)
      × (m.security ≡ n.security)
      × (m.encryption ≡ n.encryption)
unfolding key
key-injective m n hm hn e =
    let (p, e1) = split_at_sep m.protocol n.protocol _ _ hm.protocol hn.protocol e in
    let (w, e2) = split_at_sep m.network n.network _ _ hm.network hn.network e1 in
    let (h, e3) = split_at_sep m.host n.host _ _ hm.host hn.host e2 in
    let (i, e4) =
      split_at_sep (itoa m.port) (itoa n.port) _ _ (itoa-All m.port) (itoa-All n.port) e3 in
    let (u, e5) = split_at_sep m.user n.user _ _ hm.user hn.user e4 in
    let (s, e6) = split_at_sep m.security n.security _ _ hm.security hn.security e5 in
    (p, w, h, itoa-injective m.port n.port i, u, s, e6)
