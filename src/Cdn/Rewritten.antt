-- ===== src/Cdn/Rewritten.antt =====
-- What the rewriting keeps of a node, and where the node points after it.
use sub_manager_vpn.Cdn.{rewrite, sni_of, override, resolve_cdn_ip, rewrite_node, sni}
use sub_manager_vpn.Base.Map.{lookup_or-insert, lookup-insert, lookup, insert, Map, lookup_or}
use sub_manager_vpn.Settings.{Settings}
use sub_manager_vpn.Base.{
  ap, ◌∷◌, text_eq_refl, sym, map, none, arith, List, ◌∙◌, refl, true, some, not, false, [], ◌&&◌,
  text_eq, is_empty, Bool, ◌≡◌, if◌then◌else◌, Option, Text,
}
use sub_manager_vpn.Node.{Node}

-- The name the server at a node is asked for: the name it gives, or its address.
abbrev pub asked_name : Node → Text
asked_name n = if is_empty (lookup_or [] sni n.extra) then n.host else lookup_or [] sni n.extra

-- The two nodes differ in the address and in `sni` only.
abbrev pub IsMoved : Node → Node → Type 0
IsMoved n m =
    (m ≡ record n { host = m.host; extra = m.extra })
    × ((k : Text) → text_eq sni k ≡ false → lookup k m.extra ≡ lookup k n.extra)

module _ (files : Text → Option Text) (cf : Text → Bool) (s : Settings) where
  -- A node behind Cloudflare, with an address to send it to.
  abbrev pub is_sent : Node → Bool
  is_sent n = s.cdn_enabled && (cf n.host && not (is_empty (resolve_cdn_ip files cf s)))

  -- The address a node is sent to: the override of its address, or of the name it asks for, or the
  -- address of the configuration. An empty override leaves it where it is.
  abbrev pub address : Node → Text
  address n =
      let wanted : Text = elim (lookup n.host s.cdn_overrides) [
        | some ip ↦ ip
        | none ↦ elim (lookup (asked_name n) s.cdn_overrides) [
          | some ip ↦ ip
          | none ↦ resolve_cdn_ip files cf s
        ]
      ] in
      if is_empty wanted then n.host else wanted

  -- A node and what it is rewritten to.
  pub record IsRewritten (n m : Node) : Type 0 where
    pub moved : IsMoved n m
    pub named : asked_name m ≡ asked_name n
    pub left : is_sent n ≡ false → m ≡ n
    pub sent : is_sent n ≡ true → m.host ≡ address n

  override-address :
      (n : Node)
      → (if is_empty (override files cf s n (resolve_cdn_ip files cf s))
          then n.host
          else override files cf s n (resolve_cdn_ip files cf s))
        ≡ address n
  unfolding override sni_of
  override-address n = refl

  lookup-extra_after :
      (b : Bool) (n : Node) (k : Text)
      → text_eq sni k ≡ false
      → lookup k (if b then insert sni n.host n.extra else n.extra) ≡ lookup k n.extra
  lookup-extra_after true n k h = lookup-insert sni k n.host n.extra ∙ rw h refl
  lookup-extra_after false n k h = refl

  name_kept :
      (n : Node) (host : Text)
      → is_empty n.host ≡ false
      → asked_name (record n {
        host = host;
        extra = if is_empty (lookup_or [] sni n.extra) then insert sni n.host n.extra else n.extra;
      })
        ≡ asked_name n
  name_kept n host e = go (is_empty (lookup_or [] sni n.extra)) refl
    where
      go :
          (b : Bool)
          → is_empty (lookup_or [] sni n.extra) ≡ b
          → asked_name
              (record n { host = host; extra = if b then insert sni n.host n.extra else n.extra })
            ≡ (if b then n.host else lookup_or [] sni n.extra)
      go true q =
          let found : lookup_or [] sni (insert sni n.host n.extra) ≡ n.host =
            ground (arith, lookup_or-insert [] sni sni n.host n.extra, text_eq_refl sni) in
          rw (found, e) refl
      go false q = rw q refl

  named_host : cf [] ≡ false → (h : Text) → cf h ≡ true → is_empty h ≡ false
  unfolding is_empty
  named_host c [] e = absurd (ground (arith, c, e))
  named_host c (x ∷ h) e = refl

  same-IsRewritten : (n : Node) → is_sent n ≡ false → IsRewritten n n
  same-IsRewritten n e = record {
    moved = (refl, λ k h. refl);
    named = refl;
    left = λ h. refl;
    sent = λ h. absurd (ground (arith, e, h));
  }

  rewrite_node-IsRewritten :
      cf [] ≡ false → s.cdn_enabled ≡ true → (n : Node) → IsRewritten n (rewrite_node files cf s n)
  unfolding rewrite_node
  rewrite_node-IsRewritten c on n = go (cf n.host) (is_empty (resolve_cdn_ip files cf s)) refl refl
    where
      target : Text
      target = override files cf s n (resolve_cdn_ip files cf s)

      extra : Map Text
      extra = if is_empty (lookup_or [] sni n.extra) then insert sni n.host n.extra else n.extra

      sent_to : Bool → Node
      sent_to b =
          if b then record n { extra = extra } else record n { extra = extra; host = target }

      moved_to :
          (b : Bool)
          → is_empty target ≡ b
          → cf n.host ≡ true
          → is_sent n ≡ true
          → IsRewritten n (sent_to b)
      moved_to true e h t = record {
        moved = (refl, λ k d. lookup-extra_after (is_empty (lookup_or [] sni n.extra)) n k d);
        named = name_kept n n.host (named_host c n.host h);
        left = λ f. absurd (ground (arith, f, t));
        sent = λ f. sym (ap (λ b. if b then n.host else target) e) ∙ override-address n;
      }
      moved_to false e h t = record {
        moved = (refl, λ k d. lookup-extra_after (is_empty (lookup_or [] sni n.extra)) n k d);
        named = name_kept n target (named_host c n.host h);
        left = λ f. absurd (ground (arith, f, t));
        sent = λ f. sym (ap (λ b. if b then n.host else target) e) ∙ override-address n;
      }

      go :
          (b t : Bool)
          → cf n.host ≡ b
          → is_empty (resolve_cdn_ip files cf s) ≡ t
          → IsRewritten n (if not b then n else if t then n else sent_to (is_empty target))
      go false t h e = same-IsRewritten n (ground (arith, h))
      go true true h e = same-IsRewritten n (ground (arith, h, e))
      go true false h e = moved_to (is_empty target) refl h (ground (arith, on, h, e))

  -- The relation of each node with the one that stands in its place.
  abbrev pub AllRewritten : List Node → List Node → Type 0
  AllRewritten [] [] = Unit
  AllRewritten [] (m ∷ ms) = ⊥
  AllRewritten (n ∷ ns) [] = ⊥
  AllRewritten (n ∷ ns) (m ∷ ms) = IsRewritten n m × AllRewritten ns ms

  off-AllRewritten : s.cdn_enabled ≡ false → (nodes : List Node) → AllRewritten nodes nodes
  off-AllRewritten off [] = tt
  off-AllRewritten off (n ∷ nodes) =
      (same-IsRewritten n (ground (arith, off)), off-AllRewritten off nodes)

  on-AllRewritten :
      cf [] ≡ false
      → s.cdn_enabled ≡ true
      → (nodes : List Node) → AllRewritten nodes (map (rewrite_node files cf s) nodes)
  on-AllRewritten c on [] = tt
  on-AllRewritten c on (n ∷ nodes) = (rewrite_node-IsRewritten c on n, on-AllRewritten c on nodes)

  -- The nodes keep their number and order. A node changes only when the rewriting is on, its address is
  -- one of Cloudflare and the configuration names an address; then it points to the override or that
  -- address, and asks for the same name as before. Nothing else of a node changes.
  -- The empty text is no address of Cloudflare.
  pub rewrite-AllRewritten :
      cf [] ≡ false → (nodes : List Node) → AllRewritten nodes (rewrite files cf s nodes)
  unfolding rewrite
  rewrite-AllRewritten c nodes = go s.cdn_enabled refl
    where
      go :
          (b : Bool)
          → s.cdn_enabled ≡ b
          → AllRewritten nodes (if not b then nodes else map (rewrite_node files cf s) nodes)
      go true e = on-AllRewritten c e nodes
      go false e = off-AllRewritten e nodes
