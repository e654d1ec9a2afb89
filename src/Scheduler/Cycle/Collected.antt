-- ===== src/Scheduler/Cycle/Collected.antt =====
-- The nodes of a cycle are the fetched ones, each hash once.
use mathlib.Core.Path.{subst}
use sub_manager_vpn.Scheduler.Cycle.{collect_source, collect}
use sub_manager_vpn.Node.{Node}
use sub_manager_vpn.Base.{
  one_of-append, sym, text_eq_iff, refl, none, ◌∙◌, text_eq_refl, text_eq, some, not, if◌then◌else◌,
  arith, ap, All-append, ◌∷◌, ◌||◌, true, false, [], All, ◌&&◌, ◌≡◌, map, IsDistinct, Bool, ◌++◌,
  Text, Option, one_of, List,
}
use sub_manager_vpn.State.Tables.{node_hash, Codec}

apart_of_missing :
    (k : Text) (xs : List Text) → one_of xs k ≡ false → All (λ j. text_eq k j ≡ false) xs
unfolding one_of
apart_of_missing k [] h = tt
apart_of_missing k (x ∷ xs) h = (ground arith, apart_of_missing k xs (ground arith))

IsDistinct-append :
    (xs ys : List Text)
    → IsDistinct xs
    → IsDistinct ys
    → All (λ x. one_of ys x ≡ false) xs
    → IsDistinct (xs ++ ys)
IsDistinct-append [] ys hx hy d = hy
IsDistinct-append (x ∷ xs) ys (a, hx) hy (dx, d) =
    (All-append _ xs ys a (apart_of_missing x ys dx), IsDistinct-append xs ys hx hy d)

map-append_hash : (f : Node → Text) (xs ys : List Node) → map f (xs ++ ys) ≡ map f xs ++ map f ys
map-append_hash f [] ys = refl
map-append_hash f (x ∷ xs) ys = ap (λ r. f x ∷ r) (map-append_hash f xs ys)

-- What a test says of every listed text holds of each.
All-of_one_of :
    (p : Text → Bool) (xs : List Text)
    → ((x : Text) → one_of xs x ≡ true → p x ≡ false)
    → All (λ x. p x ≡ false) xs
unfolding one_of
All-of_one_of p [] h = tt
All-of_one_of p (x ∷ xs) h =
    (h x (rw (text_eq_refl x) refl), All-of_one_of p xs (λ y o. h y (ground arith)))

module _ (codec : Codec) where
  abbrev pub hashes_of : List Node → List Text
  hashes_of = map (node_hash codec)

  -- Some source that could be fetched has the hash.
  unfoldable pub is_fetched : List (Option (List Node)) → Text → Bool
  is_fetched [] h = false
  is_fetched (none ∷ sources) h = is_fetched sources h
  is_fetched (some nodes ∷ sources) h = one_of (hashes_of nodes) h || is_fetched sources h

  collect_source-seen :
      (seen : List Text) (nodes : List Node) (h : Text)
      → one_of (collect_source codec seen nodes).0 h ≡ (one_of seen h || one_of (hashes_of nodes) h)
  unfolding collect_source
  collect_source-seen seen [] h = unfold one_of in ground arith
  collect_source-seen seen (n ∷ nodes) h =
      go (one_of seen (node_hash codec n)) refl (collect_source-seen seen nodes h)
        (collect_source-seen (node_hash codec n ∷ seen) nodes h)
    where
      k : Text
      k = node_hash codec n

      go :
          (b : Bool)
          → one_of seen k ≡ b
          → one_of (collect_source codec seen nodes).0 h
            ≡ (one_of seen h || one_of (hashes_of nodes) h)
          → one_of (collect_source codec (k ∷ seen) nodes).0 h
            ≡ (one_of (k ∷ seen) h || one_of (hashes_of nodes) h)
          → one_of
              (let rest = collect_source codec (if b then seen else k ∷ seen) nodes in
                if b then rest else (rest.0, n ∷ rest.1)).0
              h
            ≡ (one_of seen h || one_of (k ∷ hashes_of nodes) h)
      go true e x y = x ∙ unfold one_of in ground (arith, text_eq_iff h k)
      go false e x y = y ∙ unfold one_of in ground arith

  collect_source-new :
      (seen : List Text) (nodes : List Node) (h : Text)
      → one_of (hashes_of (collect_source codec seen nodes).1) h
        ≡ (one_of (hashes_of nodes) h && not (one_of seen h))
  unfolding collect_source
  collect_source-new seen [] h = unfold one_of in ground arith
  collect_source-new seen (n ∷ nodes) h =
      go (one_of seen (node_hash codec n)) refl (collect_source-new seen nodes h)
        (collect_source-new (node_hash codec n ∷ seen) nodes h)
    where
      k : Text
      k = node_hash codec n

      go :
          (b : Bool)
          → one_of seen k ≡ b
          → one_of (hashes_of (collect_source codec seen nodes).1) h
            ≡ (one_of (hashes_of nodes) h && not (one_of seen h))
          → one_of (hashes_of (collect_source codec (k ∷ seen) nodes).1) h
            ≡ (one_of (hashes_of nodes) h && not (one_of (k ∷ seen) h))
          → one_of
              (hashes_of
                (let rest = collect_source codec (if b then seen else k ∷ seen) nodes in
                  if b then rest else (rest.0, n ∷ rest.1)).1)
              h
            ≡ (one_of (k ∷ hashes_of nodes) h && not (one_of seen h))
      go true e x y = x ∙ unfold one_of in ground (arith, text_eq_iff h k)
      go false e x y =
          unfold one_of in
          (ap (λ b. text_eq h k || b) y ∙ unfold one_of in ground (arith, text_eq_iff h k))

  collect_source-IsDistinct :
      (seen : List Text) (nodes : List Node)
      → IsDistinct (hashes_of (collect_source codec seen nodes).1)
  unfolding collect_source
  collect_source-IsDistinct seen [] = tt
  collect_source-IsDistinct seen (n ∷ nodes) =
      go (one_of seen (node_hash codec n)) (collect_source-IsDistinct seen nodes)
        (collect_source-IsDistinct (node_hash codec n ∷ seen) nodes)
    where
      k : Text
      k = node_hash codec n

      go :
          (b : Bool)
          → IsDistinct (hashes_of (collect_source codec seen nodes).1)
          → IsDistinct (hashes_of (collect_source codec (k ∷ seen) nodes).1)
          → IsDistinct (
              hashes_of
                (let rest = collect_source codec (if b then seen else k ∷ seen) nodes in
                  if b then rest else (rest.0, n ∷ rest.1)).1)
      go true x y = x
      go false x y = (
        apart_of_missing k _ (
            collect_source-new (k ∷ seen) nodes k
            ∙ unfold one_of in rw (text_eq_refl k) ground arith),
        y,
      )

  collect-new :
      (seen : List Text) (sources : List (Option (List Node))) (h : Text)
      → one_of (hashes_of (collect codec seen sources)) h
        ≡ (is_fetched sources h && not (one_of seen h))
  unfolding collect is_fetched
  collect-new seen [] h = unfold one_of in refl
  collect-new seen (none ∷ sources) h = collect-new seen sources h
  collect-new seen (some nodes ∷ sources) h =
      let got = collect_source codec seen nodes in
      ap (λ l. one_of l h) (map-append_hash (node_hash codec) got.1 (collect codec got.0 sources))
      ∙ (one_of-append (hashes_of got.1) (hashes_of (collect codec got.0 sources)) h
          ∙ rw
              (
                collect_source-new seen nodes h,
                collect-new got.0 sources h,
                collect_source-seen seen nodes h,
              )
              ground arith)

  collect-IsDistinct :
      (seen : List Text) (sources : List (Option (List Node)))
      → IsDistinct (hashes_of (collect codec seen sources))
  unfolding collect
  collect-IsDistinct seen [] = tt
  collect-IsDistinct seen (none ∷ sources) = collect-IsDistinct seen sources
  collect-IsDistinct seen (some nodes ∷ sources) =
      let got = collect_source codec seen nodes in
      subst IsDistinct (sym (map-append_hash (node_hash codec) got.1 (collect codec got.0 sources)))
        (IsDistinct-append (hashes_of got.1) (hashes_of (collect codec got.0 sources))
          (collect_source-IsDistinct seen nodes) (collect-IsDistinct got.0 sources)
          (All-of_one_of _ (hashes_of got.1) (λ x o.
            let a = sym o ∙ collect_source-new seen nodes x in
            collect-new got.0 sources x ∙ rw (collect_source-seen seen nodes x) ground arith)))

  -- The nodes of a cycle have pairwise different hashes, and they have exactly the hashes of the
  -- nodes of the sources that could be fetched.
  pub collect_exact :
      (sources : List (Option (List Node)))
      → IsDistinct (hashes_of (collect codec [] sources))
        × ((h : Text) → one_of (hashes_of (collect codec [] sources)) h ≡ is_fetched sources h)
  collect_exact sources =
      (collect-IsDistinct [] sources, λ h. collect-new [] sources h ∙ unfold one_of in ground arith)
