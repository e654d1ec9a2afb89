-- ===== src/Registry/Views.antt =====
-- The list of sources of a file, seen as a whitelist.
use mathlib.Core.Path.{subst}
use sub_manager_vpn.Registry.Spec.{switch_first, Whitelist, is_listed}
use sub_manager_vpn.Base.{
  sym, false, true, refl, ◌∙◌, ◌||◌, text_eq, not, if◌then◌else◌, [], ◌∷◌, filter, ap, any, ◌++◌,
  ◌≡◌, map, Bool, All, Text, Option, List,
}
use sub_manager_vpn.Registry.File.{IsStored}
use sub_manager_vpn.Registry.{source_of, read, set_first, Source}
use sub_manager_vpn.Net.{Network}

abbrev pub pair_of : Source → Text × Bool
pair_of s = (s.url, s.enabled)

module _ (net : Network) where
  -- The whitelist that a file stands for.
  abbrev pub view : Option Text → Whitelist
  view file = map pair_of (read net file)

  pub map-append_pair :
      (xs ys : List Source) → map pair_of (xs ++ ys) ≡ map pair_of xs ++ map pair_of ys
  map-append_pair [] ys = refl
  map-append_pair (x ∷ xs) ys = ap (λ r. pair_of x ∷ r) (map-append_pair xs ys)

  pub any-pair :
      (p : Text → Bool) (ss : List Source)
      → any (λ s. p s.url) ss ≡ any (λ q. p q.0) (map pair_of ss)
  any-pair p [] = refl
  any-pair p (s ∷ ss) = ap (λ b. p s.url || b) (any-pair p ss)

  pub id-url : (s : Source) → IsStored net s → s.id ≡ s.url
  id-url s h = ap (λ (x : Source). x.id) (h.0) ∙ unfold source_of in refl

  pub any-id :
      (id : Text) (ss : List Source)
      → All (IsStored net) ss
      → any (λ s. text_eq s.id id) ss ≡ is_listed net id (map pair_of ss)
  unfolding is_listed
  any-id id [] h = refl
  any-id id (s ∷ ss) (hs, h) =
      ap (λ x. text_eq x id || any (λ t. text_eq t.id id) ss) (id-url s hs)
      ∙ ap (λ b. text_eq s.url id || b) (any-id id ss h)

  pub filter-id :
      (id : Text) (ss : List Source)
      → All (IsStored net) ss
      → map pair_of (filter (λ s. not (text_eq s.id id)) ss)
        ≡ filter (λ p. not (text_eq p.0 id)) (map pair_of ss)
  filter-id id [] h = refl
  filter-id id (s ∷ ss) (hs, h) =
      ap
        (λ x. map pair_of (
          if not (text_eq x id)
          then s ∷ filter (λ t. not (text_eq t.id id)) ss
          else filter (λ t. not (text_eq t.id id)) ss))
        (id-url s hs)
      ∙ go (not (text_eq s.url id)) (filter-id id ss h)
    where
      kept : List Source
      kept = filter (λ t. not (text_eq t.id id)) ss

      go :
          (b : Bool)
          → map pair_of kept ≡ filter (λ p. not (text_eq p.0 id)) (map pair_of ss)
          → map pair_of (if b then s ∷ kept else kept) ≡ (
              if b
              then pair_of s ∷ filter (λ p. not (text_eq p.0 id)) (map pair_of ss)
              else filter (λ p. not (text_eq p.0 id)) (map pair_of ss))
      go true ih = ap (λ r. pair_of s ∷ r) ih
      go false ih = ih

  pub set_first-pair :
      (id : Text) (enabled : Bool) (ss : List Source)
      → All (IsStored net) ss
      → (map pair_of (set_first net id enabled ss) ≡ switch_first net id enabled (map pair_of ss))
        × All (IsStored net) (set_first net id enabled ss)
  unfolding set_first switch_first
  set_first-pair id enabled [] h = (refl, tt)
  set_first-pair id enabled (s ∷ ss) ((same, e, t), h) =
      let here = id-url s (same, e, t) in
      let rec = set_first-pair id enabled ss h in
      subst
        (λ x.
          (map pair_of (
              if text_eq x id
              then record s { enabled = enabled } ∷ ss
              else s ∷ set_first net id enabled ss)
            ≡ (if text_eq s.url id
                then (s.url, enabled) ∷ map pair_of ss
                else pair_of s ∷ switch_first net id enabled (map pair_of ss)))
          × All (IsStored net) (
              if text_eq x id
              then record s { enabled = enabled } ∷ ss
              else s ∷ set_first net id enabled ss))
        (sym here) (go (text_eq s.url id) rec)
    where
      go :
          (b : Bool)
          → (map pair_of (set_first net id enabled ss)
              ≡ switch_first net id enabled (map pair_of ss))
            × All (IsStored net) (set_first net id enabled ss)
          → (map pair_of
                (if b then record s { enabled = enabled } ∷ ss else s ∷ set_first net id enabled ss)
              ≡ (if b
                  then (s.url, enabled) ∷ map pair_of ss
                  else pair_of s ∷ switch_first net id enabled (map pair_of ss)))
            × All
                (IsStored net)
                (if b then record s { enabled = enabled } ∷ ss else s ∷ set_first net id enabled ss)
      go true (r, a) = (
        refl,
        (
          (
            ap (λ (x : Source). record x { enabled = enabled }) same ∙ unfold source_of in refl,
            e,
            t,
          ),
          h,
        ),
      )
      go false (r, a) = (ap (λ x. pair_of s ∷ x) r, ((same, e, t), a))
