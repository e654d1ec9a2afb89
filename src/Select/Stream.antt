-- ===== src/Select/Stream.antt =====
-- The scheduler streams the alive candidates through `addToTopK`, and keeps a bounded table.
use mathlib.Core.Path.{subst}
use sub_manager_vpn.Base.Sort.{stable_sort}
use sub_manager_vpn.Base.{
  false, true, ltb_false→le, take_all, text_eq_iff, sym, refl, length-take, append_assoc, ◌∙◌, zero,
  ◌≤◌, text_eq, suc, ltb, append-nil, ap, Bool, ◌∷◌, ◌≡◌, take, length, if◌then◌else◌, [], ◌++◌,
  arith, Text, List, ℕ,
}
use sub_manager_vpn.Base.Map.{lookup_or-insert, lookup, Map, lookup_or}
use sub_manager_vpn.Select.Groups.{group-append, group}
use sub_manager_vpn.Select.Defs.{Candidate, faster, add_to_top_k}
use sub_manager_vpn.Base.Sort.Laws.{
  take-insert_right, stable_sort-IsSorted, insert_right, stable_sort-append, length-stable_sort,
  IsSorted-take, stable_sort_sorted, IsOrder,
}

pub faster-IsOrder : IsOrder faster
faster-IsOrder = record { asym = λ a b h. ground arith; neg_trans = λ a b c h k. ground arith }

-- The loop of `Cycle` over the alive results.
unfoldable pub stream : ℕ → Map (List Candidate) → List Candidate → Map (List Candidate)
stream top_n top_k [] = top_k
stream top_n top_k (c ∷ cs) = stream top_n (add_to_top_k top_n c top_k) cs

-- `grp` holds, sorted or not, the best `n` of `seen`.
abbrev IsBest : ℕ → List Candidate → List Candidate → Type 0
IsBest n grp seen = stable_sort faster grp ≡ take n (stable_sort faster seen)

take-stable_sort :
    (n : ℕ) (xs : List Candidate)
    → stable_sort faster (take n (stable_sort faster xs)) ≡ take n (stable_sort faster xs)
take-stable_sort n xs =
    stable_sort_sorted faster _
      (IsSorted-take faster n _ (stable_sort-IsSorted faster faster-IsOrder xs))

IsBest-append :
    (n : ℕ) (grp seen : List Candidate) (c : Candidate)
    → IsBest n grp seen
    → take n (stable_sort faster (grp ++ c ∷ [])) ≡ take n (stable_sort faster (seen ++ c ∷ []))
IsBest-append n grp seen c h =
    let order = faster-IsOrder in
    ap (take n) (stable_sort-append faster order grp c ∙ ap (insert_right faster c) h)
    ∙ take-insert_right faster n c (stable_sort faster seen)
    ∙ sym (ap (take n) (stable_sort-append faster order seen c))

IsBest-step :
    (n : ℕ) (grp seen : List Candidate) (c : Candidate)
    → IsBest n grp seen
    → IsBest n
        (if ltb n (length (grp ++ c ∷ []))
          then take n (stable_sort faster (grp ++ c ∷ []))
          else grp ++ c ∷ [])
        (seen ++ c ∷ [])
IsBest-step n grp seen c h = go (ltb n (length (grp ++ c ∷ []))) refl
  where
    all : List Candidate
    all = grp ++ c ∷ []

    go :
        (b : Bool)
        → ltb n (length all) ≡ b
        → IsBest n (if b then take n (stable_sort faster all) else all) (seen ++ c ∷ [])
    go true e = take-stable_sort n all ∙ IsBest-append n grp seen c h
    go false e =
        sym (
          take_all n (stable_sort faster all)
            (omega (arith, length-stable_sort faster all, ltb_false→le n (length all) e)))
        ∙ IsBest-append n grp seen c h

-- For every country at once.
abbrev IsTopK : ℕ → Map (List Candidate) → List Candidate → Type 0
IsTopK n top_k seen = (k : Text) → IsBest n (lookup_or [] k top_k) (group k seen)

group-snoc :
    (k : Text) (seen : List Candidate) (c : Candidate)
    → group k (seen ++ c ∷ [])
      ≡ (if text_eq c.country k then group k seen ++ c ∷ [] else group k seen)
unfolding group
group-snoc k seen c = group-append k seen (c ∷ []) ∙ ground (arith, append-nil (group k seen))

IsTopK-step :
    (n : ℕ) (top_k : Map (List Candidate)) (seen : List Candidate) (c : Candidate)
    → IsTopK n top_k seen
    → IsTopK n (add_to_top_k n c top_k) (seen ++ c ∷ [])
unfolding add_to_top_k
IsTopK-step n top_k seen c h k = rw (lookup_or-insert, group-snoc) (go (text_eq c.country k) refl)
  where
    grp : List Candidate
    grp = lookup_or [] c.country top_k ++ c ∷ []

    go :
        (b : Bool)
        → text_eq c.country k ≡ b
        → IsBest n
            (if b
              then if ltb n (length grp) then take n (stable_sort faster grp) else grp
              else lookup_or [] k top_k)
            (if b then group k seen ++ c ∷ [] else group k seen)
    go true e =
        subst
          (λ (t : Text).
            IsBest n (if ltb n (length grp) then take n (stable_sort faster grp) else grp)
              (group t seen ++ c ∷ []))
          ((text_eq_iff c.country k).0 e)
          (IsBest-step n (lookup_or [] c.country top_k) (group c.country seen) c (h c.country))
    go false e = h k

stream-IsTopK :
    (n : ℕ) (top_k : Map (List Candidate)) (seen cs : List Candidate)
    → IsTopK n top_k seen
    → IsTopK n (stream n top_k cs) (seen ++ cs)
unfolding stream
stream-IsTopK n top_k seen [] h = rw append-nil h
stream-IsTopK n top_k seen (c ∷ cs) h =
    subst (IsTopK n (stream n (add_to_top_k n c top_k) cs)) (append_assoc seen (c ∷ []) cs)
      (stream-IsTopK n (add_to_top_k n c top_k) (seen ++ c ∷ []) cs (IsTopK-step n top_k seen c h))

nil-IsTopK : (n : ℕ) → IsTopK n [] []
unfolding lookup_or lookup group stable_sort
nil-IsTopK zero k = refl
nil-IsTopK (suc n) k = refl

-- Streaming the candidates one by one, with never more than `n` kept of a country, ends with the
-- best `n` of each country that a sort of all its candidates would give, ties by arrival.
pub stream_exact :
    (n : ℕ) (cs : List Candidate) (k : Text)
    → stable_sort faster (lookup_or [] k (stream n [] cs))
      ≡ take n (stable_sort faster (group k cs))
stream_exact n cs = stream-IsTopK n [] [] cs (nil-IsTopK n)

abbrev pub IsBounded : ℕ → Map (List Candidate) → Type 0
IsBounded n top_k = (k : Text) → length (lookup_or [] k top_k) ≤ n

-- The table never holds more than `n` of a country, after whatever candidates.
pub stream-IsBounded : (n : ℕ) (cs : List Candidate) → IsBounded n (stream n [] cs)
stream-IsBounded n cs k =
    let e = ap length (stream_exact n cs k) in
    omega (
      arith,
      e,
      length-stable_sort faster (lookup_or [] k (stream n [] cs)),
      length-take n (stable_sort faster (group k cs)),
    )
