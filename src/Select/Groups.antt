-- ===== src/Select/Groups.antt =====
-- What `Select` and `capPerCountry` return for each country.
use sub_manager_vpn.Base.Int.{pos, ℤ}
use mathlib.Core.Path.{subst}
use sub_manager_vpn.Base.Sort.Laws.{All-insert_sorted, All-stable_sort}
use sub_manager_vpn.Base.Sort.{insert_sorted, stable_sort}
use sub_manager_vpn.Base.Map.{
  lookup_missing, lookup, lookup_or-insert, insert, IsDistinct-insert, keys, lookup_or, Map,
}
use sub_manager_vpn.Base.{
  leb, zero, suc, ◌<◌, text_less, ◌||◌, ltb→lt, ◌∙◌, arith, true, text_eq_sym, take_all,
  append_assoc, sym, refl, length, append-nil, text_eq_iff, one_of, ltb, ap, [], ◌∷◌, if◌then◌else◌,
  filter-append, false, IsDistinct, All-take, All-filter_of, ◌≡◌, text_eq, take, filter, Bool, All,
  ◌++◌, ℕ, Text, List,
}
use sub_manager_vpn.Select.Defs.{
  faster_or_known, faster, clamp_top_n, select, cap_per_country, pick, by_country, Candidate,
}

-- The candidates of one country, in their order.
unfoldable pub group : Text → List Candidate → List Candidate
group k cands = filter (λ c. text_eq c.country k) cands

abbrev pub InCountry : Text → Candidate → Type 0
InCountry k c = c.country ≡ k

group-InCountry : (k : Text) (cs : List Candidate) → All (InCountry k) cs → group k cs ≡ cs
unfolding group
group-InCountry k [] h = refl
group-InCountry k (c ∷ cs) (hc, h) =
    rw ((text_eq_iff c.country k).1 hc) (ap (λ r. c ∷ r) (group-InCountry k cs h))

group_other :
    (j k : Text) (cs : List Candidate)
    → text_eq j k ≡ false
    → All (InCountry j) cs
    → group k cs ≡ []
unfolding group
group_other j k [] e h = refl
group_other j k (c ∷ cs) e (hc, h) = rw (hc, e) (group_other j k cs e h)

pub group-append :
    (k : Text) (xs ys : List Candidate) → group k (xs ++ ys) ≡ group k xs ++ group k ys
unfolding group
group-append k xs ys = filter-append _ xs ys

pub All-group : (k : Text) (cs : List Candidate) → All (InCountry k) (group k cs)
unfolding group
All-group k cs = All-filter_of (InCountry k) _ (λ c h. (text_eq_iff c.country k).0 h) cs

lookup-by_country :
    (k : Text) (m : Map (List Candidate)) (cs : List Candidate)
    → lookup_or [] k (by_country m cs) ≡ lookup_or [] k m ++ group k cs
unfolding by_country group
lookup-by_country k m [] = sym (append-nil _)
lookup-by_country k m (c ∷ cs) =
    let old = lookup_or [] c.country m ++ c ∷ [] in
    lookup-by_country k (insert c.country old m) cs
    ∙ rw lookup_or-insert (go (text_eq c.country k) refl)
  where
    go :
        (b : Bool)
        → text_eq c.country k ≡ b
        → (if b then lookup_or [] c.country m ++ c ∷ [] else lookup_or [] k m) ++ group k cs
          ≡ lookup_or [] k m ++ (if b then c ∷ group k cs else group k cs)
    go true e =
        ap (λ (t : Text). (lookup_or [] t m ++ c ∷ []) ++ group k cs)
          ((text_eq_iff c.country k).0 e)
        ∙ append_assoc (lookup_or [] k m) (c ∷ []) (group k cs)
    go false e = refl

IsDistinct-by_country :
    (m : Map (List Candidate)) (cs : List Candidate)
    → IsDistinct (keys m)
    → IsDistinct (keys (by_country m cs))
unfolding by_country
IsDistinct-by_country m [] h = h
IsDistinct-by_country m (c ∷ cs) h =
    IsDistinct-by_country (insert c.country (lookup_or [] c.country m ++ c ∷ []) m) cs
      (IsDistinct-insert c.country _ m h)

-- The group of one country in a table that groups every candidate under its own country.
abbrev Table : List Candidate → Map (List Candidate) → Type 0
Table cands m = (k : Text) → lookup_or [] k m ≡ group k cands

best : (Candidate → Candidate → Bool) → ℕ → Text → List Candidate → List Candidate
best less n k cands = take n (stable_sort less (group k cands))

take_limit :
    (n : ℕ) (xs : List Candidate) → take (if ltb (length xs) n then length xs else n) xs ≡ take n xs
take_limit n xs = go (ltb (length xs) n) refl
  where
    go : (b : Bool) → ltb (length xs) n ≡ b → take (if b then length xs else n) xs ≡ take n xs
    go true e =
        take_all (length xs) xs (omega arith)
        ∙ sym (take_all n xs (omega (arith, ltb→lt (length xs) n e)))
    go false e = refl

module _ (less : Candidate → Candidate → Bool) (n : ℕ) (cands : List Candidate) where
  best-InCountry : (k : Text) → All (InCountry k) (best less n k cands)
  unfolding best
  best-InCountry k =
      All-take _ n _ (All-stable_sort less (InCountry k) (group k cands) (All-group k cands))

  module _ (m : Map (List Candidate)) (table : Table cands m) where
    pick-best :
        (j : Text) (ks : List Text)
        → pick less n m (j ∷ ks) ≡ best less n j cands ++ pick less n m ks
    unfolding pick best
    pick-best j ks =
        rw (table j)
          (ap (λ r. r ++ pick less n m ks) (take_limit n (stable_sort less (group j cands))))

    -- A country that is not on the list gets nothing.
    group-pick_none :
        (k : Text) (ks : List Text)
        → All (λ j. text_eq k j ≡ false) ks
        → group k (pick less n m ks) ≡ []
    group-pick_none k [] h = unfold pick group in refl
    group-pick_none k (j ∷ ks) (hj, h) =
        rw (pick-best j ks, group-append k _ _, group-pick_none k ks h, append-nil)
          (group_other j k _ (text_eq_sym j k ∙ hj) (best-InCountry j))

    group-pick_self :
        (j : Text) (ks : List Text)
        → All (λ i. text_eq j i ≡ false) ks
        → group j (pick less n m (j ∷ ks)) ≡ best less n j cands
    group-pick_self j ks h =
        rw (pick-best j ks, group-append j _ _, group-pick_none j ks h, append-nil)
          (group-InCountry j _ (best-InCountry j))

    group-pick :
        (k : Text) (ks : List Text)
        → IsDistinct ks
        → group k (pick less n m ks) ≡ (if one_of ks k then best less n k cands else [])
    unfolding one_of
    group-pick k [] h = unfold pick group in refl
    group-pick k (j ∷ ks) (hj, h) = go (text_eq k j) refl (group-pick k ks h)
      where
        go :
            (b : Bool)
            → text_eq k j ≡ b
            → group k (pick less n m ks) ≡ (if one_of ks k then best less n k cands else [])
            → group k (pick less n m (j ∷ ks))
              ≡ (if b || one_of ks k then best less n k cands else [])
        go true e ih =
            subst (λ (t : Text). group t (pick less n m (j ∷ ks)) ≡ best less n t cands)
              (sym ((text_eq_iff k j).0 e)) (group-pick_self j ks hj)
        go false e ih =
            rw (pick-best j ks, group-append k _ _)
              (ap (λ r. r ++ group k (pick less n m ks))
                  (group_other j k _ (text_eq_sym j k ∙ e) (best-InCountry j))
                ∙ ih)

one_of-insert_sorted :
    (k x : Text) (ys : List Text) → one_of (insert_sorted text_less x ys) k ≡ one_of (x ∷ ys) k
unfolding insert_sorted one_of
one_of-insert_sorted k x [] = refl
one_of-insert_sorted k x (y ∷ ys) = ground (arith, one_of-insert_sorted k x ys)

one_of-stable_sort : (k : Text) (ks : List Text) → one_of (stable_sort text_less ks) k ≡ one_of ks k
unfolding stable_sort one_of
one_of-stable_sort k [] = refl
one_of-stable_sort k (x ∷ ks) =
    one_of-insert_sorted k x (stable_sort text_less ks)
    ∙ ap (λ b. text_eq k x || b) (one_of-stable_sort k ks)

IsDistinct-insert_sorted :
    (x : Text) (ys : List Text)
    → All (λ j. text_eq x j ≡ false) ys
    → IsDistinct ys
    → IsDistinct (insert_sorted text_less x ys)
unfolding insert_sorted
IsDistinct-insert_sorted x [] hx h = (tt, tt)
IsDistinct-insert_sorted x (y ∷ ys) (hxy, hx) (hy, h) =
    go (text_less y x) (IsDistinct-insert_sorted x ys hx h)
  where
    go :
        (b : Bool)
        → IsDistinct (insert_sorted text_less x ys)
        → IsDistinct (if b then y ∷ insert_sorted text_less x ys else x ∷ y ∷ ys)
    go true r =
        (All-insert_sorted text_less (λ j. text_eq y j ≡ false) x ys (text_eq_sym y x ∙ hxy) hy, r)
    go false r = ((hxy, hx), (hy, h))

IsDistinct-stable_sort : (ks : List Text) → IsDistinct ks → IsDistinct (stable_sort text_less ks)
unfolding stable_sort
IsDistinct-stable_sort [] h = tt
IsDistinct-stable_sort (k ∷ ks) (hk, h) =
    IsDistinct-insert_sorted k _ (All-stable_sort text_less (λ j. text_eq k j ≡ false) ks hk)
      (IsDistinct-stable_sort ks h)

by_country-Table : (cands : List Candidate) → Table cands (by_country [] cands)
unfolding lookup_or lookup
by_country-Table cands k = lookup-by_country k [] cands

-- The best of a country whose key is missing from the table: there are none.
best_missing :
    (less : Candidate → Candidate → Bool) (n : ℕ) (k : Text) (cands : List Candidate)
    (ks : List Text)
    → one_of ks k ≡ one_of (keys (by_country [] cands)) k
    → (if one_of ks k then best less n k cands else []) ≡ best less n k cands
unfolding lookup_or
best_missing less n k cands ks same = go (one_of ks k) refl
  where
    missing : one_of (keys (by_country [] cands)) k ≡ false → group k cands ≡ []
    missing e = sym (by_country-Table cands k) ∙ rw (lookup_missing k _ e, lookup_or)

    nothing : (n : ℕ) → take n (stable_sort less []) ≡ []
    nothing zero = refl
    nothing (suc n) = unfold stable_sort in refl

    go :
        (b : Bool) → one_of ks k ≡ b → (if b then best less n k cands else []) ≡ best less n k cands
    go true e = refl
    go false e = unfold best in rw (missing (sym same ∙ e)) (sym (nothing n))

-- Of each country `Select` returns the first `clamp_top_n` of its candidates by latency, and of
-- candidates with one latency those that came first.
pub group-select :
    (cands : List Candidate) (top_n : ℤ) (k : Text)
    → group k (select cands top_n) ≡ take (clamp_top_n top_n) (stable_sort faster (group k cands))
unfolding select best
group-select cands top_n k =
    let ks = keys (by_country [] cands) in
    group-pick faster (clamp_top_n top_n) cands (by_country [] cands) (by_country-Table cands) k
      (stable_sort text_less ks)
      (IsDistinct-stable_sort ks (IsDistinct-by_country [] cands (unfold keys in tt)))
    ∙ best_missing faster (clamp_top_n top_n) k cands (stable_sort text_less ks)
        (one_of-stable_sort k ks)

-- With a positive bound `capPerCountry` returns of each country the first so many of its
-- candidates, those with a measured latency first.
pub group-cap_per_country :
    (cands : List Candidate) (n : ℕ) (k : Text)
    → 0 < n
    → group k (cap_per_country cands (pos n)) ≡ take n (stable_sort faster_or_known (group k cands))
unfolding cap_per_country best
group-cap_per_country cands n k h =
    let ks = keys (by_country [] cands) in
    let positive : leb n 0 ≡ false = ground arith in
    rw positive (
      group-pick faster_or_known n cands (by_country [] cands) (by_country-Table cands) k ks
        (IsDistinct-by_country [] cands (unfold keys in tt))
      ∙ best_missing faster_or_known n k cands ks refl)
