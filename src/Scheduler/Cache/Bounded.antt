-- ===== src/Scheduler/Cache/Bounded.antt =====
-- What the evictions of `setCache` do to a consistent cache.
use sub_manager_vpn.Scheduler.Cache.Sizes.{count_at_lem, total-delete, IsDistinct-delete, total}
use sub_manager_vpn.Node.{Node}
use sub_manager_vpn.Base.Map.{
  lookup_or, lookup-insert, lookup-delete, lookup, insert, delete, keys, Map,
}
use sub_manager_vpn.Base.{
  ltb_false→le, inl, if◌then◌else◌, ltb, sym, ap, ◌∙◌, text_eq_sym, text_eq_iff, some, not, none,
  length, arith, ◌⊎◌, ◌||◌, text_eq_refl, refl, false, ◌-◌, ◌&&◌, ◌≤◌, true, text_eq, inr, [], Bool,
  ◌∷◌, ◌≡◌, All, ◌++◌, List, IsDistinct, ℕ, one_of, Text,
}
use sub_manager_vpn.Scheduler.Cache.{evict, ParseCache}

unfoldable pub is_cached : Text → Map (List Node) → Bool
is_cached k m = elim (lookup k m) [ none ↦ false | some nodes ↦ true ]

-- No source stands twice, the size is the number of all nodes, and the order of use has exactly the
-- cached sources.
pub record IsConsistent (c : ParseCache) : Type 0 where
  pub lru_distinct : IsDistinct c.lru
  pub keys_distinct : IsDistinct (keys c.entries)
  pub counted : c.size ≡ total c.entries
  pub listed : (k : Text) → is_cached k c.entries ≡ one_of c.lru k

-- The source stands last.
abbrev pub IsLast : Text → List Text → Type 0
IsLast url [] = ⊥
IsLast url (u ∷ []) = u ≡ url
IsLast url (u ∷ v ∷ lru) = IsLast url (v ∷ lru)

pub IsLast-concat : (url : Text) (lru : List Text) → IsLast url (lru ++ url ∷ [])
IsLast-concat url [] = refl
IsLast-concat url (u ∷ []) = refl
IsLast-concat url (u ∷ v ∷ lru) = IsLast-concat url (v ∷ lru)

one_of-IsLast : (url : Text) (lru : List Text) → IsLast url lru → one_of lru url ≡ true
unfolding one_of
one_of-IsLast url [] h = absurd h
one_of-IsLast url (u ∷ []) h = rw (h, text_eq_refl url) refl
one_of-IsLast url (u ∷ v ∷ lru) h = ground (arith, one_of-IsLast url (v ∷ lru) h)

missing_of_apart :
    (j : Text) (l : List Text) → All (λ i. text_eq j i ≡ false) l → one_of l j ≡ false
unfolding one_of
missing_of_apart j [] a = refl
missing_of_apart j (i ∷ l) (ai, a) = rw ai (missing_of_apart j l a)

is_cached-delete :
    (u k : Text) (m : Map (List Node))
    → is_cached k (delete u m) ≡ (is_cached k m && not (text_eq u k))
unfolding is_cached
is_cached-delete u k m = ground (arith, lookup-delete u k m)

pub is_cached-insert :
    (u k : Text) (nodes : List Node) (m : Map (List Node))
    → is_cached k (insert u nodes m) ≡ (is_cached k m || text_eq u k)
unfolding is_cached
is_cached-insert u k nodes m = ground (arith, lookup-insert u k nodes m)

-- What `evict` makes of a consistent cache with a source at its end.
abbrev pub Evicted : ℕ → Text → Map (List Node) → ParseCache → Type 0
Evicted limit url m c =
    IsConsistent c × ((c.size ≤ limit) ⊎ (length c.lru ≡ 1)) × (lookup url c.entries ≡ lookup url m)

one_of-tail :
    (u k : Text) (lru : List Text)
    → All (λ i. text_eq u i ≡ false) lru
    → one_of lru k ≡ (one_of (u ∷ lru) k && not (text_eq u k))
unfolding one_of
one_of-tail u k lru a = ground (arith, text_eq_iff u k, text_eq_sym k u, missing_of_apart u lru a)

next-IsConsistent :
    (u : Text) (lru : List Text) (m : Map (List Node)) (size : ℕ)
    → IsConsistent (record { entries = m; lru = u ∷ lru; size = size })
    → IsConsistent
        (record { entries = delete u m; lru = lru; size = size - length (lookup_or [] u m) })
next-IsConsistent u lru m size h = record {
  lru_distinct = h.lru_distinct.1;
  keys_distinct = IsDistinct-delete u m h.keys_distinct;
  counted = omega (arith, h.counted, total-delete u m h.keys_distinct, count_at_lem u m);
  listed = λ k.
      is_cached-delete u k m
      ∙ (ap (λ b. b && not (text_eq u k)) (h.listed k)
          ∙ sym (one_of-tail u k lru h.lru_distinct.0));
}

pub evict-Evicted :
    (limit : ℕ) (url : Text) (lru : List Text) (m : Map (List Node)) (size : ℕ)
    → IsLast url lru
    → IsConsistent (record { entries = m; lru = lru; size = size })
    → Evicted limit url m (evict limit lru m size)
unfolding evict
evict-Evicted limit url [] m size last h = absurd last
evict-Evicted limit url (u ∷ []) m size last h = (h, inr refl, refl)
evict-Evicted limit url (u ∷ v ∷ lru) m size last h = go (ltb limit size) refl (
    evict-Evicted limit url (v ∷ lru) (delete u m) (size - length (lookup_or [] u m)) last
      (next-IsConsistent u (v ∷ lru) m size h))
  where
    other : text_eq u url ≡ false
    other = ground (
      arith,
      text_eq_iff u url,
      text_eq_sym u url,
      one_of-IsLast url (v ∷ lru) last,
      missing_of_apart u (v ∷ lru) h.lru_distinct.0,
    )

    same : lookup url (delete u m) ≡ lookup url m
    same = lookup-delete u url m ∙ rw other refl

    go :
        (b : Bool)
        → ltb limit size ≡ b
        → {c : ParseCache} → Evicted limit url (delete u m) c
        → Evicted limit url m
            (if b then c else record { entries = m; lru = u ∷ v ∷ lru; size = size })
    go true e rest = (rest.0, rest.1, rest.2 ∙ same)
    go false e rest = (h, inl (ltb_false→le _ _ e), refl)
