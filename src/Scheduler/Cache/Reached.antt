-- ===== src/Scheduler/Cache/Reached.antt =====
-- The caches that calls of `setCache` and `cachedNodes` lead to.
use sub_manager_vpn.Scheduler.Cache.Sizes.{
  IsDistinct-remove_first, total-delete, IsDistinct-concat, total-insert, one_of-remove_first,
  total, count_at,
}
use sub_manager_vpn.Scheduler.Cache.Bounded.{
  IsLast-concat, evict-Evicted, is_cached-insert, is_cached, IsConsistent,
}
use sub_manager_vpn.Base.Map.{
  lookup_or, IsDistinct-insert, lookup-insert, insert, lookup, keys, Map,
}
use sub_manager_vpn.Node.{Node}
use sub_manager_vpn.Scheduler.Cache.{
  touch, empty_cache, cached_nodes, evict, remove_first, ParseCache, set_cache,
}
use sub_manager_vpn.Base.{
  text_eq_iff, length-append, if◌then◌else◌, inr, Bool, true, inl, ap, refl, none, Option, sym,
  text_eq_refl, ◌∙◌, text_eq_sym, some, length, false, ◌+◌, ◌⊎◌, arith, ◌≤◌, ◌≡◌, text_eq, ◌-◌,
  ◌||◌, [], ◌∷◌, IsDistinct, ◌++◌, List, ℕ, one_of, Text,
}

total_replaced :
    (url : Text) (nodes : List Node) (m : Map (List Node)) (lru : List Text) (size : ℕ)
    → IsConsistent (record { entries = m; lru = lru; size = size })
    → size - count_at url m + length nodes ≡ total (insert url nodes m)
total_replaced url nodes m lru size h =
    omega (
      arith,
      h.counted,
      total-insert url nodes m h.keys_distinct,
      total-delete url m h.keys_distinct,
    )

-- A source goes to the end of the order of use.
one_of-moved :
    (url k : Text) (lru : List Text) → one_of (lru ++ url ∷ []) k ≡ (one_of lru k || text_eq url k)
unfolding one_of
one_of-moved url k [] = ground (arith, text_eq_sym k url)
one_of-moved url k (u ∷ lru) = ground (arith, one_of-moved url k lru)

moved-IsConsistent :
    (url : Text) (nodes : List Node) (m : Map (List Node)) (lru : List Text) (size : ℕ)
    → IsDistinct (keys m)
    → size ≡ total (insert url nodes m)
    → IsDistinct lru
    → one_of lru url ≡ false
    → ((k : Text) → (is_cached k m || text_eq url k) ≡ (one_of lru k || text_eq url k))
    → IsConsistent (record { entries = insert url nodes m; lru = lru ++ url ∷ []; size = size })
moved-IsConsistent url nodes m lru size d t a e l = record {
  lru_distinct = IsDistinct-concat url lru a e;
  keys_distinct = IsDistinct-insert url nodes m d;
  counted = t;
  listed = λ k. is_cached-insert url k nodes m ∙ (l k ∙ sym (one_of-moved url k lru));
}

one_of-first_removed :
    (url k : Text) (lru : List Text)
    → IsDistinct lru
    → (one_of (remove_first url lru) k || text_eq url k) ≡ (one_of lru k || text_eq url k)
one_of-first_removed url k lru d = ground (arith, one_of-remove_first url k lru d)

count_none : (k : Text) (m : Map (List Node)) → lookup k m ≡ none → count_at k m ≡ 0
unfolding count_at lookup_or
count_none k m e = ap (λ o. length (elim o [ none ↦ [] | some v ↦ v ])) e

count_some :
    (k : Text) (v : List Node) (m : Map (List Node)) → lookup k m ≡ some v → count_at k m ≡ length v
unfolding count_at lookup_or
count_some k v m e = ap (λ o. length (elim o [ none ↦ [] | some v ↦ v ])) e

not_cached : (k : Text) (m : Map (List Node)) → lookup k m ≡ none → is_cached k m ≡ false
unfolding is_cached
not_cached k m e = ap (λ o. elim o [ none ↦ false | some v ↦ true ]) e

first_removed-missing :
    (url : Text) (lru : List Text) → IsDistinct lru → one_of (remove_first url lru) url ≡ false
first_removed-missing url lru d =
    one_of-remove_first url url lru d ∙ rw (text_eq_refl url) (ground arith)

-- What a call of `setCache` gives.
abbrev Kept : ℕ → Text → List Node → ParseCache → Type 0
Kept limit url nodes c =
    IsConsistent c × ((c.size ≤ limit) ⊎ (length c.lru ≡ 1)) × (lookup url c.entries ≡ some nodes)

set_cache-Kept :
    (limit : ℕ) (url : Text) (nodes : List Node) (c : ParseCache)
    → IsConsistent c
    → Kept limit url nodes (set_cache limit url nodes c)
unfolding set_cache
set_cache-Kept limit url nodes c h = go (lookup url c.entries) refl
  where
    replaced : c.size - count_at url c.entries + length nodes ≡ total (insert url nodes c.entries)
    replaced = total_replaced url nodes c.entries c.lru c.size h

    found : lookup url (insert url nodes c.entries) ≡ some nodes
    found = lookup-insert url url nodes c.entries ∙ rw (text_eq_refl url) refl

    finish :
        (size : ℕ) (lru : List Text)
        → IsConsistent (record {
          entries = insert url nodes c.entries;
          lru = lru ++ url ∷ [];
          size = size + length nodes;
        })
        → Kept limit url nodes
            (evict limit (lru ++ url ∷ []) (insert url nodes c.entries) (size + length nodes))
    finish size lru k =
        let r = evict-Evicted limit url _ _ _ (IsLast-concat url lru) k in (r.0, r.1, r.2 ∙ found)

    go :
        (o : Option (List Node))
        → lookup url c.entries ≡ o
        → Kept limit url nodes (
            evict limit
              ((elim o [ none ↦ c.lru | some v ↦ remove_first url c.lru ]) ++ url ∷ [])
              (insert url nodes c.entries)
              ((elim o [ none ↦ c.size | some v ↦ c.size - length v ]) + length nodes))
    go none e = finish c.size c.lru (
        moved-IsConsistent url nodes c.entries c.lru (c.size + length nodes) h.keys_distinct
          (omega (arith, replaced, count_none url c.entries e)) h.lru_distinct
          (sym (h.listed url) ∙ not_cached url c.entries e)
          (λ k. ap (λ b. b || text_eq url k) (h.listed k)))
    go (some v) e = finish (c.size - length v) (remove_first url c.lru) (
        moved-IsConsistent url nodes c.entries (remove_first url c.lru)
          (c.size - length v + length nodes) h.keys_distinct
          (ap (λ n. c.size - n + length nodes) (sym (count_some url v c.entries e)) ∙ replaced)
          (IsDistinct-remove_first url c.lru h.lru_distinct)
          (first_removed-missing url c.lru h.lru_distinct)
          (λ k.
            ap (λ b. b || text_eq url k) (h.listed k)
            ∙ sym (one_of-first_removed url k c.lru h.lru_distinct)))

length-first_removed :
    (url : Text) (lru : List Text)
    → one_of lru url ≡ true
    → length (remove_first url lru) + 1 ≡ length lru
unfolding remove_first one_of
length-first_removed url [] h = ground arith
length-first_removed url (u ∷ lru) h =
    ground (arith, text_eq_sym url u, length-first_removed url lru)

length-touch : (url : Text) (lru : List Text) → length (touch url lru) ≡ length lru
unfolding touch
length-touch url lru = go (one_of lru url) refl
  where
    go :
        (b : Bool)
        → one_of lru url ≡ b
        → length (if b then remove_first url lru ++ url ∷ [] else lru) ≡ length lru
    go true e = length-append (remove_first url lru) (url ∷ []) ∙ length-first_removed url lru e
    go false e = refl

touch-IsConsistent :
    (url : Text) (c : ParseCache)
    → IsConsistent c
    → IsConsistent (record c { lru = touch url c.lru })
unfolding touch
touch-IsConsistent url c h = go (one_of c.lru url) refl
  where
    go :
        (b : Bool)
        → one_of c.lru url ≡ b
        → IsConsistent (record c { lru = if b then remove_first url c.lru ++ url ∷ [] else c.lru })
    go false e = h
    go true e = record {
      lru_distinct =
          IsDistinct-concat url (remove_first url c.lru)
            (IsDistinct-remove_first url c.lru h.lru_distinct)
            (first_removed-missing url c.lru h.lru_distinct);
      keys_distinct = h.keys_distinct;
      counted = h.counted;
      listed = λ k. h.listed k ∙ sym (same k);
    }
      where
        same : (k : Text) → one_of (remove_first url c.lru ++ url ∷ []) k ≡ one_of c.lru k
        same k = ground (
          arith,
          one_of-moved url k (remove_first url c.lru),
          one_of-first_removed url k c.lru h.lru_distinct,
          text_eq_iff url k,
          e,
        )

-- The caches that the calls of the scheduler lead to
pub data Reached (limit : ℕ) : ParseCache → Type 0 where
  started : Reached limit empty_cache
  got : (url : Text) (c : ParseCache) → Reached limit c → Reached limit (cached_nodes url c).1
  put :
      (url : Text) (nodes : List Node) (c : ParseCache)
      → Reached limit c
      → Reached limit (set_cache limit url nodes c)

abbrev pub IsWithin : ℕ → ParseCache → Type 0
IsWithin limit c = (c.size ≤ limit) ⊎ (length c.lru ≡ 1)

got-IsConsistent :
    (limit : ℕ) (url : Text) (c : ParseCache)
    → IsConsistent c × IsWithin limit c
    → IsConsistent (cached_nodes url c).1 × IsWithin limit (cached_nodes url c).1
unfolding cached_nodes
got-IsConsistent limit url c (h, w) = go (lookup url c.entries)
  where
    out : Option (List Node) → Option (List Node) × ParseCache
    out o = elim o [
      | none ↦ (none, c)
      | some nodes ↦ (some nodes, record c { lru = touch url c.lru })
    ]

    kept : IsWithin limit c → IsWithin limit (record c { lru = touch url c.lru })
    kept (inl e) = inl e
    kept (inr e) = inr (length-touch url c.lru ∙ e)

    go : (o : Option (List Node)) → IsConsistent (out o).1 × IsWithin limit (out o).1
    go none = (h, w)
    go (some nodes) = (touch-IsConsistent url c h, kept w)

empty_cache-IsConsistent : IsConsistent empty_cache
empty_cache-IsConsistent = record {
  lru_distinct = tt;
  keys_distinct = unfold keys in tt;
  counted = unfold total in refl;
  listed = λ k. unfold is_cached lookup one_of in refl;
}

-- After any calls of the cache, its order of use has each cached source once, its size is the number of
-- all cached nodes, and that is at most the limit unless a single source is left.
pub Reached-IsConsistent :
    (limit : ℕ) (c : ParseCache) → Reached limit c → IsConsistent c × IsWithin limit c
Reached-IsConsistent limit c started = (empty_cache-IsConsistent, inl (ground arith))
Reached-IsConsistent limit c (got url d r) =
    got-IsConsistent limit url d (Reached-IsConsistent limit d r)
Reached-IsConsistent limit c (put url nodes d r) =
    let k = set_cache-Kept limit url nodes d (Reached-IsConsistent limit d r).0 in (k.0, k.1)
