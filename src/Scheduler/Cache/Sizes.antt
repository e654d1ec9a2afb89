-- ===== src/Scheduler/Cache/Sizes.antt =====
-- The number of all nodes in a map from sources to nodes, and lists of sources without repetition.
use sub_manager_vpn.Node.{Node}
use sub_manager_vpn.Scheduler.Cache.{remove_first}
use sub_manager_vpn.Base.{
  text_eq_sym, ◌||◌, text_eq_iff, refl, All-append, ◌∙◌, not, [], ◌++◌, true, length, if◌then◌else◌,
  false, arith, Bool, ◌&&◌, ◌∷◌, ◌≡◌, ◌∷◌, ℕ, text_eq, ◌+◌, IsDistinct, All, List, one_of, Text,
}
use sub_manager_vpn.Base.Map.{lookup, lookup_or, keys, insert, delete, Map}

unfoldable pub total : Map (List Node) → ℕ
total [] = 0
total ((k, nodes) ∷ m) = length nodes + total m

unfoldable pub count_at : Text → Map (List Node) → ℕ
count_at k m = length (lookup_or [] k m)

pub count_at_lem : (k : Text) (m : Map (List Node)) → count_at k m ≡ length (lookup_or [] k m)
unfolding count_at
count_at_lem k m = refl

count_at-cons :
    (k j : Text) (nodes : List Node) (m : Map (List Node))
    → count_at k ((j, nodes) ∷ m) ≡ (if text_eq j k then length nodes else count_at k m)
unfolding count_at lookup_or lookup
count_at-cons k j nodes m = ground arith

count_at_missing :
    (k j : Text) (m : Map (List Node))
    → text_eq j k ≡ true
    → All (λ i. text_eq j i ≡ false) (keys m)
    → count_at k m ≡ 0
unfolding keys
count_at_missing k j [] e h = unfold count_at lookup_or lookup in refl
count_at_missing k j ((i, nodes) ∷ m) e (hi, h) =
    count_at-cons k i nodes m
    ∙ ground (arith, text_eq_iff j k, text_eq_sym i k, count_at_missing k j m e h)

pub total-insert :
    (k : Text) (nodes : List Node) (m : Map (List Node))
    → IsDistinct (keys m)
    → total (insert k nodes m) + count_at k m ≡ total m + length nodes
unfolding total insert keys
total-insert k nodes [] h = unfold count_at lookup_or lookup in omega arith
total-insert k nodes ((j, old) ∷ m) (hj, h) =
    go (text_eq j k) refl (count_at-cons k j old m) (total-insert k nodes m h)
  where
    go :
        (b : Bool)
        → text_eq j k ≡ b
        → count_at k ((j, old) ∷ m) ≡ (if b then length old else count_at k m)
        → total (insert k nodes m) + count_at k m ≡ total m + length nodes
        → total (if b then (k, nodes) ∷ m else (j, old) ∷ insert k nodes m)
            + count_at k ((j, old) ∷ m)
          ≡ length old + total m + length nodes
    go true e c ih = omega (arith, c)
    go false e c ih = omega (arith, c, ih)

pub total-delete :
    (k : Text) (m : Map (List Node))
    → IsDistinct (keys m)
    → total (delete k m) + count_at k m ≡ total m
unfolding total delete keys
total-delete k [] h = unfold count_at lookup_or lookup in omega arith
total-delete k ((j, old) ∷ m) (hj, h) =
    go (text_eq j k) refl (count_at-cons k j old m) (total-delete k m h)
  where
    go :
        (b : Bool)
        → text_eq j k ≡ b
        → count_at k ((j, old) ∷ m) ≡ (if b then length old else count_at k m)
        → total (delete k m) + count_at k m ≡ total m
        → total (if b then delete k m else (j, old) ∷ delete k m) + count_at k ((j, old) ∷ m)
          ≡ length old + total m
    go true e c ih = omega (arith, c, ih, count_at_missing k j m e hj)
    go false e c ih = omega (arith, c, ih)

-- Deleting keeps the keys different.
All-keys-delete :
    (j k : Text) (m : Map (List Node))
    → All (λ i. text_eq j i ≡ false) (keys m)
    → All (λ i. text_eq j i ≡ false) (keys (delete k m))
unfolding keys delete
All-keys-delete j k [] h = tt
All-keys-delete j k ((i, nodes) ∷ m) (hi, h) = go (text_eq i k) (All-keys-delete j k m h)
  where
    go :
        (b : Bool)
        → All (λ x. text_eq j x ≡ false) (keys (delete k m))
        → All (λ x. text_eq j x ≡ false) (keys (if b then delete k m else (i, nodes) ∷ delete k m))
    go true r = r
    go false r = (hi, r)

pub IsDistinct-delete :
    (k : Text) (m : Map (List Node)) → IsDistinct (keys m) → IsDistinct (keys (delete k m))
unfolding keys delete
IsDistinct-delete k [] h = tt
IsDistinct-delete k ((i, nodes) ∷ m) (hi, h) = go (text_eq i k) (IsDistinct-delete k m h)
  where
    go :
        (b : Bool)
        → IsDistinct (keys (delete k m))
        → IsDistinct (keys (if b then delete k m else (i, nodes) ∷ delete k m))
    go true r = r
    go false r = (All-keys-delete i k m hi, r)

-- Taking a source out of a list without repetition takes it out for good.
pub one_of-remove_first :
    (url k : Text) (lru : List Text)
    → IsDistinct lru
    → one_of (remove_first url lru) k ≡ (one_of lru k && not (text_eq url k))
unfolding remove_first one_of
one_of-remove_first url k [] h = refl
one_of-remove_first url k (u ∷ lru) (hu, h) =
    go (text_eq u url) refl (one_of-remove_first url k lru h)
  where
    missing : (j : Text) (l : List Text) → All (λ i. text_eq j i ≡ false) l → one_of l j ≡ false
    missing j [] a = unfold one_of in refl
    missing j (i ∷ l) (ai, a) = unfold one_of in rw ai (missing j l a)

    go :
        (b : Bool)
        → text_eq u url ≡ b
        → one_of (remove_first url lru) k ≡ (one_of lru k && not (text_eq url k))
        → one_of (if b then lru else u ∷ remove_first url lru) k
          ≡ ((text_eq k u || one_of lru k) && not (text_eq url k))
    go true e ih = ground (
      arith,
      text_eq_iff u url,
      text_eq_iff url k,
      text_eq_sym k u,
      text_eq_iff k u,
      missing u lru hu,
    )
    go false e ih =
        ground (arith, ih, text_eq_iff url k, text_eq_sym k u, text_eq_iff k u, text_eq_iff u url)

All-remove_first :
    (j url : Text) (lru : List Text)
    → All (λ i. text_eq j i ≡ false) lru
    → All (λ i. text_eq j i ≡ false) (remove_first url lru)
unfolding remove_first
All-remove_first j url [] h = tt
All-remove_first j url (u ∷ lru) (hu, h) = go (text_eq u url) (All-remove_first j url lru h)
  where
    go :
        (b : Bool)
        → All (λ i. text_eq j i ≡ false) (remove_first url lru)
        → All (λ i. text_eq j i ≡ false) (if b then lru else u ∷ remove_first url lru)
    go true r = h
    go false r = (hu, r)

pub IsDistinct-remove_first :
    (url : Text) (lru : List Text) → IsDistinct lru → IsDistinct (remove_first url lru)
unfolding remove_first
IsDistinct-remove_first url [] h = tt
IsDistinct-remove_first url (u ∷ lru) (hu, h) =
    go (text_eq u url) (IsDistinct-remove_first url lru h)
  where
    go :
        (b : Bool)
        → IsDistinct (remove_first url lru)
        → IsDistinct (if b then lru else u ∷ remove_first url lru)
    go true r = h
    go false r = (All-remove_first u url lru hu, r)

pub IsDistinct-concat :
    (url : Text) (lru : List Text)
    → IsDistinct lru
    → one_of lru url ≡ false
    → IsDistinct (lru ++ url ∷ [])
unfolding one_of
IsDistinct-concat url [] h e = (tt, tt)
IsDistinct-concat url (u ∷ lru) (hu, h) e = (
  All-append _ lru (url ∷ []) hu (ground (arith, text_eq_sym url u), tt),
  IsDistinct-concat url lru h (ground arith),
)
