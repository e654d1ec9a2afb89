-- ===== src/Base/Sort/Laws.antt =====
-- Laws of the stable sort by a strict weak order.
use mathlib.Core.Logic.{inr, inl}
use sub_manager_vpn.Base.Tests.{if◌then◌else◌}
use native.Mathlib.Omega.{arith}
use sub_manager_vpn.Base.Lists.{Occurs, take_cons-take, All-take, All-map, take, length, All}
use mathlib.Core.Path.{refl, ap, ◌∙◌, ◌≡◌}
use Prim.Native.Nat.{zero, suc, ℕ}
use mathlib.Core.List.{[], ◌∷◌, ◌∷◌, ◌++◌, List}
use mathlib.Core.Bool.{false, true, Bool}
use sub_manager_vpn.Base.Sort.{insert_sorted, stable_sort}

-- A strict weak order as a Boolean test.
pub record IsOrder {ℓ} {A : Type ℓ} (less : A → A → Bool) : Type ℓ where
  pub asym : (a b : A) → less a b ≡ true → less b a ≡ false
  pub neg_trans : (a b c : A) → less a b ≡ false → less b c ≡ false → less a c ≡ false

module _ {ℓ} {A : Type ℓ} (less : A → A → Bool) where
  -- `c` stood behind the elements of the list: it goes before those that are greater.
  unfoldable pub insert_right : A → List A → List A
  insert_right c [] = c ∷ []
  insert_right c (y ∷ ys) = if less c y then c ∷ y ∷ ys else y ∷ insert_right c ys

  -- No element is less than one before it.
  abbrev pub IsSorted : List A → Type 0
  IsSorted [] = Unit
  IsSorted (y ∷ ys) = All (λ z. less z y ≡ false) ys × IsSorted ys

  pub length-insert_sorted :
      (x : A) (ys : List A) → length (insert_sorted less x ys) ≡ suc (length ys)
  unfolding insert_sorted
  length-insert_sorted x [] = refl
  length-insert_sorted x (y ∷ ys) = ground (arith, length-insert_sorted x ys)

  pub length-stable_sort : (xs : List A) → length (stable_sort less xs) ≡ length xs
  unfolding stable_sort
  length-stable_sort [] = refl
  length-stable_sort (x ∷ xs) =
      length-insert_sorted x (stable_sort less xs) ∙ ap suc (length-stable_sort xs)

  pub length-insert_right : (x : A) (ys : List A) → length (insert_right x ys) ≡ suc (length ys)
  unfolding insert_right
  length-insert_right x [] = refl
  length-insert_right x (y ∷ ys) = ground (arith, length-insert_right x ys)

  -- What stands behind the first `n` never comes before them again.
  pub take-insert_right :
      (n : ℕ) (c : A) (ys : List A)
      → take n (insert_right c (take n ys)) ≡ take n (insert_right c ys)
  unfolding insert_right
  take-insert_right zero c ys = refl
  take-insert_right (suc n) c [] = refl
  take-insert_right (suc n) c (y ∷ ys) = go (less c y) (take-insert_right n c ys)
    where
      go :
          (b : Bool)
          → take n (insert_right c (take n ys)) ≡ take n (insert_right c ys)
          → take (suc n) (if b then c ∷ y ∷ take n ys else y ∷ insert_right c (take n ys))
            ≡ take (suc n) (if b then c ∷ y ∷ ys else y ∷ insert_right c ys)
      go true e = ap (λ r. c ∷ r) (take_cons-take n y ys)
      go false e = ap (λ r. y ∷ r) e

  pub All-insert_sorted {κ} :
      (P : A → Type κ) (x : A) (ys : List A) → P x → All P ys → All P (insert_sorted less x ys)
  unfolding insert_sorted
  All-insert_sorted P x [] px h = (px, tt)
  All-insert_sorted P x (y ∷ ys) px (py, h) = go (less y x) (All-insert_sorted P x ys px h)
    where
      go :
          (b : Bool)
          → All P (insert_sorted less x ys)
          → All P (if b then y ∷ insert_sorted less x ys else x ∷ y ∷ ys)
      go true r = (py, r)
      go false r = (px, (py, h))

  pub All-stable_sort {κ} : (P : A → Type κ) (xs : List A) → All P xs → All P (stable_sort less xs)
  unfolding stable_sort
  All-stable_sort P [] h = tt
  All-stable_sort P (x ∷ xs) (px, h) = All-insert_sorted P x _ px (All-stable_sort P xs h)

  pub insert_sorted_least :
      (x : A) (ys : List A) → All (λ z. less z x ≡ false) ys → insert_sorted less x ys ≡ x ∷ ys
  unfolding insert_sorted
  insert_sorted_least x [] h = refl
  insert_sorted_least x (y ∷ ys) (hy, h) = rw hy refl

  pub stable_sort_sorted : (xs : List A) → IsSorted xs → stable_sort less xs ≡ xs
  unfolding stable_sort
  stable_sort_sorted [] h = refl
  stable_sort_sorted (x ∷ xs) (hx, h) = rw (stable_sort_sorted xs h) (insert_sorted_least x xs hx)

  pub IsSorted-take : (n : ℕ) (xs : List A) → IsSorted xs → IsSorted (take n xs)
  IsSorted-take zero xs h = tt
  IsSorted-take (suc n) [] h = tt
  IsSorted-take (suc n) (x ∷ xs) (hx, h) = (All-take _ n xs hx, IsSorted-take n xs h)

  module _ (order : IsOrder less) where
    insert_comm :
        (x c : A) (ys : List A)
        → insert_sorted less x (insert_right c ys) ≡ insert_right c (insert_sorted less x ys)
    unfolding insert_sorted insert_right
    insert_comm x c [] = ground (arith, order.asym x c)
    insert_comm x c (y ∷ ys) =
        ground
          (arith, order.asym y x, order.neg_trans c x y, order.neg_trans c y x, insert_comm x c ys)

    -- The sort of a list with one more element at its end.
    pub stable_sort-append :
        (xs : List A) (c : A)
        → stable_sort less (xs ++ c ∷ []) ≡ insert_right c (stable_sort less xs)
    unfolding stable_sort
    stable_sort-append [] c = unfold insert_sorted insert_right in refl
    stable_sort-append (x ∷ xs) c =
        rw (stable_sort-append xs c) (insert_comm x c (stable_sort less xs))

    insert_sorted-IsSorted :
        (x : A) (ys : List A) → IsSorted ys → IsSorted (insert_sorted less x ys)
    unfolding insert_sorted
    insert_sorted-IsSorted x [] h = (tt, tt)
    insert_sorted-IsSorted x (y ∷ ys) (hy, h) = go (less y x) refl (insert_sorted-IsSorted x ys h)
      where
        go :
            (b : Bool)
            → less y x ≡ b
            → IsSorted (insert_sorted less x ys)
            → IsSorted (if b then y ∷ insert_sorted less x ys else x ∷ y ∷ ys)
        go true e r = (All-insert_sorted _ x ys (order.asym y x e) hy, r)
        go false e r = ((e, All-map _ _ (λ z hz. order.neg_trans z y x hz e) ys hy), (hy, h))

    pub stable_sort-IsSorted : (xs : List A) → IsSorted (stable_sort less xs)
    unfolding stable_sort
    stable_sort-IsSorted [] = tt
    stable_sort-IsSorted (x ∷ xs) = insert_sorted-IsSorted x _ (stable_sort-IsSorted xs)

module _ {A : Type 0} (less : A → A → Bool) where
  Occurs-insert_sorted :
      (a x : A) (ys : List A) → Occurs a (x ∷ ys) → Occurs a (insert_sorted less x ys)
  unfolding insert_sorted
  Occurs-insert_sorted a x [] o = o
  Occurs-insert_sorted a x (y ∷ ys) o = go (less y x) o (Occurs-insert_sorted a x ys)
    where
      go :
          (b : Bool)
          → Occurs a (x ∷ y ∷ ys)
          → (Occurs a (x ∷ ys) → Occurs a (insert_sorted less x ys))
          → Occurs a (if b then y ∷ insert_sorted less x ys else x ∷ y ∷ ys)
      go true (inl e) f = inr (f (inl e))
      go true (inr (inl e)) f = inl e
      go true (inr (inr o)) f = inr (f (inr o))
      go false o f = o

  -- A sort loses nothing.
  pub Occurs-stable_sort : (a : A) (xs : List A) → Occurs a xs → Occurs a (stable_sort less xs)
  unfolding stable_sort
  Occurs-stable_sort a [] o = o
  Occurs-stable_sort a (x ∷ xs) (inl e) = Occurs-insert_sorted a x _ (inl e)
  Occurs-stable_sort a (x ∷ xs) (inr o) =
      Occurs-insert_sorted a x _ (inr (Occurs-stable_sort a xs o))
