-- ===== src/Base/Lists.antt =====
-- Lists measured by native numbers, kept by a Boolean test, and predicates over them.
use mathlib.Core.Logic.{inr, ◌⊎◌, inl}
use Prim.Native.Nat.{ℕ, zero, suc, ◌+◌, ◌-◌, ◌≤◌, min}
use mathlib.Core.Path.{subst, ◌∙◌, sym, ◌≡◌, refl, ap}
use mathlib.Core.Bool.{Bool, true, false, ◌&&◌, ◌||◌}
use mathlib.Core.List.{List, [], ◌∷◌, ◌++◌}
use mathlib.Core.Option.{Option, none, some}
use native.Mathlib.Omega.{arith}
use sub_manager_vpn.Base.Tests.{if◌then◌else◌}

module _ {ℓ} {A : Type ℓ} where
  abbrev pub length : List A → ℕ
  length [] = 0
  length (x ∷ xs) = suc (length xs)

  -- `len(xs) == 0`
  abbrev pub is_nil : List A → Bool
  is_nil [] = true
  is_nil (x ∷ xs) = false

  abbrev pub take : ℕ → List A → List A
  take zero xs = []
  take (suc n) [] = []
  take (suc n) (x ∷ xs) = x ∷ take n xs

  abbrev pub drop : ℕ → List A → List A
  drop zero xs = xs
  drop (suc n) [] = []
  drop (suc n) (x ∷ xs) = drop n xs

  abbrev pub get_or : List A → ℕ → A → A
  get_or [] i d = d
  get_or (x ∷ xs) zero d = x
  get_or (x ∷ xs) (suc i) d = get_or xs i d

  -- The loop that copies what passes a test.
  abbrev pub filter : (A → Bool) → List A → List A
  filter p [] = []
  filter p (x ∷ xs) = if p x then x ∷ filter p xs else filter p xs

  abbrev pub any : (A → Bool) → List A → Bool
  any p [] = false
  any p (x ∷ xs) = p x || any p xs

  abbrev pub all : (A → Bool) → List A → Bool
  all p [] = true
  all p (x ∷ xs) = p x && all p xs

  abbrev pub find : (A → Bool) → List A → Option A
  find p [] = none
  find p (x ∷ xs) = if p x then some x else find p xs

module _ {ℓ} {A : Type ℓ} where
  pub length-append : (xs ys : List A) → length (xs ++ ys) ≡ length xs + length ys
  length-append [] ys = omega arith
  length-append (x ∷ xs) ys = omega (arith, length-append xs ys)

  pub length-take : (n : ℕ) (xs : List A) → length (take n xs) ≡ min n (length xs)
  length-take zero xs = omega arith
  length-take (suc n) [] = omega arith
  length-take (suc n) (x ∷ xs) = omega (arith, length-take n xs)

  pub length-drop : (n : ℕ) (xs : List A) → length (drop n xs) ≡ length xs - n
  length-drop zero xs = omega arith
  length-drop (suc n) [] = omega arith
  length-drop (suc n) (x ∷ xs) = omega (arith, length-drop n xs)

  pub length-filter-le : (p : A → Bool) (xs : List A) → length (filter p xs) ≤ length xs
  length-filter-le p [] = omega arith
  length-filter-le p (x ∷ xs) = ground (arith, length-filter-le p xs)

  pub take_all : (n : ℕ) (xs : List A) → length xs ≤ n → take n xs ≡ xs
  take_all zero [] h = refl
  take_all zero (x ∷ xs) h = absurd (omega arith)
  take_all (suc n) [] h = refl
  take_all (suc n) (x ∷ xs) h = ap (λ r. x ∷ r) (take_all n xs (omega arith))

  pub filter-filter :
      (p q : A → Bool) (xs : List A) → filter p (filter q xs) ≡ filter (λ x. q x && p x) xs
  filter-filter p q [] = refl
  filter-filter p q (x ∷ xs) = ground (arith, filter-filter p q xs)

  pub filter-append :
      (p : A → Bool) (xs ys : List A) → filter p (xs ++ ys) ≡ filter p xs ++ filter p ys
  filter-append p [] ys = refl
  filter-append p (x ∷ xs) ys = ground (arith, filter-append p xs ys)

module _ {ℓ κ} {A : Type ℓ} (P : A → Type κ) where
  abbrev pub All : List A → Type κ
  All [] = Unit
  All (x ∷ xs) = P x × All xs

module _ {ℓ κ} {A : Type ℓ} (P : A → Type κ) where
  pub All-append : (xs ys : List A) → All P xs → All P ys → All P (xs ++ ys)
  All-append [] ys _ hy = hy
  All-append (x ∷ xs) ys (px, hx) hy = (px, All-append xs ys hx hy)

  pub All-take : (n : ℕ) (xs : List A) → All P xs → All P (take n xs)
  All-take zero xs h = tt
  All-take (suc n) [] h = tt
  All-take (suc n) (x ∷ xs) (px, h) = (px, All-take n xs h)

  pub All-filter : (p : A → Bool) (xs : List A) → All P xs → All P (filter p xs)
  All-filter p [] h = tt
  All-filter p (x ∷ xs) (px, h) = go (p x) (All-filter p xs h)
    where
      go : (b : Bool) → All P (filter p xs) → All P (if b then x ∷ filter p xs else filter p xs)
      go true r = (px, r)
      go false r = r

  -- What passes a test has what the test shows.
  pub All-filter_of :
      (p : A → Bool) → ((x : A) → p x ≡ true → P x) → (xs : List A) → All P (filter p xs)
  All-filter_of p sound [] = tt
  All-filter_of p sound (x ∷ xs) = go (p x) refl (All-filter_of p sound xs)
    where
      go :
          (b : Bool)
          → p x ≡ b
          → All P (filter p xs)
          → All P (if b then x ∷ filter p xs else filter p xs)
      go true e r = (sound x e, r)
      go false e r = r

module _ {ℓ κ μ} {A : Type ℓ} (P : A → Type κ) (Q : A → Type μ) where
  pub All-map : ((x : A) → P x → Q x) → (xs : List A) → All P xs → All Q xs
  All-map f [] h = tt
  All-map f (x ∷ xs) (px, h) = (f x px, All-map f xs h)

-- `x` stands in the list.
module _ {A : Type 0} where
  abbrev pub Occurs : A → List A → Type 0
  Occurs x [] = ⊥
  Occurs x (y ∷ ys) = (x ≡ y) ⊎ Occurs x ys

  pub Occurs-filter :
      (p : A → Bool) (x : A) (xs : List A) → p x ≡ true → Occurs x xs → Occurs x (filter p xs)
  Occurs-filter p x [] px h = elim h [ ]
  Occurs-filter p x (y ∷ ys) px (inl e) = rw (sym (ap p e) ∙ px) (inl e)
  Occurs-filter p x (y ∷ ys) px (inr h) = go (p y) (Occurs-filter p x ys px h)
    where
      go :
          (b : Bool)
          → Occurs x (filter p ys)
          → Occurs x (if b then y ∷ filter p ys else filter p ys)
      go true r = inr r
      go false r = r

module _ {ℓ} {A : Type ℓ} where
  -- A test that agrees with another on every element keeps the same elements.
  pub filter-cong :
      (p q : A → Bool) → ((x : A) → p x ≡ q x) → (xs : List A) → filter p xs ≡ filter q xs
  filter-cong p q h [] = refl
  filter-cong p q h (x ∷ xs) = rw h (ap (λ r. if q x then x ∷ r else r) (filter-cong p q h xs))

module _ {ℓ} {A : Type ℓ} where
  pub take-take : (n : ℕ) (ys : List A) → take n (take (suc n) ys) ≡ take n ys
  take-take zero ys = refl
  take-take (suc n) [] = refl
  take-take (suc n) (z ∷ zs) = ap (λ r. z ∷ r) (take-take n zs)

  pub take_cons-take : (n : ℕ) (y : A) (ys : List A) → take n (y ∷ take n ys) ≡ take n (y ∷ ys)
  take_cons-take zero y ys = refl
  take_cons-take (suc n) y ys = ap (λ r. y ∷ r) (take-take n ys)

module _ {κ} {A : Type 0} (P : A → Type κ) where
  pub All-of_Occurs : (xs : List A) → ((x : A) → Occurs x xs → P x) → All P xs
  All-of_Occurs [] h = tt
  All-of_Occurs (x ∷ xs) h = (h x (inl refl), All-of_Occurs xs (λ y o. h y (inr o)))

  pub All_at : (x : A) (xs : List A) → All P xs → Occurs x xs → P x
  All_at x [] h o = absurd o
  All_at x (y ∷ ys) (py, h) (inl e) = subst P (sym e) py
  All_at x (y ∷ ys) (py, h) (inr o) = All_at x ys h o

module _ {A : Type 0} where
  pub Occurs-of_filter : (p : A → Bool) (x : A) (xs : List A) → Occurs x (filter p xs) → Occurs x xs
  Occurs-of_filter p x [] o = o
  Occurs-of_filter p x (y ∷ ys) o = go (p y) o (Occurs-of_filter p x ys)
    where
      go :
          (b : Bool)
          → Occurs x (if b then y ∷ filter p ys else filter p ys)
          → (Occurs x (filter p ys) → Occurs x ys)
          → Occurs x (y ∷ ys)
      go true (inl e) f = inl e
      go true (inr o) f = inr (f o)
      go false o f = inr (f o)

  pub Occurs-append_right : (x : A) (xs ys : List A) → Occurs x ys → Occurs x (xs ++ ys)
  Occurs-append_right x [] ys o = o
  Occurs-append_right x (z ∷ xs) ys o = inr (Occurs-append_right x xs ys o)

  pub Occurs-append_left : (x : A) (xs ys : List A) → Occurs x xs → Occurs x (xs ++ ys)
  Occurs-append_left x [] ys o = absurd o
  Occurs-append_left x (z ∷ xs) ys (inl e) = inl e
  Occurs-append_left x (z ∷ xs) ys (inr o) = inr (Occurs-append_left x xs ys o)

module _ {ℓ} {A : Type ℓ} where
  pub take-drop : (n : ℕ) (xs : List A) → take n xs ++ drop n xs ≡ xs
  take-drop zero xs = refl
  take-drop (suc n) [] = refl
  take-drop (suc n) (x ∷ xs) = ap (λ r. x ∷ r) (take-drop n xs)

  pub filter_all : (p : A → Bool) → ((x : A) → p x ≡ true) → (xs : List A) → filter p xs ≡ xs
  filter_all p h [] = refl
  filter_all p h (x ∷ xs) = rw (h x) (ap (λ r. x ∷ r) (filter_all p h xs))

module _ {ℓ κ} {A : Type ℓ} (P : A → Type κ) where
  pub All-filter_with :
      (p : A → Bool) (xs : List A) → All (λ x. p x ≡ true → P x) xs → All P (filter p xs)
  All-filter_with p [] h = tt
  All-filter_with p (x ∷ xs) (hx, h) = go (p x) refl (All-filter_with p xs h)
    where
      go :
          (b : Bool)
          → p x ≡ b
          → All P (filter p xs)
          → All P (if b then x ∷ filter p xs else filter p xs)
      go true e r = (hx e, r)
      go false e r = r
