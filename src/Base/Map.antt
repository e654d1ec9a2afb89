-- ===== src/Base/Map.antt =====
-- `map[string]V` as an association list. The program depends on no order of iteration.
use sub_manager_vpn.Base.Lists.{All}
use mathlib.Core.Bool.{true, Bool, false}
use mathlib.Core.Path.{subst, ◌≡◌, refl}
use mathlib.Core.List.{List, [], ◌∷◌}
use mathlib.Core.Option.{Option, none, some}
use native.Mathlib.Omega.{arith}
use sub_manager_vpn.Base.Tests.{if◌then◌else◌}
use sub_manager_vpn.Base.Strings.{text_eq_sym, one_of, IsDistinct, Text, text_eq, text_eq_iff}

abbrev pub Map {ℓ} : Type ℓ → Type ℓ
Map V = List (Text × V)

module _ {ℓ} {V : Type ℓ} where
  -- `v, ok := m[k]`
  unfoldable pub lookup : Text → Map V → Option V
  lookup k [] = none
  lookup k ((j, v) ∷ m) = if text_eq j k then some v else lookup k m

  -- `m[k] = v`
  unfoldable pub insert : Text → V → Map V → Map V
  insert k v [] = (k, v) ∷ []
  insert k v ((j, w) ∷ m) = if text_eq j k then (k, v) ∷ m else (j, w) ∷ insert k v m

  -- `delete(m, k)`
  unfoldable pub delete : Text → Map V → Map V
  delete k [] = []
  delete k ((j, w) ∷ m) = let rest = delete k m in if text_eq j k then rest else (j, w) ∷ rest

  -- `m[k]`, with the zero value for a missing key
  unfoldable pub lookup_or : V → Text → Map V → V
  lookup_or d k m = elim (lookup k m) [ none ↦ d | some v ↦ v ]

module _ {ℓ} {V : Type ℓ} where
  pub lookup-insert :
      (k j : Text) (v : V) (m : Map V)
      → lookup j (insert k v m) ≡ (if text_eq k j then some v else lookup j m)
  unfolding lookup insert
  lookup-insert k j v [] = refl
  lookup-insert k j v ((i, w) ∷ m) =
      ground (arith, text_eq_iff k j, text_eq_iff i k, text_eq_iff i j, lookup-insert k j v m)

  pub lookup-delete :
      (k j : Text) (m : Map V) → lookup j (delete k m) ≡ (if text_eq k j then none else lookup j m)
  unfolding lookup delete
  lookup-delete k j [] = ground arith
  lookup-delete k j ((i, w) ∷ m) =
      ground (arith, text_eq_iff k j, text_eq_iff i k, text_eq_iff i j, lookup-delete k j m)

module _ {ℓ} {V : Type ℓ} where
  unfoldable pub keys : Map V → List Text
  keys [] = []
  keys ((j, w) ∷ m) = j ∷ keys m

  All-keys-insert :
      (j k : Text) (v : V) (m : Map V)
      → text_eq j k ≡ false
      → All (λ i. text_eq j i ≡ false) (keys m)
      → All (λ i. text_eq j i ≡ false) (keys (insert k v m))
  unfolding keys insert
  All-keys-insert j k v [] e h = (e, tt)
  All-keys-insert j k v ((i, w) ∷ m) e (hi, h) = go (text_eq i k) (All-keys-insert j k v m e h)
    where
      go :
          (b : Bool)
          → All (λ i. text_eq j i ≡ false) (keys (insert k v m))
          → All (λ i. text_eq j i ≡ false) (keys (if b then (k, v) ∷ m else (i, w) ∷ insert k v m))
      go true r = (e, h)
      go false r = (hi, r)

  -- Assigning to a key keeps the keys different.
  pub IsDistinct-insert :
      (k : Text) (v : V) (m : Map V) → IsDistinct (keys m) → IsDistinct (keys (insert k v m))
  unfolding keys insert
  IsDistinct-insert k v [] h = (tt, tt)
  IsDistinct-insert k v ((i, w) ∷ m) (hi, h) = go (text_eq i k) refl (IsDistinct-insert k v m h)
    where
      go :
          (b : Bool)
          → text_eq i k ≡ b
          → IsDistinct (keys (insert k v m))
          → IsDistinct (keys (if b then (k, v) ∷ m else (i, w) ∷ insert k v m))
      go true e r =
          (subst (λ t. All (λ j. text_eq t j ≡ false) (keys m)) ((text_eq_iff i k).0 e) hi, h)
      go false e r = (All-keys-insert i k v m e hi, r)

  pub lookup_missing : (k : Text) (m : Map V) → one_of (keys m) k ≡ false → lookup k m ≡ none
  unfolding keys lookup one_of
  lookup_missing k [] h = refl
  lookup_missing k ((i, w) ∷ m) h = ground (arith, text_eq_sym i k, lookup_missing k m)

  pub lookup_or-insert :
      (d : V) (k j : Text) (v : V) (m : Map V)
      → lookup_or d j (insert k v m) ≡ (if text_eq k j then v else lookup_or d j m)
  unfolding lookup_or
  lookup_or-insert d k j v m = ground (arith, lookup-insert k j v m)
