-- ===== src/Base/Sort.antt =====
-- `sort.SliceStable` and `sort.Ints`, as the stable insertion sort by a Boolean "less".
pub mod Laws
use mathlib.Core.List.{List, [], ◌∷◌}
use mathlib.Core.Bool.{Bool}
use sub_manager_vpn.Base.Tests.{if◌then◌else◌}

module _ {ℓ} {A : Type ℓ} (less : A → A → Bool) where
  -- `x` stood before the elements of the list: it goes behind those that are less.
  unfoldable pub insert_sorted : A → List A → List A
  insert_sorted x [] = x ∷ []
  insert_sorted x (y ∷ ys) = if less y x then y ∷ insert_sorted x ys else x ∷ y ∷ ys

  unfoldable pub stable_sort : List A → List A
  unfolding insert_sorted
  stable_sort [] = []
  stable_sort (x ∷ xs) = insert_sorted x (stable_sort xs)
