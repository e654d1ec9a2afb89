-- ===== src/Base/Chunks.antt =====
-- Loops over rows: one by one, and in transactions of a fixed size.
use native.Mathlib.Omega.{arith}
use mathlib.Core.Path.{refl, ◌≡◌, ◌∙◌, sym, ap}
use sub_manager_vpn.Base.Lists.{take-drop, length-drop, take, drop, length}
use Prim.Native.Nat.{zero, ◌≤◌, ◌+◌, suc, ℕ}
use mathlib.Core.List.{[], ◌∷◌, ◌++◌, List}

module _ {ℓ κ} {A : Type ℓ} {S : Type κ} where
  -- `for _, x := range xs { … }`
  abbrev pub each : (A → S → S) → List A → S → S
  each f [] s = s
  each f (x ∷ xs) s = each f xs (f x s)

  -- `for start := 0; start < len(xs); start += size { step(xs[start:min(start+size, len(xs))]) }`,
  -- from `start` on; the step may read a clock, so it gets the position.
  abbrev pub chunk_loop : (ℕ → List A → S → S) → ℕ → ℕ → ℕ → List A → S → S
  chunk_loop step zero size start rest s = s
  chunk_loop step (suc fuel) size start [] s = s
  chunk_loop step (suc fuel) size start (x ∷ rest) s =
      chunk_loop step fuel size (start + size) (drop size (x ∷ rest))
        (step start (take size (x ∷ rest)) s)

  pub each-append :
      (f : A → S → S) (xs ys : List A) (s : S) → each f (xs ++ ys) s ≡ each f ys (each f xs s)
  each-append f [] ys s = refl
  each-append f (x ∷ xs) ys s = each-append f xs ys (f x s)

  -- Cutting into chunks does not change what a loop over the rows does.
  pub chunk_loop-each :
      (f : A → S → S) (fuel size start : ℕ) (xs : List A) (s : S)
      → length xs ≤ fuel
      → 1 ≤ size
      → chunk_loop (λ _. each f) fuel size start xs s ≡ each f xs s
  chunk_loop-each f zero size start [] s h one = refl
  chunk_loop-each f zero size start (x ∷ xs) s h one = absurd (omega arith)
  chunk_loop-each f (suc fuel) size start [] s h one = refl
  chunk_loop-each f (suc fuel) size start (x ∷ xs) s h one =
      chunk_loop-each f fuel size (start + size) (drop size (x ∷ xs))
        (each f (take size (x ∷ xs)) s) (omega (arith, length-drop size (x ∷ xs))) one
      ∙ (sym (each-append f (take size (x ∷ xs)) (drop size (x ∷ xs)) s)
          ∙ ap (λ l. each f l s) (take-drop size (x ∷ xs)))
