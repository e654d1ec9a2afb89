-- ===== src/Base/Strings/Split.antt =====
-- `strings.Split` by one character, and the trimming of one character.
use native.Mathlib.Omega.{arith}
use mathlib.Core.Path.{refl, ◌≡◌}
use mathlib.Core.Bool.{true, false, ◌&&◌, Bool}
use sub_manager_vpn.Base.Tests.{if◌then◌else◌, ◌==◌}
use sub_manager_vpn.Base.Lists.{All}
use sub_manager_vpn.Base.Strings.{is_empty, Text}
use mathlib.Core.List.{[], ◌∷◌, ◌∷◌, ◌++◌, List}
use Prim.Native.Nat.{ℕ}

onto_first : ℕ → List Text → List Text
onto_first c [] = (c ∷ []) ∷ []
onto_first c (line ∷ lines) = (c ∷ line) ∷ lines

-- `strings.Split(s, sep)` for a one-character `sep`
unfoldable pub split : ℕ → Text → List Text
unfolding onto_first
split sep [] = [] ∷ []
split sep (c ∷ s) = if c == sep then [] ∷ split sep s else onto_first c (split sep s)

-- `strings.TrimLeft` and its kin, for a cutset of one character.
unfoldable pub trim_left_of : ℕ → Text → Text
trim_left_of d [] = []
trim_left_of d (c ∷ s) = if c == d then trim_left_of d s else c ∷ s

unfoldable pub trim_right_of : ℕ → Text → Text
trim_right_of d [] = []
trim_right_of d (c ∷ s) =
    let rest = trim_right_of d s in if c == d && is_empty rest then [] else c ∷ rest

unfoldable pub trim_of : ℕ → Text → Text
trim_of d s = trim_right_of d (trim_left_of d s)

-- The character does not stand in the text.
abbrev pub Lacks : ℕ → Text → Type 0
Lacks d = All (λ c. (c == d) ≡ false)

pub split-line :
    (d : ℕ) (line rest : Text) → Lacks d line → split d (line ++ d ∷ rest) ≡ line ∷ split d rest
unfolding split
split-line d [] rest h = let same : (d == d) ≡ true = ground arith in rw same refl
split-line d (c ∷ line) rest (hc, h) = rw (hc, split-line d line rest h) refl

pub split-Lacks : (d : ℕ) (s : Text) → All (Lacks d) (split d s)
unfolding split
split-Lacks d [] = (tt, tt)
split-Lacks d (c ∷ s) = go (c == d) refl (split d s) (split-Lacks d s)
  where
    go :
        (b : Bool)
        → (c == d) ≡ b
        → (lines : List Text) → All (Lacks d) lines
        → All (Lacks d) (if b then [] ∷ lines else onto_first c lines)
    go true e lines h = (tt, h)
    go false e [] h = ((e, tt), tt)
    go false e (line ∷ lines) (hl, h) = ((e, hl), h)
