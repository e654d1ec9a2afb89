-- ===== src/Base/Strings/Trim.antt =====
-- `strings.TrimSpace` takes spaces from both ends, and a second time nothing.
use mathlib.Core.List.{reverse-append, reverse-cons}
use sub_manager_vpn.Base.Tests.{if◌then◌else◌}
use mathlib.Core.Bool.{true, false, ◌&&◌, Bool}
use mathlib.Core.Path.{sym, refl, subst, ap, ◌≡◌, ◌∙◌}
use sub_manager_vpn.Base.Lists.{All}
use mathlib.Core.List.{[], ◌∷◌, reverse, ◌++◌}
use Prim.Native.Nat.{ℕ}
use sub_manager_vpn.Base.Strings.{is_space, trim_space, trim_left, is_empty, Text}

-- `strings.TrimRightFunc(s, unicode.IsSpace)`, without the two reversals.
unfoldable pub trim_right : Text → Text
trim_right [] = []
trim_right (c ∷ s) = let rest = trim_right s in if is_space c && is_empty rest then [] else c ∷ rest

trim_left-concat :
    (s : Text) (c : ℕ)
    → trim_left (s ++ c ∷ []) ≡ (
        if is_empty (trim_left s)
        then (if is_space c then [] else c ∷ [])
        else trim_left s ++ c ∷ [])
unfolding trim_left is_empty
trim_left-concat [] c = refl
trim_left-concat (d ∷ s) c = go (is_space d) (trim_left-concat s c)
  where
    go :
        (b : Bool)
        → trim_left (s ++ c ∷ []) ≡ (
            if is_empty (trim_left s)
            then (if is_space c then [] else c ∷ [])
            else trim_left s ++ c ∷ [])
        → (if b then trim_left (s ++ c ∷ []) else d ∷ (s ++ c ∷ [])) ≡ (
            if is_empty (if b then trim_left s else d ∷ s)
            then (if is_space c then [] else c ∷ [])
            else (if b then trim_left s else d ∷ s) ++ c ∷ [])
    go true ih = ih
    go false ih = refl

is_empty-reverse : (s : Text) → is_empty (reverse s) ≡ is_empty s
unfolding is_empty
is_empty-reverse [] = refl
is_empty-reverse (c ∷ s) = rw (reverse-cons c s) (go (reverse s))
  where
    go : (t : Text) → is_empty (t ++ c ∷ []) ≡ false
    go [] = refl
    go (d ∷ t) = refl

trim_right_lem : (s : Text) → reverse (trim_left (reverse s)) ≡ trim_right s
unfolding trim_right
trim_right_lem [] = unfold trim_left in refl
trim_right_lem (c ∷ s) =
    rw (reverse-cons c s, trim_left-concat (reverse s) c)
      (go (trim_left (reverse s)) (is_space c) (trim_right s) (trim_right_lem s))
  where
    go :
        (t : Text) (b : Bool) (r : Text)
        → reverse t ≡ r
        → reverse (if is_empty t then (if b then [] else c ∷ []) else t ++ c ∷ [])
          ≡ (if b && is_empty r then [] else c ∷ r)
    go [] true r e = rw (← e) (unfold is_empty in refl)
    go [] false r e = rw (← e) (unfold is_empty in refl)
    go (d ∷ t) true r e =
        rw (← e, is_empty-reverse (d ∷ t)) (unfold is_empty in reverse-append (d ∷ t) (c ∷ []))
    go (d ∷ t) false r e = rw (← e) (unfold is_empty in reverse-append (d ∷ t) (c ∷ []))

pub trim_space_lem : (s : Text) → trim_space s ≡ trim_right (trim_left s)
unfolding trim_space
trim_space_lem s = trim_right_lem (trim_left s)

-- Empty, or starting with something else than a space.
abbrev StartsInk : Text → Type 0
StartsInk [] = Unit
StartsInk (c ∷ s) = is_space c ≡ false

StartsInk-trim_left : (s : Text) → StartsInk (trim_left s)
unfolding trim_left
StartsInk-trim_left [] = tt
StartsInk-trim_left (c ∷ s) = go (is_space c) refl (StartsInk-trim_left s)
  where
    go :
        (b : Bool)
        → is_space c ≡ b
        → StartsInk (trim_left s)
        → StartsInk (if b then trim_left s else c ∷ s)
    go true e ih = ih
    go false e ih = e

StartsInk-trim_right : (s : Text) → StartsInk s → StartsInk (trim_right s)
unfolding trim_right
StartsInk-trim_right [] h = tt
StartsInk-trim_right (c ∷ s) h = rw h h

trim_left_ink : (s : Text) → StartsInk s → trim_left s ≡ s
unfolding trim_left
trim_left_ink [] h = refl
trim_left_ink (c ∷ s) h = rw h refl

trim_right_idem : (s : Text) → trim_right (trim_right s) ≡ trim_right s
unfolding trim_right
trim_right_idem [] = refl
trim_right_idem (c ∷ s) = go (is_space c && is_empty (trim_right s)) refl (trim_right_idem s)
  where
    go :
        (b : Bool)
        → (is_space c && is_empty (trim_right s)) ≡ b
        → trim_right (trim_right s) ≡ trim_right s
        → trim_right (if b then [] else c ∷ trim_right s) ≡ (if b then [] else c ∷ trim_right s)
    go true e ih = refl
    go false e ih = rw (ih, e) refl

-- Neither end is a space.
abbrev pub IsTrimmed : Text → Type 0
IsTrimmed s = trim_space s ≡ s

pub trim_left-trim_space : (s : Text) → trim_left (trim_space s) ≡ trim_space s
trim_left-trim_space s = rw (trim_space_lem s) (
    trim_left_ink (trim_right (trim_left s))
      (StartsInk-trim_right (trim_left s) (StartsInk-trim_left s)))

pub trim_space-IsTrimmed : (s : Text) → IsTrimmed (trim_space s)
trim_space-IsTrimmed s =
    trim_space_lem (trim_space s)
    ∙ (ap trim_right (trim_left-trim_space s)
        ∙ (ap trim_right (trim_space_lem s)
            ∙ (trim_right_idem (trim_left s) ∙ sym (trim_space_lem s))))

pub IsTrimmed-trim_left : (s : Text) → IsTrimmed s → trim_left s ≡ s
IsTrimmed-trim_left s h = ap trim_left (sym h) ∙ (trim_left-trim_space s ∙ h)

pub IsTrimmed-trim_right : (s : Text) → IsTrimmed s → trim_right s ≡ s
IsTrimmed-trim_right s h =
    ap trim_right (sym (IsTrimmed-trim_left s h)) ∙ (sym (trim_space_lem s) ∙ h)

-- Trimming only takes away.
module _ {κ} (P : ℕ → Type κ) where
  All-trim_left : (s : Text) → All P s → All P (trim_left s)
  unfolding trim_left
  All-trim_left [] h = tt
  All-trim_left (c ∷ s) (hc, h) = go (is_space c) (All-trim_left s h)
    where
      go : (b : Bool) → All P (trim_left s) → All P (if b then trim_left s else c ∷ s)
      go true ih = ih
      go false ih = (hc, h)

  All-trim_right : (s : Text) → All P s → All P (trim_right s)
  unfolding trim_right
  All-trim_right [] h = tt
  All-trim_right (c ∷ s) (hc, h) = go (is_space c && is_empty (trim_right s)) (All-trim_right s h)
    where
      go : (b : Bool) → All P (trim_right s) → All P (if b then [] else c ∷ trim_right s)
      go true ih = tt
      go false ih = (hc, ih)

  pub All-trim_space : (s : Text) → All P s → All P (trim_space s)
  All-trim_space s h =
      subst (All P) (sym (trim_space_lem s)) (All-trim_right (trim_left s) (All-trim_left s h))
