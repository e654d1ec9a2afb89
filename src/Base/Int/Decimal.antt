-- ===== src/Base/Int/Decimal.antt =====
-- `itoa` of internal/filter/filter.go, which agrees with `strconv.Itoa`.
use mathlib.Core.Logic.{◌≢◌}
use sub_manager_vpn.Base.Lists.{All-map, All}
use Prim.Native.Nat.{◌≤◌, ℕ, zero, suc, ◌+◌, ◌-◌, ◌*◌, ◌/◌, ◌%◌, ◌<◌}
use mathlib.Core.Path.{subst, ◌≡◌, ap, sym, ◌∙◌}
use mathlib.Core.Bool.{false, true, Bool}
use mathlib.Core.List.{[], ◌∷◌}
use native.Mathlib.Omega.{arith}
use sub_manager_vpn.Base.Tests.{leb, ltb, ◌==◌, if◌then◌else◌}
use sub_manager_vpn.Base.Strings.{Text}

pub data ℤ : Type 0 where
  pos : ℕ → ℤ
  negsuc : ℕ → ℤ

abbrev pub pos_part : ℤ → ℕ
pos_part (pos n) = n
pos_part (negsuc n) = 0

abbrev pub neg_part : ℤ → ℕ
neg_part (pos n) = 0
neg_part (negsuc n) = suc n

-- `a <= 0`
abbrev pub not_positive : ℤ → Bool
not_positive a = leb (pos_part a) 0

-- `for i > 0 { pos--; b[pos] = '0' + i%10; i /= 10 }`; the fuel is above `i`
unfoldable pub digits : ℕ → ℕ → Text → Text
digits zero i b = b
digits (suc f) i b =
    let rest = digits f (i / 10) ((b'0' + i % 10) ∷ b) in if ltb 0 i then rest else b

unfoldable pub decimal : ℕ → Text
unfolding digits
decimal n = if n == 0 then b'0' ∷ [] else digits (suc n) n []

unfoldable pub itoa : ℤ → Text
unfolding decimal
itoa (pos n) = decimal n
itoa (negsuc n) = b'-' ∷ decimal (suc n)

-- the number that digits spell behind `n`
value : ℕ → Text → ℕ
value n [] = n
value n (c ∷ s) = value (n * 10 + (c - b'0')) s

value-digits : (f i : ℕ) (b : Text) → i < f → value 0 (digits f i b) ≡ value i b
unfolding digits value
value-digits zero i b h = absurd (omega arith)
value-digits (suc f) i b h = ground (arith, value-digits f (i / 10) ((b'0' + i % 10) ∷ b))

value-decimal : (n : ℕ) → value 0 (decimal n) ≡ n
unfolding value decimal
value-decimal n = ground (arith, value-digits (suc n) n [])

pub decimal-injective : (m n : ℕ) → decimal m ≡ decimal n → m ≡ n
decimal-injective m n h = sym (value-decimal m) ∙ ap (value 0) h ∙ value-decimal n

digits-All : (f i : ℕ) (b : Text) → All (λ c. b'0' ≤ c) b → All (λ c. b'0' ≤ c) (digits f i b)
unfolding digits
digits-All zero i b h = h
digits-All (suc f) i b h =
    go (ltb 0 i) (digits-All f (i / 10) ((b'0' + i % 10) ∷ b) (omega arith, h))
  where
    go :
        (t : Bool)
        → All (λ c. b'0' ≤ c) (digits f (i / 10) ((b'0' + i % 10) ∷ b))
        → All (λ c. b'0' ≤ c) (if t then digits f (i / 10) ((b'0' + i % 10) ∷ b) else b)
    go true r = r
    go false r = h

decimal-All : (n : ℕ) → All (λ c. b'0' ≤ c) (decimal n)
unfolding decimal
decimal-All n = go (n == 0) (digits-All (suc n) n [] tt)
  where
    go :
        (t : Bool)
        → All (λ c. b'0' ≤ c) (digits (suc n) n [])
        → All (λ c. b'0' ≤ c) (if t then b'0' ∷ [] else digits (suc n) n [])
    go true r = (omega arith, tt)
    go false r = r

pub itoa-All : (a : ℤ) → All (λ c. c ≢ 0) (itoa a)
unfolding itoa
itoa-All (pos n) =
    All-map (λ c. b'0' ≤ c) (λ c. c ≢ 0) (λ c h. omega arith) (decimal n) (decimal-All n)
itoa-All (negsuc n) =
    (omega arith, All-map (λ c. b'0' ≤ c) (λ c. c ≢ 0) (λ c h. omega arith) _ (decimal-All (suc n)))

minus_ne : (n : ℕ) (s : Text) → decimal n ≡ b'-' ∷ s → ⊥
minus_ne n s e = absurd (omega (arith, (subst (All (λ c. b'0' ≤ c)) e (decimal-All n)).0))

tail_of : Text → Text
tail_of [] = []
tail_of (c ∷ s) = s

-- Two integers with one print are equal.
pub itoa-injective : (a b : ℤ) → itoa a ≡ itoa b → a ≡ b
unfolding itoa tail_of
itoa-injective (pos m) (pos n) h = ap pos (decimal-injective m n h)
itoa-injective (pos m) (negsuc n) h = absurd (minus_ne m _ h)
itoa-injective (negsuc m) (pos n) h = absurd (minus_ne n _ (sym h))
itoa-injective (negsuc m) (negsuc n) h =
    ap negsuc (omega (arith, decimal-injective (suc m) (suc n) (ap tail_of h)))
