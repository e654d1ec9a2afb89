-- ===== src/Base/Strings.antt =====
-- Go strings as lists of code points, and what the program uses of package strings and strconv.
pub mod Trim
pub mod Split
use Prim.Native.Nat.{ℕ, ◌+◌, ◌-◌}
use Prim.Native.Char.{code}
use Prim.Native.String.{String}
use mathlib.Core.Path.{◌≡◌, refl}
use mathlib.Core.Logic.{◌↔◌}
use mathlib.Core.Bool.{Bool, true, false, ◌&&◌, ◌||◌}
use mathlib.Core.List.{◌++◌, List, [], ◌∷◌, reverse}
use native.Mathlib.Omega.{arith}
use sub_manager_vpn.Base.Tests.{ltb, leb, ◌==◌, if◌then◌else◌}
use sub_manager_vpn.Base.Lists.{All, any}

abbrev pub Text : Type 0
Text = List ℕ

abbrev pub codes : String → Text
codes String.[] = []
codes (String.◌∷◌ c s) = code c ∷ codes s

-- `s == t`
unfoldable pub text_eq : Text → Text → Bool
text_eq [] [] = true
text_eq [] (d ∷ t) = false
text_eq (c ∷ s) [] = false
text_eq (c ∷ s) (d ∷ t) = (c == d) && text_eq s t

text_eq_sound : (s t : Text) → text_eq s t ≡ true → s ≡ t
unfolding text_eq
text_eq_sound [] [] h = refl
text_eq_sound [] (d ∷ t) h = cc
text_eq_sound (c ∷ s) [] h = cc
text_eq_sound (c ∷ s) (d ∷ t) h = ground (arith, text_eq_sound s t)

pub text_eq_refl : (s : Text) → text_eq s s ≡ true
unfolding text_eq
text_eq_refl [] = refl
text_eq_refl (c ∷ s) = ground (arith, text_eq_refl s)

pub text_eq_iff : (s t : Text) → (text_eq s t ≡ true) ↔ (s ≡ t)
text_eq_iff s t = (text_eq_sound s t, λ e. rw e (text_eq_refl t))

unfoldable pub is_empty : Text → Bool
is_empty [] = true
is_empty (c ∷ s) = false

-- Is the text one of these?
unfoldable pub one_of : List Text → Text → Bool
one_of ts s = any (text_eq s) ts

unfoldable pub has_prefix : Text → Text → Bool
has_prefix s [] = true
has_prefix [] (d ∷ t) = false
has_prefix (c ∷ s) (d ∷ t) = (c == d) && has_prefix s t

-- `strings.TrimPrefix(s, t)`
unfoldable pub trim_prefix : Text → Text → Text
unfolding has_prefix
trim_prefix s t = if has_prefix s t then cut s t else s
  where
    cut : Text → Text → Text
    cut s [] = s
    cut [] (d ∷ t) = []
    cut (c ∷ s) (d ∷ t) = cut s t

-- `strings.Contains(s, t)`
unfoldable pub contains : Text → Text → Bool
unfolding has_prefix
contains [] t = has_prefix [] t
contains (c ∷ s) t = has_prefix (c ∷ s) t || contains s t

-- `unicode.IsSpace`
unfoldable pub is_space : ℕ → Bool
is_space c =
    (leb 9 c && leb c 13)
    || (c == 32)
    || (c == 0x85)
    || (c == 0xA0)
    || (c == 0x1680)
    || (leb 0x2000 c && leb c 0x200A)
    || (c == 0x2028)
    || (c == 0x2029)
    || (c == 0x202F)
    || (c == 0x205F)
    || (c == 0x3000)

unfoldable pub trim_left : Text → Text
unfolding is_space
trim_left [] = []
trim_left (c ∷ s) = if is_space c then trim_left s else c ∷ s

-- `strings.TrimSpace`
unfoldable pub trim_space : Text → Text
unfolding trim_left
trim_space s = reverse (trim_left (reverse (trim_left s)))

-- `unicode.ToLower` at every code point that it sends into ASCII: the capital letters, the Kelvin
-- sign and the dotted capital I. Other letters stay as they are; the texts that the program lowers
-- are compared with ASCII texts, where that makes no difference.
unfoldable pub lower : ℕ → ℕ
lower c =
    if leb b'A' c && leb c b'Z'
    then c + 32
    else if c == 0x212A
    then b'k'
    else if c == 0x130
    then b'i'
    else c

-- `unicode.ToUpper` at every code point that it sends into ASCII: the small letters, the dotless i
-- and the long s.
unfoldable pub upper : ℕ → ℕ
upper c =
    if leb b'a' c && leb c b'z'
    then c - 32
    else if c == 0x131
    then b'I'
    else if c == 0x17F
    then b'S'
    else c

unfoldable pub to_lower : Text → Text
unfolding lower
to_lower [] = []
to_lower (c ∷ s) = lower c ∷ to_lower s

unfoldable pub to_upper : Text → Text
unfolding upper
to_upper [] = []
to_upper (c ∷ s) = upper c ∷ to_upper s

-- Each text differs from all that follow.
abbrev pub IsDistinct : List Text → Type 0
IsDistinct [] = Unit
IsDistinct (k ∷ ks) = All (λ j. text_eq k j ≡ false) ks × IsDistinct ks

pub text_eq_sym : (s t : Text) → text_eq s t ≡ text_eq t s
text_eq_sym s t = ground (arith, text_eq_iff s t, text_eq_iff t s)

-- `s < t`, by code points; the bytes of UTF-8 are ordered alike.
unfoldable pub text_less : Text → Text → Bool
text_less [] [] = false
text_less [] (d ∷ t) = true
text_less (c ∷ s) [] = false
text_less (c ∷ s) (d ∷ t) = ltb c d || (c == d) && text_less s t

pub one_of_head :
    (k j : Text) (seen : List Text) → one_of (k ∷ seen) j ≡ false → text_eq k j ≡ false
unfolding one_of
one_of_head k j seen h = ground (arith, text_eq_iff j k, text_eq_iff k j)

pub one_of_middle :
    (seen : List Text) (k : Text) (ks : List Text) → one_of (seen ++ k ∷ ks) k ≡ true
unfolding one_of
one_of_middle [] k ks = rw (text_eq_refl k) refl
one_of_middle (j ∷ seen) k ks = ground (arith, one_of_middle seen k ks)

pub one_of-append :
    (xs ys : List Text) (j : Text) → one_of (xs ++ ys) j ≡ (one_of xs j || one_of ys j)
unfolding one_of
one_of-append [] ys j = refl
one_of-append (x ∷ xs) ys j = ground (arith, one_of-append xs ys j)
