-- ===== src/Registry/Examples.antt =====
-- The theorems at a small whitelist.
use sub_manager_vpn.Registry.Views.{view}
use sub_manager_vpn.Base.Strings.Split.{split, Lacks}
use sub_manager_vpn.Net.Examples.{toy_net}
use sub_manager_vpn.Registry.Spec.{adds}
use sub_manager_vpn.Registry.{source_of, hash_sign, parse_line, read_lines, read, is_https}
use sub_manager_vpn.Registry.Refined.{step-Refines, Refines}
use sub_manager_vpn.Base.{
  refl, trim_prefix, is_space, arith, [], ◌∷◌, trim_left, true, trim_space, text_eq, false, ◌==◌,
  ◌≡◌, not, is_empty, codes, some, has_prefix, all, Text, Option,
}
use sub_manager_vpn.Registry.File.{IsUrlParser}

all-Lacks : (t : Text) → all (λ c. not (c == b'\n')) t ≡ true → Lacks b'\n' t
all-Lacks [] h = tt
all-Lacks (c ∷ t) h = (ground arith, all-Lacks t (ground arith))

pub no_hash_toy : (t : Text) → is_https toy_net t ≡ true → has_prefix t hash_sign ≡ false
unfolding is_https has_prefix
no_hash_toy [] h = refl
no_hash_toy (c ∷ t) h = ground arith

pub not_empty_toy : (t : Text) → is_https toy_net t ≡ true → is_empty t ≡ false
unfolding is_https has_prefix is_empty text_eq
not_empty_toy [] h = cc
not_empty_toy (c ∷ t) h = refl

pub no_newline_toy : (t : Text) → is_https toy_net t ≡ true → Lacks b'\n' t
unfolding is_https
no_newline_toy t h = all-Lacks t (ground arith)

abbrev pub toy_law : IsUrlParser toy_net
toy_law = record { no_hash = no_hash_toy; no_newline = no_newline_toy; not_empty = not_empty_toy }

abbrev pub sample_file : Option Text
sample_file = some (codes "ha\n# hb\n# comment\n\n  hc  \n")

-- Comments and blank lines are no sources, and a source behind a hash sign is switched off.
view-sample_file :
    view toy_net sample_file ≡ (codes "ha", true) ∷ (codes "hb", false) ∷ (codes "hc", true) ∷ []
unfolding read read_lines parse_line trim_space trim_left has_prefix trim_prefix is_https split
    is_empty source_of text_eq
view-sample_file = refl

step-Refines_example : Refines toy_net (adds (codes "hd")) sample_file
step-Refines_example =
    step-Refines toy_net toy_law (adds (codes "hd")) sample_file
      (unfold trim_space trim_left is_space in refl)
