-- ===== src/Web/Sources/Handled.antt =====
-- What the handlers promise about the whitelist.
use sub_manager_vpn.Registry.Refined.{step-Refines, step_failed}
use sub_manager_vpn.Base.Strings.Trim.{trim_space-IsTrimmed, IsTrimmed}
use sub_manager_vpn.Registry.Spec.{step}
use sub_manager_vpn.Registry.{remove_source, add_source, hash_sign}
use sub_manager_vpn.Registry.Views.{view}
use sub_manager_vpn.Web.Sources.{add_lines}
use sub_manager_vpn.Registry.Spec.{adds, removes, promised, Whitelist}
use sub_manager_vpn.Base.{
  ap, false, ◌∙◌, ◌&&◌, has_prefix, ◌||◌, is_empty, refl, if◌then◌else◌, trim_space, [], ◌∷◌, ◌≡◌,
  true, Option, Bool, Text, List,
}
use sub_manager_vpn.Registry.File.{IsUrlParser}
use sub_manager_vpn.Net.{Network}

module _ (net : Network) where
  -- The lines are added one after the other, and the ones that are refused are left out.
  unfoldable pub promised_lines : List Text → Whitelist → Bool × Whitelist
  promised_lines [] w = (true, w)
  promised_lines (l ∷ lines) w =
      let r = promised net (adds (trim_space l)) w in
      let rest = promised_lines lines r.1 in
      let skipped = promised_lines lines w in
      if is_empty (trim_space l) || has_prefix (trim_space l) hash_sign
      then skipped
      else (r.0 && rest.0, rest.1)

  -- The lines that are shown are added as promised.
  abbrev pub AddsAll : List Text → Option Text → Type 0
  AddsAll lines file =
      ((add_lines net true lines file).0 ≡ (promised_lines lines (view net file)).0)
      × (view net (add_lines net true lines file).1 ≡ (promised_lines lines (view net file)).1)

  module _ (law : IsUrlParser net) where
    pub add-Refines :
        (url : Text) (file : Option Text)
        → IsTrimmed url
        → ((add_source net true url file).0 ≡ (promised net (adds url) (view net file)).0)
          × (view net (add_source net true url file).1
              ≡ (promised net (adds url) (view net file)).1)
    unfolding step
    add-Refines url file t = step-Refines net law (adds url) file t

    pub remove-Refines :
        (id : Text) (file : Option Text)
        → ((remove_source net true id file).0 ≡ (promised net (removes id) (view net file)).0)
          × (view net (remove_source net true id file).1
              ≡ (promised net (removes id) (view net file)).1)
    unfolding step
    remove-Refines id file = step-Refines net law (removes id) file tt

    pub removed_failed :
        (id : Text) (file : Option Text)
        → (remove_source net true id file).0 ≡ false
        → (remove_source net true id file).1 ≡ file
    unfolding step
    removed_failed id file h = step_failed net true (removes id) file h

    add_lines-cons :
        (l : Text) (lines : List Text) (file : Option Text)
        → AddsAll lines file
        → AddsAll lines (add_source net true (trim_space l) file).1
        → AddsAll (l ∷ lines) file
    unfolding add_lines promised_lines
    add_lines-cons l lines file skipped rest =
        go (is_empty (trim_space l) || has_prefix (trim_space l) hash_sign)
      where
        line : Text
        line = trim_space l

        added : Bool × Option Text
        added = add_source net true line file

        wished : Bool × Whitelist
        wished = promised net (adds line) (view net file)

        one : (added.0 ≡ wished.0) × (view net added.1 ≡ wished.1)
        one = add-Refines line file (trim_space-IsTrimmed l)

        left : Bool → Bool × Option Text
        left b = if b then add_lines net true lines file else (
          added.0 && (add_lines net true lines added.1).0,
          (add_lines net true lines added.1).1,
        )

        right : Bool → Bool × Whitelist
        right b =
            if b
            then promised_lines lines (view net file)
            else (wished.0 && (promised_lines lines wished.1).0, (promised_lines lines wished.1).1)

        go : (b : Bool) → ((left b).0 ≡ (right b).0) × (view net (left b).1 ≡ (right b).1)
        go true = skipped
        go false = (
          ap (λ b. b && (add_lines net true lines added.1).0) one.0
              ∙ ap (λ b. wished.0 && b) (rest.0 ∙ ap (λ v. (promised_lines lines v).0) one.1),
          rest.1 ∙ ap (λ v. (promised_lines lines v).1) one.1,
        )

    -- Each line that is no comment is added as one address, in order; a refused line is left out and makes
    -- the answer an error, and the lines before and after it are kept.
    pub add_lines-Refines : (lines : List Text) (file : Option Text) → AddsAll lines file
    add_lines-Refines [] file = unfold add_lines promised_lines in (refl, refl)
    add_lines-Refines (l ∷ lines) file =
        add_lines-cons l lines file (add_lines-Refines lines file)
          (add_lines-Refines lines (add_source net true (trim_space l) file).1)
