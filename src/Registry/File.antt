-- ===== src/Registry/File.antt =====
-- What is written to the file is what is read from it.
use mathlib.Core.Path.{subst}
use sub_manager_vpn.Base.Strings.Split.{split-line, split, Lacks}
use sub_manager_vpn.Base.Strings.Trim.{
  IsTrimmed-trim_right, IsTrimmed-trim_left, trim_space-IsTrimmed, trim_right, trim_space_lem,
  IsTrimmed,
}
use sub_manager_vpn.Base.{
  append_assoc, sym, is_space, ◌∙◌, trim_prefix, refl, arith, ap, trim_left, none, [], ◌++◌, ◌∷◌,
  ◌∷◌, if◌then◌else◌, has_prefix, codes, true, trim_space, some, false, All, ◌≡◌, is_empty, Option,
  List, Bool, Text,
}
use sub_manager_vpn.Registry.{
  hash_sign, source_of, render, is_https, read_lines, read, parse_line, Source,
}
use sub_manager_vpn.Net.{Network}

-- What package net/url documents: a scheme starts with a letter and is not empty, and a text with a
-- control character is no URL.
pub record IsUrlParser (net : Network) : Type 0 where
  pub no_hash : (t : Text) → is_https net t ≡ true → has_prefix t hash_sign ≡ false
  pub no_newline : (t : Text) → is_https net t ≡ true → Lacks b'\n' t
  pub not_empty : (t : Text) → is_https net t ≡ true → is_empty t ≡ false

module _ (net : Network) where
  -- A source as the file can hold it.
  abbrev pub IsStored : Source → Type 0
  IsStored s = (s ≡ source_of net s.url s.enabled) × (is_https net s.url ≡ true) × IsTrimmed s.url

  parse_line-IsStored :
      (line u : Text) (enabled : Bool)
      → parse_line net line ≡ some (u, enabled)
      → (is_https net u ≡ true) × IsTrimmed u
  unfolding parse_line
  parse_line-IsStored line u enabled =
      go (trim_space line) (trim_space-IsTrimmed line)
        (trim_space (trim_prefix (trim_space line) hash_sign))
        (trim_space-IsTrimmed (trim_prefix (trim_space line) hash_sign))
    where
      go :
          (t : Text)
          → IsTrimmed t
          → (r : Text) → IsTrimmed r
          → (let x : Option (Text × Bool) =
                if is_empty t
                then none
                else if has_prefix t hash_sign
                then if is_https net r then some (r, false) else none
                else if is_https net t
                then some (t, true)
                else none in
              x)
            ≡ some (u, enabled)
          → (is_https net u ≡ true) × IsTrimmed u
      go t ht r hr =
          cases (is_empty t) (has_prefix t hash_sign) (is_https net r) refl (is_https net t) refl
        where
          cases :
              (a b c : Bool)
              → is_https net r ≡ c
              → (d : Bool) → is_https net t ≡ d
              → (let x : Option (Text × Bool) =
                    if a
                    then none
                    else if b
                    then if c then some (r, false) else none
                    else if d
                    then some (t, true)
                    else none in
                  x)
                ≡ some (u, enabled)
              → (is_https net u ≡ true) × IsTrimmed u
          cases true b c ec d ed e = absurd (ground arith)
          cases false true false ec d ed e = absurd (ground arith)
          cases false true true ec d ed e =
              let same : r ≡ u = cc in
              subst (λ x. (is_https net x ≡ true) × IsTrimmed x) same (ec, hr)
          cases false false c ec false ed e = absurd (ground arith)
          cases false false c ec true ed e =
              let same : t ≡ u = cc in
              subst (λ x. (is_https net x ≡ true) × IsTrimmed x) same (ed, ht)

  read_lines-IsStored : (lines : List Text) → All IsStored (read_lines net lines)
  unfolding read_lines
  read_lines-IsStored [] = tt
  read_lines-IsStored (line ∷ lines) = go (parse_line net line) refl (read_lines-IsStored lines)
    where
      go :
          (o : Option (Text × Bool))
          → parse_line net line ≡ o
          → All IsStored (read_lines net lines)
          → All IsStored (elim o as (λ _. List Source) [
            | none ↦ read_lines net lines
            | some (u, enabled) ↦ source_of net u enabled ∷ read_lines net lines
          ])
      go none e h = h
      go (some (u, enabled)) e h =
          let p = parse_line-IsStored line u enabled e in
          ((unfold source_of in (refl, p.0, p.1)), h)

  -- Whatever the file holds, what is read from it is stored that way again.
  pub read-IsStored : (file : Option Text) → All IsStored (read net file)
  unfolding read
  read-IsStored none = tt
  read-IsStored (some content) = read_lines-IsStored (split b'\n' content)

  module _ (law : IsUrlParser net) where
    parse_line-enabled :
        (u : Text) → is_https net u ≡ true → IsTrimmed u → parse_line net u ≡ some (u, true)
    unfolding parse_line
    parse_line-enabled u e t = rw (t, law.not_empty u e, law.no_hash u e, e) refl

    trim_disabled :
        (u : Text)
        → is_empty u ≡ false
        → IsTrimmed u
        → trim_space (b'#' ∷ b' ' ∷ u) ≡ b'#' ∷ b' ' ∷ u
    trim_disabled u e t =
        trim_space_lem (b'#' ∷ b' ' ∷ u)
        ∙ unfold trim_left is_space trim_right in rw (IsTrimmed-trim_right u t, e) refl

    trim_space-space : (u : Text) → IsTrimmed u → trim_space (b' ' ∷ u) ≡ u
    trim_space-space u t =
        trim_space_lem (b' ' ∷ u)
        ∙ unfold trim_left is_space in
          (ap trim_right (IsTrimmed-trim_left u t) ∙ IsTrimmed-trim_right u t)

    parse_line-disabled :
        (u : Text)
        → is_https net u ≡ true
        → IsTrimmed u
        → parse_line net (codes "# " ++ u) ≡ some (u, false)
    unfolding parse_line
    parse_line-disabled u e t =
        rw (trim_disabled u (law.not_empty u e) t)
          (unfold is_empty has_prefix trim_prefix in rw (trim_space-space u t, e) refl)

    parse_line-stored :
        (u : Text) (enabled : Bool)
        → is_https net u ≡ true
        → IsTrimmed u
        → parse_line net ((if enabled then [] else codes "# ") ++ u) ≡ some (u, enabled)
    parse_line-stored u true e t = parse_line-enabled u e t
    parse_line-stored u false e t = parse_line-disabled u e t

    Lacks-line :
        (u : Text) (enabled : Bool)
        → Lacks b'\n' u
        → Lacks b'\n' ((if enabled then [] else codes "# ") ++ u)
    Lacks-line u true h = h
    Lacks-line u false h = (refl, (refl, h))

    read_lines-source :
        (line u : Text) (enabled : Bool) (lines : List Text)
        → parse_line net line ≡ some (u, enabled)
        → read_lines net (line ∷ lines) ≡ source_of net u enabled ∷ read_lines net lines
    unfolding read_lines
    read_lines-source line u enabled lines e = rw (e, read_lines) refl

    -- The sources of a file that was just written are those that were written, in their order.
    pub read-render :
        (sources : List Source)
        → All IsStored sources
        → read net (some (render net sources)) ≡ sources
    unfolding read render
    read-render [] h = unfold split read_lines parse_line is_empty trim_space trim_left in refl
    read-render (s ∷ sources) ((same, e, t), h) =
        let prefix = if s.enabled then [] else codes "# " in
        ap (λ x. read_lines net (split b'\n' x))
          (sym (append_assoc prefix s.url (b'\n' ∷ render net sources)))
        ∙ (ap (read_lines net) (
              split-line b'\n' (prefix ++ s.url) (render net sources)
                (Lacks-line s.url s.enabled (law.no_newline s.url e)))
            ∙ (read_lines-source (prefix ++ s.url) s.url s.enabled
                  (split b'\n' (render net sources)) (parse_line-stored s.url s.enabled e t)
                ∙ (ap (λ x. source_of net s.url s.enabled ∷ x) (read-render sources h)
                    ∙ ap (λ x. x ∷ sources) (sym same))))
