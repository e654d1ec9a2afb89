-- ===== src/Registry/Refined.antt =====
-- The registry against the whitelist.
use mathlib.Core.Path.{subst}
use sub_manager_vpn.Registry.Views.{
  any-pair, map-append_pair, any-id, filter-id, set_first-pair, view, pair_of,
}
use sub_manager_vpn.Base.Strings.Trim.{trim_space-IsTrimmed, IsTrimmed}
use sub_manager_vpn.Base.{
  refl, has_prefix, any, is_empty, All-append, ◌+◌, ◌||◌, ℕ, All-filter, ◌&&◌, trim_space,
  if◌then◌else◌, [], ◌∷◌, ◌∙◌, text_eq, arith, ap, not, false, ◌++◌, ◌≡◌, filter, All, true, map,
  Bool, Text, Option, List,
}
use sub_manager_vpn.Registry.{
  normalize_source_url, hash_sign, is_refused_host, is_https, source_of, set_first, read,
  replace_all, Source, set_enabled, remove_source, write, add_source, accept_all,
}
use sub_manager_vpn.Registry.Spec.{
  switch_first, Whitelist, replaces, switches, removes, adds, addresses, promised, Call, step,
}
use sub_manager_vpn.Registry.File.{read-IsStored, read-render, IsStored, IsUrlParser}
use sub_manager_vpn.Net.{Network}

module _ (net : Network) where
  -- A call that fails, for whatever reason, leaves the file as it was.
  pub step_failed :
      (writable : Bool) (c : Call) (file : Option Text)
      → (step net writable c file).0 ≡ false
      → (step net writable c file).1 ≡ file
  unfolding step add_source remove_source set_enabled replace_all write
  step_failed writable (adds url) file h = ground arith
  step_failed writable (removes id) file h = ground arith
  step_failed writable (switches id enabled) file h = ground arith
  step_failed writable (replaces lines) file h = ground arith

  -- The call does what it promises, where the file can be written.
  abbrev pub Refines : Call → Option Text → Type 0
  Refines c file =
      ((step net true c file).0 ≡ (promised net c (view net file)).0)
      × (view net (step net true c file).1 ≡ (promised net c (view net file)).1)

  -- A call's own hypothesis: an address to add has no spaces at its ends.
  abbrev pub IsTrimmedCall : Call → Type 0
  IsTrimmedCall (adds url) = IsTrimmed url
  IsTrimmedCall (removes id) = Unit
  IsTrimmedCall (switches id enabled) = Unit
  IsTrimmedCall (replaces lines) = Unit

  module _ (law : IsUrlParser net) where
    written :
        (ss : List Source) (file : Option Text)
        → All (IsStored net) ss
        → ((write net true ss file).0 ≡ true)
          × (view net (write net true ss file).1 ≡ map pair_of ss)
    unfolding write
    written ss file h = (refl, ap (map pair_of) (read-render net law ss h))

    accept_all-addresses :
        (lines : List Text)
        → (map pair_of (accept_all net lines).0 ≡ addresses net lines)
          × All (IsStored net) (accept_all net lines).0
    unfolding accept_all addresses
    accept_all-addresses [] = (refl, tt)
    accept_all-addresses (line ∷ lines) =
        go (is_empty url) refl (has_prefix url hash_sign) refl (is_https net url) refl
          (accept_all-addresses lines)
      where
        url : Text
        url = trim_space line

        rest : List Source × ℕ
        rest = accept_all net lines

        chosen : Bool → Bool → Bool → List Source × ℕ
        chosen a b c =
            if a || b
            then rest
            else if not c
            then (rest.0, rest.1 + 1)
            else (source_of net url true ∷ rest.0, rest.1)

        go :
            (a : Bool)
            → is_empty url ≡ a
            → (b : Bool) → has_prefix url hash_sign ≡ b
            → (c : Bool) → is_https net url ≡ c
            → (map pair_of rest.0 ≡ addresses net lines) × All (IsStored net) rest.0
            → (map pair_of (chosen a b c).0
                ≡ (if c then (url, true) ∷ addresses net lines else addresses net lines))
              × All (IsStored net) (chosen a b c).0
        go true ea b eb true ec h = absurd (let x = law.not_empty url ec in ground arith)
        go true ea b eb false ec h = h
        go false ea true eb true ec h = absurd (let x = law.no_hash url ec in ground arith)
        go false ea true eb false ec h = h
        go false ea false eb false ec h = h
        go false ea false eb true ec (r, s) = (
          unfold source_of in ap (λ x. (url, true) ∷ x) r,
          (unfold source_of in (refl, ec, trim_space-IsTrimmed line), s),
        )

    adds-Refines : (url : Text) (file : Option Text) → IsTrimmed url → Refines (adds url) file
    unfolding step promised add_source
    adds-Refines url file t =
        subst
          (λ b.
            ((add_source net true url file).0
              ≡ (after (is_https net url) (is_refused_host net url) b).0)
            × (view net (add_source net true url file).1
                ≡ (after (is_https net url) (is_refused_host net url) b).1))
          (any-pair net (λ u. text_eq (normalize_source_url net u) (normalize_source_url net url))
            (read net file))
          (go (is_https net url) refl (is_refused_host net url) (
            any (λ s. text_eq (normalize_source_url net s.url) (normalize_source_url net url))
              (read net file)))
      where
        grown : List Source
        grown = read net file ++ source_of net url true ∷ []

        after : Bool → Bool → Bool → Bool × Whitelist
        after a b c =
            if a && (not b && not c)
            then (true, view net file ++ (url, true) ∷ [])
            else (false, view net file)

        before : Bool → Bool → Bool → Bool × Option Text
        before a b c =
            if not a
            then (false, file)
            else if b
            then (false, file)
            else if c
            then (false, file)
            else write net true grown file

        go :
            (a : Bool)
            → is_https net url ≡ a
            → (b c : Bool)
            → ((before a b c).0 ≡ (after a b c).0) × (view net (before a b c).1 ≡ (after a b c).1)
        go false e b c = (refl, refl)
        go true e true c = (refl, refl)
        go true e false true = (refl, refl)
        go true e false false =
            let stored : All (IsStored net) grown =
              All-append (IsStored net) (read net file) (source_of net url true ∷ [])
                (read-IsStored net file) (unfold source_of in (refl, e, t), tt) in
            let w = written grown file stored in
            (
              w.0,
              w.1
                  ∙ (map-append_pair net (read net file) (source_of net url true ∷ [])
                      ∙ unfold source_of in refl),
            )

    removes-Refines : (id : Text) (file : Option Text) → Refines (removes id) file
    unfolding step promised remove_source
    removes-Refines id file =
        subst
          (λ b.
            ((remove_source net true id file).0 ≡ (after b).0)
            × (view net (remove_source net true id file).1 ≡ (after b).1))
          (any-id net id (read net file) (read-IsStored net file))
          (go (any (λ s. text_eq s.id id) (read net file)))
      where
        kept : List Source
        kept = filter (λ s. not (text_eq s.id id)) (read net file)

        after : Bool → Bool × Whitelist
        after b =
            if b
            then (true, filter (λ p. not (text_eq p.0 id)) (view net file))
            else (false, view net file)

        before : Bool → Bool × Option Text
        before b = if not b then (false, file) else write net true kept file

        go : (b : Bool) → ((before b).0 ≡ (after b).0) × (view net (before b).1 ≡ (after b).1)
        go false = (refl, refl)
        go true =
            let w =
              written kept file
                (All-filter (IsStored net) _ (read net file) (read-IsStored net file)) in
            (w.0, w.1 ∙ filter-id net id (read net file) (read-IsStored net file))

    switches-Refines :
        (id : Text) (enabled : Bool) (file : Option Text) → Refines (switches id enabled) file
    unfolding step promised set_enabled
    switches-Refines id enabled file =
        subst
          (λ b.
            ((set_enabled net true id enabled file).0 ≡ (after b).0)
            × (view net (set_enabled net true id enabled file).1 ≡ (after b).1))
          (any-id net id (read net file) (read-IsStored net file))
          (go (any (λ s. text_eq s.id id) (read net file)))
      where
        changed : List Source
        changed = set_first net id enabled (read net file)

        after : Bool → Bool × Whitelist
        after b =
            if b
            then (true, switch_first net id enabled (view net file))
            else (false, view net file)

        before : Bool → Bool × Option Text
        before b = if not b then (false, file) else write net true changed file

        go : (b : Bool) → ((before b).0 ≡ (after b).0) × (view net (before b).1 ≡ (after b).1)
        go false = (refl, refl)
        go true =
            let p = set_first-pair net id enabled (read net file) (read-IsStored net file) in
            let w = written changed file p.1 in (w.0, w.1 ∙ p.0)

    -- With a URL parser that takes only what net/url documents as URLs, and a file that can be
    -- written, every call on the registry does to the ordered list of addresses with their switches
    -- exactly what it promises, and succeeds exactly when it promises to: adding needs an https
    -- address whose host is no literal address that is not public and that no listed one equals in
    -- its normal form; removing and switching need a listed address; replacing keeps the lines that
    -- are https addresses. An address to add must have no space at its ends.
    pub step-Refines : (c : Call) (file : Option Text) → IsTrimmedCall c → Refines c file
    step-Refines (adds url) file t = adds-Refines url file t
    step-Refines (removes id) file t = removes-Refines id file
    step-Refines (switches id enabled) file t = switches-Refines id enabled file
    step-Refines (replaces lines) file t =
        let a = accept_all-addresses lines in
        let w = written (accept_all net lines).0 file a.1 in
        unfold step promised replace_all in (w.0, w.1 ∙ a.0)
