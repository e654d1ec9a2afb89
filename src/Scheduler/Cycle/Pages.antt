-- ===== src/Scheduler/Cycle/Pages.antt =====
-- Which nodes of a page are probed.
use sub_manager_vpn.State.Nodes.{row_node}
use sub_manager_vpn.Scheduler.Cycle.{skip_proto, exclude, rests, excluded, chunk_cands}
use sub_manager_vpn.Scheduler.World.{Config}
use sub_manager_vpn.Node.{Node}
use sub_manager_vpn.Base.{
  inr, All-of_Occurs, inl, ◌⊎◌, to_lower, sym, ap, ◌≢◌, trim_space, text_eq_iff, Occurs-filter,
  All-map, to_upper, one_of, is_empty, Occurs, ◌∙◌, All-filter, arith, All-filter_of, true, refl,
  false, [], ◌∷◌, ◌≡◌, ℕ, not, map, if◌then◌else◌, filter, is_nil, All, Text, List, Bool,
}
use sub_manager_vpn.State.Tables.{Db, NodeRow, Codec}

-- Either what fails a test or, if that is nothing, what passes it: never nothing of something.
is_nil-split :
    (p : NodeRow → Bool) (rows : List NodeRow)
    → is_nil (
        if is_nil (filter (λ r. not (p r)) rows)
        then filter p rows
        else filter (λ r. not (p r)) rows)
      ≡ is_nil rows
is_nil-split p [] = refl
is_nil-split p (r ∷ rows) = go (p r) (is_nil (filter (λ q. not (p q)) rows)) refl
  where
    go :
        (b c : Bool)
        → is_nil (filter (λ q. not (p q)) rows) ≡ c
        → is_nil (
            if is_nil
              (if not b then r ∷ filter (λ q. not (p q)) rows else filter (λ q. not (p q)) rows)
            then if b then r ∷ filter p rows else filter p rows
            else if not b
            then r ∷ filter (λ q. not (p q)) rows
            else filter (λ q. not (p q)) rows)
          ≡ false
    go true true e = rw e refl
    go true false e = rw (e, e) refl
    go false c e = refl

is_nil-map : (f : NodeRow → Node) (rows : List NodeRow) → is_nil (map f rows) ≡ is_nil rows
is_nil-map f [] = refl
is_nil-map f (r ∷ rows) = refl

All-of_rows :
    (f : NodeRow → Node) (P : Node → Type 0) (rows : List NodeRow)
    → All (λ r. P (f r)) rows
    → All P (map f rows)
All-of_rows f P [] h = tt
All-of_rows f P (r ∷ rows) (hr, h) = (hr, All-of_rows f P rows h)

-- None of the listed names, brought into the form `f` gives them, is `t`; those that are then empty
-- do not count.
abbrev pub IsUnlisted : (Text → Text) → List Text → Text → Type 0
IsUnlisted f cs t = All (λ c. is_empty (f c) ≡ false → f c ≢ t) cs

IsUnlisted-of_none :
    (f : Text → Text) (cs : List Text) (t : Text)
    → one_of (filter (λ c. not (is_empty c)) (map f cs)) t ≡ false
    → IsUnlisted f cs t
unfolding one_of
IsUnlisted-of_none f [] t h = tt
IsUnlisted-of_none f (c ∷ cs) t h = go (is_empty (f c)) refl (IsUnlisted-of_none f cs t) h
  where
    kept : List Text
    kept = filter (λ x. not (is_empty x)) (map f cs)

    go :
        (b : Bool)
        → is_empty (f c) ≡ b
        → (one_of kept t ≡ false → IsUnlisted f cs t)
        → one_of (if not b then f c ∷ kept else kept) t ≡ false
        → IsUnlisted f (c ∷ cs) t
    go true e ih k = ((λ full. absurd (ground arith)), ih k)
    go false e ih k =
        ((λ full same. ground (arith, text_eq_iff t (f c), sym same)), ih (ground arith))

one_of-unlisted :
    (f : Text → Text) (cs : List Text) (t : Text)
    → IsUnlisted f cs t
    → one_of (filter (λ c. not (is_empty c)) (map f cs)) t ≡ false
unfolding one_of
one_of-unlisted f [] t h = refl
one_of-unlisted f (c ∷ cs) t (hc, h) = go (is_empty (f c)) refl (one_of-unlisted f cs t h)
  where
    kept : List Text
    kept = filter (λ x. not (is_empty x)) (map f cs)

    go :
        (b : Bool)
        → is_empty (f c) ≡ b
        → one_of kept t ≡ false
        → one_of (if not b then f c ∷ kept else kept) t ≡ false
    go true e ih = ih
    go false e ih = ground (arith, ih, hc e, text_eq_iff t (f c))

module _ (codec : Codec) (norm_name : Node → Text) (config : Config) where
  -- Neither the country that the stored node names nor its protocol is on its list.
  abbrev pub IsAllowed : Node → Type 0
  IsAllowed n =
      IsUnlisted (λ c. to_upper (trim_space c)) config.exclude_countries (to_upper n.country)
      × IsUnlisted (λ p. to_lower (trim_space p)) config.exclude_protocols (to_lower n.protocol)

  IsAllowed-of : (n : Node) → excluded codec norm_name config n ≡ false → IsAllowed n
  unfolding excluded exclude skip_proto
  IsAllowed-of n h = (
    IsUnlisted-of_none (λ c. to_upper (trim_space c)) config.exclude_countries (to_upper n.country)
        (ground arith),
    IsUnlisted-of_none (λ p. to_lower (trim_space p)) config.exclude_protocols (to_lower n.protocol)
        (ground arith),
  )

  excluded-IsAllowed : (n : Node) → IsAllowed n → excluded codec norm_name config n ≡ false
  unfolding excluded exclude skip_proto
  excluded-IsAllowed n (country, proto) = ground (
    arith,
    one_of-unlisted (λ c. to_upper (trim_space c)) config.exclude_countries (to_upper n.country)
        country,
    one_of-unlisted (λ p. to_lower (trim_space p)) config.exclude_protocols (to_lower n.protocol)
        proto,
  )

  -- The rows of a page that are not excluded.
  abbrev pub usable : List NodeRow → List NodeRow
  usable = filter (λ r. not (excluded codec norm_name config (row_node codec r)))

  pub chunk_cands_split :
      (cycle : ℕ) (db : Db) (rows : List NodeRow)
      → All
          (λ n. excluded codec norm_name config n ≡ false)
          (chunk_cands codec norm_name config cycle db rows)
        × (is_nil (chunk_cands codec norm_name config cycle db rows) ≡ is_nil (usable rows))
  unfolding chunk_cands
  chunk_cands_split cycle db rows = (
    All-of_rows (row_node codec) _ _ (go (is_nil fresh)),
    is_nil-map (row_node codec) _ ∙ is_nil-split rest (usable rows),
  )
    where
      rest : NodeRow → Bool
      rest = rests codec norm_name config cycle db

      fresh : List NodeRow
      fresh = filter (λ r. not (rest r)) (usable rows)

      allowed : All (λ r. excluded codec norm_name config (row_node codec r) ≡ false) (usable rows)
      allowed = All-filter_of _ _ (λ r e. ground arith) rows

      go :
          (b : Bool)
          → All
              (λ r. excluded codec norm_name config (row_node codec r) ≡ false)
              (if b then filter rest (usable rows) else fresh)
      go true = All-filter _ rest (usable rows) allowed
      go false = All-filter _ (λ r. not (rest r)) (usable rows) allowed

  -- A usable row makes the usable rows no empty list.
  usable_not_nil :
      (rows : List NodeRow) (r : NodeRow)
      → Occurs r rows
      → IsAllowed (row_node codec r)
      → is_nil (usable rows) ≡ false
  usable_not_nil rows r o h = go (usable rows) (
      Occurs-filter (λ q. not (excluded codec norm_name config (row_node codec q))) r rows
        (ap not (excluded-IsAllowed (row_node codec r) h)) o)
    where
      go : (xs : List NodeRow) → Occurs r xs → is_nil xs ≡ false
      go [] k = absurd k
      go (x ∷ xs) k = refl

  -- Of a page only such nodes are probed whose stored country and protocol are on no list of
  -- exclusions; and either no row of the page has such a node, or some node is probed: the rest that
  -- dead nodes get never silences the page.
  pub chunk_cands_live :
      (cycle : ℕ) (db : Db) (rows : List NodeRow)
      → All IsAllowed (chunk_cands codec norm_name config cycle db rows)
        × (All (λ r. ¬ IsAllowed (row_node codec r)) rows
            ⊎ (is_nil (chunk_cands codec norm_name config cycle db rows) ≡ false))
  chunk_cands_live cycle db rows =
      let split = chunk_cands_split cycle db rows in
      (
        All-map (λ n. excluded codec norm_name config n ≡ false) IsAllowed IsAllowed-of _ split.0,
        go (is_nil (usable rows)) refl split.1,
      )
    where
      go :
          (b : Bool)
          → is_nil (usable rows) ≡ b
          → is_nil (chunk_cands codec norm_name config cycle db rows) ≡ is_nil (usable rows)
          → All (λ r. ¬ IsAllowed (row_node codec r)) rows
            ⊎ (is_nil (chunk_cands codec norm_name config cycle db rows) ≡ false)
      go true e same = inl (
          All-of_Occurs (λ r. ¬ IsAllowed (row_node codec r)) rows
            (λ r o h. let clash : true ≡ false = sym e ∙ usable_not_nil rows r o h in absurd (cc)))
      go false e same = inr (same ∙ e)
