-- ===== src/Select/Degrade/Swap.antt =====
-- A replacement is a candidate of the degraded node's country that was not selected.
use mathlib.Core.Path.{subst}
use sub_manager_vpn.Select.Degrade.Best.{best_unselected-BestOf, BestOf}
use sub_manager_vpn.Base.Int.{ℤ}
use sub_manager_vpn.Select.Defs.{
  apply_degrade, degraded, best_unselected, swap_loop, Candidate, replacement,
}
use sub_manager_vpn.Base.Map.{lookup, Map}
use sub_manager_vpn.Base.{
  one_of_head, ◌∙◌, append_assoc, text_eq_sym, sym, one_of_middle, ◌||◌, IsDistinct, ◌++◌,
  text_eq_iff, text_eq, refl, not, if◌then◌else◌, [], ap, Bool, All-map, text_eq_refl, suc, none,
  inr, false, arith, Option, ◌⊎◌, length, inl, Occurs, All, ◌∷◌, true, some, ◌≡◌, ℕ, one_of, map,
  List, Text,
}
use sub_manager_vpn.Node.{Node}

module _ (node_hash : Node → Text) where
  abbrev pub hashes : List Candidate → List Text
  hashes = map (λ c. node_hash c.node)

  -- A result is a selected node or one that was not taken.
  abbrev IsOldOrNew : List Text → List Candidate → Candidate → Type 0
  IsOldOrNew taken selected r =
      (one_of (hashes selected) (node_hash r.node) ≡ true)
      ⊎ (one_of taken (node_hash r.node) ≡ false)

  replacement_free :
      (m : Map Candidate) (cands : List Candidate) (median : ℕ) (degrade_ms : ℤ) (taken : List Text)
      (n b : Candidate)
      → replacement node_hash m cands median degrade_ms taken n ≡ some b
      → Occurs b cands × (one_of taken (node_hash b.node) ≡ false)
  unfolding replacement
  replacement_free m cands median degrade_ms taken n b = go (lookup (node_hash n.node) m)
    where
      found :
          (c : Candidate) (r : Option Candidate)
          → BestOf node_hash c.country taken cands r
          → r ≡ some b
          → Occurs b cands × (one_of taken (node_hash b.node) ≡ false)
      found c none h e = absurd (cc)
      found c (some r) (o, f, a) e =
          let same : r ≡ b = cc in
          (
            subst (λ x. Occurs x cands) same o,
            subst (λ (x : Candidate). one_of taken (node_hash x.node) ≡ false) same f.1,
          )

      tested :
          (c : Candidate) (d : Bool)
          → (if not d then none else best_unselected node_hash cands c.country taken) ≡ some b
          → Occurs b cands × (one_of taken (node_hash b.node) ≡ false)
      tested c false e = absurd (cc)
      tested c true e = found c _ (best_unselected-BestOf node_hash cands c.country taken) e

      go :
          (o : Option Candidate)
          → (elim o as (λ _. Option Candidate) [
            | none ↦ none
            | some c ↦
                if not (degraded median degrade_ms c)
                then none
                else best_unselected node_hash cands c.country taken
          ])
            ≡ some b
          → Occurs b cands × (one_of taken (node_hash b.node) ≡ false)
      go none e = absurd (cc)
      go (some c) e = tested c (degraded median degrade_ms c) e

  module _ (m : Map Candidate) (cands : List Candidate) (median : ℕ) (degrade_ms : ℤ) where
    abbrev swapped : List Text → List Candidate → List Candidate
    swapped = swap_loop node_hash m cands median degrade_ms

    IsOldOrNew-cons :
        (taken : List Text) (n : Candidate) (selected : List Candidate) (r : Candidate)
        → IsOldOrNew taken selected r
        → IsOldOrNew taken (n ∷ selected) r
    unfolding one_of
    IsOldOrNew-cons taken n selected r (inl e) = inl (ground arith)
    IsOldOrNew-cons taken n selected r (inr e) = inr e

    IsOldOrNew-grow :
        (taken : List Text) (b n : Candidate) (selected : List Candidate) (r : Candidate)
        → IsOldOrNew (node_hash b.node ∷ taken) selected r
        → IsOldOrNew taken (n ∷ selected) r
    unfolding one_of
    IsOldOrNew-grow taken b n selected r (inl e) = inl (ground arith)
    IsOldOrNew-grow taken b n selected r (inr e) = inr (ground arith)

    swap_loop-IsOldOrNew :
        (taken : List Text) (selected : List Candidate)
        → All (IsOldOrNew taken selected) (swapped taken selected)
    unfolding swap_loop
    swap_loop-IsOldOrNew taken [] = tt
    swap_loop-IsOldOrNew taken (n ∷ selected) =
        go (replacement node_hash m cands median degrade_ms taken n) refl
          (swap_loop-IsOldOrNew taken selected) (λ t. swap_loop-IsOldOrNew t selected)
      where
        go :
            (o : Option Candidate)
            → replacement node_hash m cands median degrade_ms taken n ≡ o
            → All (IsOldOrNew taken selected) (swapped taken selected)
            → ((t : List Text) → All (IsOldOrNew t selected) (swapped t selected))
            → All (IsOldOrNew taken (n ∷ selected)) (elim o as (λ _. List Candidate) [
              | none ↦ n ∷ swapped taken selected
              | some best ↦ best ∷ swapped (node_hash best.node ∷ taken) selected
            ])
        go none e kept grown = (
          inl (unfold one_of in rw (text_eq_refl (node_hash n.node)) refl),
          All-map _ _ (IsOldOrNew-cons taken n selected) _ kept,
        )
        go (some b) e kept grown = (
          inr ((replacement_free m cands median degrade_ms taken n b e).1),
          All-map _ _ (IsOldOrNew-grow taken b n selected) _ (grown (node_hash b.node ∷ taken)),
        )

    pub length-swap_loop :
        (taken : List Text) (selected : List Candidate)
        → length (swapped taken selected) ≡ length selected
    unfolding swap_loop
    length-swap_loop taken [] = refl
    length-swap_loop taken (n ∷ selected) =
        go (replacement node_hash m cands median degrade_ms taken n)
          (λ t. length-swap_loop t selected)
      where
        go :
            (o : Option Candidate)
            → ((t : List Text) → length (swapped t selected) ≡ length selected)
            → length (elim o as (λ _. List Candidate) [
              | none ↦ n ∷ swapped taken selected
              | some best ↦ best ∷ swapped (node_hash best.node ∷ taken) selected
            ])
              ≡ suc (length selected)
        go none h = ap suc (h taken)
        go (some b) h = ap suc (h (node_hash b.node ∷ taken))

    module _ (k : Text) where
      All-hashes :
          (Q : Candidate → Type 0)
          → ((r : Candidate) → Q r → text_eq k (node_hash r.node) ≡ false)
          → (rs : List Candidate) → All Q rs
          → All (λ j. text_eq k j ≡ false) (hashes rs)
      All-hashes Q f [] h = tt
      All-hashes Q f (r ∷ rs) (hr, h) = (f r hr, All-hashes Q f rs h)

      differs_of_member :
          (ks : List Text) (x : Text)
          → All (λ j. text_eq k j ≡ false) ks
          → one_of ks x ≡ true
          → text_eq k x ≡ false
      unfolding one_of
      differs_of_member [] x h e = absurd (cc)
      differs_of_member (j ∷ ks) x (hj, h) e =
          ground
            (arith, text_eq_iff x j, text_eq_iff k x, text_eq_iff k j, differs_of_member ks x h)

    differs_of_taken :
        (taken : List Text) (j x : Text)
        → one_of taken j ≡ true
        → one_of taken x ≡ false
        → text_eq j x ≡ false
    differs_of_taken taken j x hj hx =
        ground (arith, text_eq_iff j x, ap (one_of taken) {x = j} {y = x})

    taken_member :
        (taken : List Text) (selected : List Candidate) (x : Text)
        → All (λ n. one_of taken (node_hash n.node) ≡ true) selected
        → one_of (hashes selected) x ≡ true
        → one_of taken x ≡ true
    unfolding one_of
    taken_member taken [] x h e = absurd (cc)
    taken_member taken (n ∷ selected) x (hn, h) e =
        go (text_eq x (node_hash n.node)) refl e (taken_member taken selected x h)
      where
        go :
            (b : Bool)
            → text_eq x (node_hash n.node) ≡ b
            → b || one_of (hashes selected) x ≡ true
            → (one_of (hashes selected) x ≡ true → one_of taken x ≡ true)
            → one_of taken x ≡ true
        go true same e f =
            subst (λ (t : Text). one_of taken t ≡ true)
              (sym ((text_eq_iff x (node_hash n.node)).0 same)) hn
        go false other e f = f e

    abbrev AllTaken : List Text → List Candidate → Type 0
    AllTaken taken = All (λ n. one_of taken (node_hash n.node) ≡ true)

    AllTaken-grow :
        (taken : List Text) (k : Text) (selected : List Candidate)
        → AllTaken taken selected
        → AllTaken (k ∷ taken) selected
    unfolding one_of
    AllTaken-grow taken k selected = All-map _ _ (λ n h. ground arith) selected

    swap_loop-IsDistinct :
        (taken : List Text) (selected : List Candidate)
        → AllTaken taken selected
        → IsDistinct (hashes selected)
        → IsDistinct (hashes (swapped taken selected))
    unfolding swap_loop
    swap_loop-IsDistinct taken [] h d = tt
    swap_loop-IsDistinct taken (n ∷ selected) (hn, h) (dn, d) =
        go (replacement node_hash m cands median degrade_ms taken n) refl
          (λ t ht. swap_loop-IsDistinct t selected ht d)
      where
        go :
            (o : Option Candidate)
            → replacement node_hash m cands median degrade_ms taken n ≡ o
            → ((t : List Text) → AllTaken t selected → IsDistinct (hashes (swapped t selected)))
            → IsDistinct (
                hashes (elim o as (λ _. List Candidate) [
                  | none ↦ n ∷ swapped taken selected
                  | some best ↦ best ∷ swapped (node_hash best.node ∷ taken) selected
                ]))
        go none e rest = (
          All-hashes (node_hash n.node) _
              (λ r. elim [
                | inl old ↦ differs_of_member (node_hash n.node) (hashes selected) _ dn old
                | inr new ↦ differs_of_taken taken _ _ hn new
              ])
              _ (swap_loop-IsOldOrNew taken selected),
          rest taken h,
        )
        go (some b) e rest =
            let taken' : List Text = node_hash b.node ∷ taken in
            let fresh = (replacement_free m cands median degrade_ms taken n b e).1 in
            (
              All-hashes (node_hash b.node) _
                  (λ r. elim [
                    | inl old ↦
                        text_eq_sym _ _
                        ∙ differs_of_taken taken _ _ (taken_member taken selected _ h old) fresh
                    | inr new ↦ one_of_head (node_hash b.node) _ taken new
                  ])
                  _ (swap_loop-IsOldOrNew taken' selected),
              rest taken' (AllTaken-grow taken (node_hash b.node) selected h),
            )

  AllTaken-hashes :
      (taken : List Text) (selected : List Candidate)
      → All (λ n. one_of (taken ++ hashes selected) (node_hash n.node) ≡ true) selected
  AllTaken-hashes taken [] = tt
  AllTaken-hashes taken (n ∷ selected) = (
    one_of_middle taken (node_hash n.node) (hashes selected),
    subst (λ ts. All (λ n. one_of ts (node_hash n.node) ≡ true) selected)
        (append_assoc taken (node_hash n.node ∷ []) (hashes selected))
        (AllTaken-hashes (taken ++ node_hash n.node ∷ []) selected),
  )

  -- `applyDegrade` keeps the size of the selection, and where the selected nodes have different
  -- hashes it never returns a node twice.
  pub apply_degrade-IsDistinct :
      (selected cands : List Candidate) (degrade_ms : ℤ)
      → IsDistinct (hashes selected)
      → (length (apply_degrade node_hash selected cands degrade_ms) ≡ length selected)
        × IsDistinct (hashes (apply_degrade node_hash selected cands degrade_ms))
  unfolding apply_degrade
  apply_degrade-IsDistinct [] cands degrade_ms d = (refl, tt)
  apply_degrade-IsDistinct (n ∷ selected) cands degrade_ms d = (
    length-swap_loop _ cands _ degrade_ms _ (n ∷ selected),
    swap_loop-IsDistinct _ cands _ degrade_ms (hashes (n ∷ selected)) (n ∷ selected)
        (AllTaken-hashes [] (n ∷ selected)) d,
  )
