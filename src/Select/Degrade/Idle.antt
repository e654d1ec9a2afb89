-- ===== src/Select/Degrade/Idle.antt =====
-- Where every candidate is selected already, `applyDegrade` has nothing to swap in.
use mathlib.Core.Path.{subst}
use sub_manager_vpn.Base.Sort.Laws.{Occurs-stable_sort, length-stable_sort}
use sub_manager_vpn.Base.Sort.{stable_sort}
use sub_manager_vpn.Select.Groups.{group-select, group}
use sub_manager_vpn.Select.Degrade.Best.{best_unselected-BestOf, BestOf}
use sub_manager_vpn.Base.Int.{ℤ}
use sub_manager_vpn.Base.Map.{lookup, Map}
use sub_manager_vpn.Select.Defs.{
  faster, select, clamp_top_n, replacement, apply_degrade, degraded, best_unselected, swap_loop,
  Candidate,
}
use sub_manager_vpn.Base.{
  ◌∙◌, sym, Occurs-of_filter, take_all, take, text_eq_refl, text_eq, Occurs-filter, not, ◌≤◌,
  if◌then◌else◌, All-of_Occurs, text_eq_iff, length, ap, refl, [], arith, inr, All_at, some, inl,
  ◌∷◌, Option, true, none, ◌≡◌, ℕ, map, Occurs, All, one_of, List, Text,
}
use sub_manager_vpn.Node.{Node}

module _ (node_hash : Node → Text) where
  abbrev hash_of : Candidate → Text
  hash_of c = node_hash c.node

  abbrev AllTaken : List Text → List Candidate → Type 0
  AllTaken taken cands = All (λ c. one_of taken (node_hash c.node) ≡ true) cands

  best_unselected_taken :
      (cands : List Candidate) (country : Text) (taken : List Text)
      → AllTaken taken cands
      → best_unselected node_hash cands country taken ≡ none
  best_unselected_taken cands country taken h =
      go (best_unselected node_hash cands country taken)
        (best_unselected-BestOf node_hash cands country taken)
    where
      go : (r : Option Candidate) → BestOf node_hash country taken cands r → r ≡ none
      go none b = refl
      go (some c) (o, f, a) =
          let t = All_at (λ c. one_of taken (node_hash c.node) ≡ true) c cands h o in cc (f.1)

  module _ (m : Map Candidate) (cands : List Candidate) (median : ℕ) (degrade_ms : ℤ)
      (taken : List Text) (h : AllTaken taken cands) where
    replacement_taken :
        (n : Candidate) → replacement node_hash m cands median degrade_ms taken n ≡ none
    unfolding replacement
    replacement_taken n = go (lookup (node_hash n.node) m)
      where
        go :
            (o : Option Candidate)
            → (elim o as (λ _. Option Candidate) [
              | none ↦ none
              | some c ↦
                  if not (degraded median degrade_ms c)
                  then none
                  else best_unselected node_hash cands c.country taken
            ])
              ≡ none
        go none = refl
        go (some c) = ground (arith, best_unselected_taken cands c.country taken h)

    swap_loop_taken :
        (selected : List Candidate)
        → swap_loop node_hash m cands median degrade_ms taken selected ≡ selected
    unfolding swap_loop
    swap_loop_taken [] = refl
    swap_loop_taken (n ∷ selected) =
        rw (replacement_taken n, swap_loop) (ap (λ r. n ∷ r) (swap_loop_taken selected))

  taken_of_Occurs :
      (c : Candidate) (selected : List Candidate)
      → Occurs c selected
      → one_of (map (λ c. node_hash c.node) selected) (node_hash c.node) ≡ true
  unfolding one_of
  taken_of_Occurs c [] o = absurd o
  taken_of_Occurs c (n ∷ selected) (inl e) =
      let same =
        (text_eq_iff (node_hash c.node) (node_hash n.node)).1
          (ap (λ (c : Candidate). node_hash c.node) e) in
      rw same refl
  taken_of_Occurs c (n ∷ selected) (inr o) = ground (arith, taken_of_Occurs c selected o)

  apply_degrade_taken :
      (selected cands : List Candidate) (degrade_ms : ℤ)
      → ((c : Candidate) → Occurs c cands → Occurs c selected)
      → apply_degrade node_hash selected cands degrade_ms ≡ selected
  unfolding apply_degrade
  apply_degrade_taken [] cands degrade_ms h = refl
  apply_degrade_taken (n ∷ selected) cands degrade_ms h =
      swap_loop_taken _ cands _ degrade_ms _
        (All-of_Occurs _ cands (λ c o. taken_of_Occurs c (n ∷ selected) (h c o))) (n ∷ selected)

  -- `Select` leaves nothing behind where no country has more candidates than it may take.
  select_all :
      (cands : List Candidate) (top_n : ℤ)
      → ((k : Text) → length (group k cands) ≤ clamp_top_n top_n)
      → (c : Candidate) → Occurs c cands
      → Occurs c (select cands top_n)
  unfolding group
  select_all cands top_n few c o =
      let k = c.country in
      let in_group : Occurs c (group k cands) =
        Occurs-filter (λ c. text_eq c.country k) c cands (text_eq_refl k) o in
      let whole : take (clamp_top_n top_n) (stable_sort faster (group k cands))
          ≡ stable_sort faster (group k cands) =
        take_all _ _ (omega (arith, few k, length-stable_sort faster (group k cands))) in
      Occurs-of_filter (λ c. text_eq c.country k) c (select cands top_n)
        (subst (Occurs c) (sym (group-select cands top_n k ∙ whole))
          (Occurs-stable_sort faster c (group k cands) in_group))

  -- If no country has more candidates than `Select` may take, `applyDegrade` changes nothing,
  -- however slow the selected nodes are.
  pub apply_degrade-select :
      (cands : List Candidate) (top_n degrade_ms : ℤ)
      → ((k : Text) → length (group k cands) ≤ clamp_top_n top_n)
      → apply_degrade node_hash (select cands top_n) cands degrade_ms ≡ select cands top_n
  apply_degrade-select cands top_n degrade_ms few =
      apply_degrade_taken (select cands top_n) cands degrade_ms (select_all cands top_n few)
