-- ===== src/Select/Degrade/Best.antt =====
-- `bestUnselected` returns the fastest candidate of the country that is not taken.
use mathlib.Core.Path.{subst}
use sub_manager_vpn.Select.Defs.{faster, best_unselected, Candidate, best_loop}
use sub_manager_vpn.Base.{
  refl, ltb_false→le, ltb→lt, true, text_eq_iff, not, if◌then◌else◌, text_eq, sym, inr, Bool, ◌<◌,
  [], ◌∷◌, none, ◌≤◌, false, arith, ◌⊎◌, one_of, inl, Occurs, ◌≡◌, some, All, Option, List, Text,
}
use sub_manager_vpn.Node.{Node}

module _ (node_hash : Node → Text) where
  -- The candidate may be swapped in.
  abbrev pub IsFree : Text → List Text → Candidate → Type 0
  IsFree country taken c = (c.country ≡ country) × (one_of taken (node_hash c.node) ≡ false)

  abbrev pub BestOf : Text → List Text → List Candidate → Option Candidate → Type 0
  BestOf country taken cands none = All (λ c. ¬ IsFree country taken c) cands
  BestOf country taken cands (some b) =
      Occurs b cands
      × IsFree country taken b
      × All (λ c. IsFree country taken c → b.latency_ms ≤ c.latency_ms) cands

  -- The best so far and what the rest of the loop finds.
  abbrev LoopBest : Text → List Text → List Candidate → Option Candidate → Option Candidate → Type 0
  LoopBest country taken cands none r = BestOf country taken cands r
  LoopBest country taken cands (some b) none = ⊥
  LoopBest country taken cands (some b) (some r) =
      ((r ≡ b) ⊎ Occurs r cands × IsFree country taken r)
      × (r.latency_ms ≤ b.latency_ms)
      × All (λ c. IsFree country taken c → r.latency_ms ≤ c.latency_ms) cands

  module _ (country : Text) (taken : List Text) where
    BestOf-skip :
        (c : Candidate) (cands : List Candidate) (r : Option Candidate)
        → ¬ IsFree country taken c
        → BestOf country taken cands r
        → BestOf country taken (c ∷ cands) r
    BestOf-skip c cands none h b = (h, b)
    BestOf-skip c cands (some r) h (o, f, a) = (inr o, f, (λ fc. absurd (h fc), a))

    BestOf-free :
        (c : Candidate) (cands : List Candidate) (r : Option Candidate)
        → IsFree country taken c
        → LoopBest country taken cands (some c) r
        → BestOf country taken (c ∷ cands) r
    BestOf-free c cands none h l = absurd l
    BestOf-free c cands (some r) h (inl e, le, a) =
        (inl e, subst (IsFree country taken) (sym e) h, (λ _. le, a))
    BestOf-free c cands (some r) h (inr (o, f), le, a) = (inr o, f, (λ _. le, a))

    LoopBest-skip :
        (b c : Candidate) (cands : List Candidate) (r : Option Candidate)
        → (IsFree country taken c → b.latency_ms ≤ c.latency_ms)
        → LoopBest country taken cands (some b) r
        → LoopBest country taken (c ∷ cands) (some b) r
    LoopBest-skip b c cands none h l = l
    LoopBest-skip b c cands (some r) h (inl e, le, a) = (inl e, le, (λ fc. omega (arith, h fc), a))
    LoopBest-skip b c cands (some r) h (inr (o, f), le, a) =
        (inr (inr o, f), le, (λ fc. omega (arith, h fc), a))

    LoopBest-faster :
        (b c : Candidate) (cands : List Candidate) (r : Option Candidate)
        → IsFree country taken c
        → c.latency_ms < b.latency_ms
        → LoopBest country taken cands (some c) r
        → LoopBest country taken (c ∷ cands) (some b) r
    LoopBest-faster b c cands none h lt l = l
    LoopBest-faster b c cands (some r) h lt (inl e, le, a) =
        (inr (inl e, subst (IsFree country taken) (sym e) h), omega arith, (λ _. le, a))
    LoopBest-faster b c cands (some r) h lt (inr (o, f), le, a) =
        (inr (inr o, f), omega arith, (λ _. le, a))

  best_loop_lem :
      (best : Option Candidate) (cands : List Candidate) (country : Text) (taken : List Text)
      → LoopBest country taken cands best (best_loop node_hash best cands country taken)
  unfolding best_loop
  best_loop_lem none [] country taken = tt
  best_loop_lem (some b) [] country taken = (inl refl, omega arith, tt)
  best_loop_lem none (c ∷ cands) country taken =
      go (text_eq c.country country) refl (one_of taken (node_hash c.node)) refl
        (λ o. best_loop_lem o cands country taken)
    where
      go :
          (s : Bool)
          → text_eq c.country country ≡ s
          → (t : Bool) → one_of taken (node_hash c.node) ≡ t
          → ((o : Option Candidate)
              → LoopBest country taken cands o (best_loop node_hash o cands country taken))
          → BestOf country taken (c ∷ cands) (
              best_loop node_hash
                (if not s then none else if t then none else some c)
                cands
                country
                taken)
      go false es t et ih =
          BestOf-skip country taken c cands _
            (λ f. ground (arith, text_eq_iff c.country country, f.0)) (ih none)
      go true es true et ih = BestOf-skip country taken c cands _ (λ f. cc (f.1)) (ih none)
      go true es false et ih =
          BestOf-free country taken c cands _ ((text_eq_iff c.country country).0 es, et)
            (ih (some c))
  best_loop_lem (some b) (c ∷ cands) country taken =
      go (text_eq c.country country) refl (one_of taken (node_hash c.node)) refl (faster c b) refl
        (λ o. best_loop_lem o cands country taken)
    where
      go :
          (s : Bool)
          → text_eq c.country country ≡ s
          → (t : Bool) → one_of taken (node_hash c.node) ≡ t
          → (f : Bool) → faster c b ≡ f
          → ((o : Option Candidate)
              → LoopBest country taken cands o (best_loop node_hash o cands country taken))
          → LoopBest country taken (c ∷ cands) (some b) (
              best_loop node_hash
                (if not s then some b else if t then some b else if f then some c else some b)
                cands
                country
                taken)
      go false es t et f ef ih =
          LoopBest-skip country taken b c cands _
            (λ h. absurd (ground (arith, text_eq_iff c.country country, h.0))) (ih (some b))
      go true es true et f ef ih =
          LoopBest-skip country taken b c cands _ (λ h. absurd (cc (h.1))) (ih (some b))
      go true es false et true ef ih =
          LoopBest-faster country taken b c cands _ ((text_eq_iff c.country country).0 es, et)
            (ltb→lt _ _ ef) (ih (some c))
      go true es false et false ef ih =
          LoopBest-skip country taken b c cands _ (λ _. ltb_false→le _ _ ef) (ih (some b))

  -- `bestUnselected` returns a candidate of the country that is not taken, and none of those is
  -- faster; it returns nothing only where there is no such candidate.
  pub best_unselected-BestOf :
      (cands : List Candidate) (country : Text) (taken : List Text)
      → BestOf country taken cands (best_unselected node_hash cands country taken)
  unfolding best_unselected
  best_unselected-BestOf cands country taken = best_loop_lem none cands country taken
