-- ===== src/State/Results/Newest.antt =====
-- What it means that a row is the newest of its node, and that `LatestResult` finds it.
use mathlib.Core.Path.{subst}
use sub_manager_vpn.Base.{
  [], ◌==◌, All-map, inl, if◌then◌else◌, ◌≢◌, refl, Bool, ◌∷◌, ◌≤◌, some, none, Option, Occurs, All,
  ◌⊎◌, true, false, List, ◌≡◌, ℕ, inr, arith, ◌<◌,
}
use sub_manager_vpn.State.Results.{newer, newest}
use sub_manager_vpn.State.Tables.{ResultRow}

-- `a` is not later than `b`.
abbrev pub IsUpTo : ResultRow → ResultRow → Type 0
IsUpTo a b = (a.cycle_id < b.cycle_id) ⊎ ((a.cycle_id ≡ b.cycle_id) × (a.checked_at ≤ b.checked_at))

abbrev pub IsNewest : ℕ → List ResultRow → ResultRow → Type 0
IsNewest id rows x = Occurs x rows × (x.node_id ≡ id) × All (λ y. y.node_id ≡ id → IsUpTo y x) rows

abbrev pub IsUnknown : ℕ → List ResultRow → Type 0
IsUnknown id rows = All (λ y. y.node_id ≢ id) rows

abbrev IsAnswer : ℕ → List ResultRow → Option ResultRow → Type 0
IsAnswer id rows none = IsUnknown id rows
IsAnswer id rows (some x) = IsNewest id rows x

-- Of two rows the one that `newer` picks is not earlier than both.
upto_newer : (b r : ResultRow) → newer b r ≡ true → IsUpTo r b
unfolding newer
upto_newer b r h = ground arith

upto_older : (b r : ResultRow) → newer b r ≡ false → IsUpTo b r
unfolding newer
upto_older b r h = ground arith

upto_trans : (a b c : ResultRow) → IsUpTo a b → IsUpTo b c → IsUpTo a c
upto_trans a b c h k = ground arith

upto_refl : (a : ResultRow) → IsUpTo a a
upto_refl a = inr (refl, omega arith)

newest-IsAnswer : (id : ℕ) (rows : List ResultRow) → IsAnswer id rows (newest id rows)
unfolding newest
newest-IsAnswer id [] = tt
newest-IsAnswer id (r ∷ rows) = go (r.node_id == id) refl (newest id rows) (newest-IsAnswer id rows)
  where
    best :
        (b : ResultRow)
        → r.node_id ≡ id
        → IsNewest id rows b
        → (t : Bool) → newer b r ≡ t
        → IsNewest id (r ∷ rows) (if t then b else r)
    best b e (o, same, a) true h = (inr o, same, ((λ _. upto_newer b r h), a))
    best b e (o, same, a) false h = (
      inl refl,
      e,
      (
        (λ _. upto_refl r),
        All-map (λ y. y.node_id ≡ id → IsUpTo y b) (λ y. y.node_id ≡ id → IsUpTo y r)
            (λ y k m. upto_trans y b r (k m) (upto_older b r h)) rows a,
      ),
    )

    other : (o : Option ResultRow) → r.node_id ≢ id → IsAnswer id rows o → IsAnswer id (r ∷ rows) o
    other none d h = (d, h)
    other (some x) d (o, same, a) = (inr o, same, ((λ m. absurd (d m)), a))

    go :
        (t : Bool)
        → (r.node_id == id) ≡ t
        → (o : Option ResultRow) → IsAnswer id rows o
        → IsAnswer id
            (r ∷ rows)
            (if t then elim o [ none ↦ some r | some b ↦ some (if newer b r then b else r) ] else o)
    go true e none h =
        let same : r.node_id ≡ id = ground arith in
        (
          inl refl,
          same,
          (
            (λ _. upto_refl r),
            All-map (λ y. y.node_id ≢ id) (λ y. y.node_id ≡ id → IsUpTo y r) (λ y d m. absurd (d m))
                rows h,
          ),
        )
    go true e (some b) h = best b (ground arith) h (newer b r) refl
    go false e o h = other o (λ m. ground arith) h

-- Every result that the node has is no later than the one found, which is one of them.
pub newest-IsNewest :
    (id : ℕ) (rows : List ResultRow) (x : ResultRow) → newest id rows ≡ some x → IsNewest id rows x
newest-IsNewest id rows x h = subst (IsAnswer id rows) h (newest-IsAnswer id rows)

pub newest-IsUnknown : (id : ℕ) (rows : List ResultRow) → newest id rows ≡ none → IsUnknown id rows
newest-IsUnknown id rows h = subst (IsAnswer id rows) h (newest-IsAnswer id rows)
