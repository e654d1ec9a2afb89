-- ===== src/Web/Auth/Limiter.antt =====
-- How many failed attempts are answered in a minute.
use sub_manager_vpn.Base.{
  text_eq_refl, ◌∙◌, text_eq_iff, Option, sym, ltb_false→le, arith, ap, All, true, false, Bool, ◌*◌,
  ◌+◌, text_eq, ◌<◌, ◌≤◌, refl, ◌&&◌, ◌≡◌, ◌∷◌, [],
}
use sub_manager_vpn.Base.Map.{
  lookup_or-insert, lookup-insert, lookup-delete, delete, insert, Map, lookup_or, lookup,
}
use sub_manager_vpn.Web.Auth.{count_fail, second, allow, TokenLimiter}
use sub_manager_vpn.Base.{ltb, if◌then◌else◌, some, ◌-◌, none, List, ℕ, Text}

-- The attempts an address has left in a window that ends at a time.
unfoldable pub attempts_left : ℕ → Text → TokenLimiter → ℕ
attempts_left limit ip l = elim (lookup ip l.block) [
  | none ↦ 20 - lookup_or 0 ip l.fails
  | some end ↦ if ltb end limit then 20 else 0
]

unfoldable pub times_allowed : Text → List (Text × ℕ) → TokenLimiter → ℕ
times_allowed ip [] l = 0
times_allowed ip ((other, now) ∷ attempts) l =
    let r = allow other now l in
    (if r.0 && text_eq other ip then 1 else 0) + times_allowed ip attempts r.1

attempts_left_lem :
    (limit : ℕ) (ip : Text) (l : TokenLimiter)
    → attempts_left limit ip l ≡ elim (lookup ip l.block) [
      | none ↦ 20 - lookup_or 0 ip l.fails
      | some end ↦ if ltb end limit then 20 else 0
    ]
unfolding attempts_left
attempts_left_lem limit ip l = refl

free_after : (other : Text) (m : Map ℕ) → lookup other (delete other m) ≡ none
free_after other m =
    lookup-delete other other m ∙ ap (λ b. if b then none else lookup other m) (text_eq_refl other)

lookup_or-delete :
    (d : ℕ) (k j : Text) (m : Map ℕ)
    → lookup_or d j (delete k m) ≡ (if text_eq k j then d else lookup_or d j m)
unfolding lookup_or
lookup_or-delete d k j m = ground (arith, lookup-delete k j m)

count_fail-attempts_left :
    (start : ℕ) (ip other : Text) (now : ℕ) (l : TokenLimiter)
    → start ≤ now
    → lookup other l.block ≡ none
    → (if (count_fail other now l).0 && text_eq other ip then 1 else 0)
        + attempts_left (start + 60 * second) ip (count_fail other now l).1
      ≤ attempts_left (start + 60 * second) ip l
unfolding count_fail
count_fail-attempts_left start ip other now l a free = go (ltb 20 n) (text_eq other ip) refl refl
  where
    n : ℕ
    n = lookup_or 0 other l.fails + 1

    counted : Map ℕ
    counted = insert other n l.fails

    end : ℕ
    end = start + 60 * second

    same_address :
        other ≡ ip
        → (lookup ip l.block ≡ none) × (lookup_or 0 ip l.fails ≡ lookup_or 0 other l.fails)
    same_address e =
        (ap (λ x. lookup x l.block) (sym e) ∙ free, ap (λ x. lookup_or 0 x l.fails) (sym e))

    out : Bool → Bool × TokenLimiter
    out b =
        if b
        then (false, record { fails = counted; block = insert other (now + 60 * second) l.block })
        else (true, record l { fails = counted })

    go :
        (b e : Bool)
        → ltb 20 n ≡ b
        → text_eq other ip ≡ e
        → (if (out b).0 && e then 1 else 0) + attempts_left end ip (out b).1
          ≤ attempts_left end ip l
    go true true p q = ground (
      arith,
      attempts_left_lem end ip (out true).1,
      lookup-insert other ip (now + 60 * second) l.block,
      q,
      a,
    )
    go true false p q = ground (
      arith,
      attempts_left_lem end ip (out true).1,
      attempts_left_lem end ip l,
      lookup-insert other ip (now + 60 * second) l.block,
      lookup_or-insert 0 other ip n l.fails,
      q,
    )
    go false true p q = ground (
      arith,
      attempts_left_lem end ip (out false).1,
      attempts_left_lem end ip l,
      lookup_or-insert 0 other ip n l.fails,
      same_address ((text_eq_iff other ip).0 q),
      p,
      q,
    )
    go false false p q = ground (
      arith,
      attempts_left_lem end ip (out false).1,
      attempts_left_lem end ip l,
      lookup_or-insert 0 other ip n l.fails,
      q,
    )

expired-attempts_left :
    (limit : ℕ) (ip other : Text) (end : ℕ) (l : TokenLimiter)
    → lookup other l.block ≡ some end
    → end < limit
    → attempts_left limit ip (record { fails = delete other l.fails; block = delete other l.block })
      ≤ attempts_left limit ip l
expired-attempts_left limit ip other end l e b = go (text_eq other ip) refl
  where
    after : TokenLimiter
    after = record { fails = delete other l.fails; block = delete other l.block }

    go : (e : Bool) → text_eq other ip ≡ e → attempts_left limit ip after ≤ attempts_left limit ip l
    go true q = ground (
      arith,
      attempts_left_lem limit ip after,
      attempts_left_lem limit ip l,
      lookup-delete other ip l.block,
      ap (λ x. lookup x l.block) (sym ((text_eq_iff other ip).0 q)) ∙ e,
      q,
      b,
    )
    go false q = ground (
      arith,
      attempts_left_lem limit ip after,
      attempts_left_lem limit ip l,
      lookup-delete other ip l.block,
      lookup_or-delete 0 other ip l.fails,
      q,
    )

allow-attempts_left :
    (start : ℕ) (ip other : Text) (now : ℕ) (l : TokenLimiter)
    → start ≤ now
    → now < start + 60 * second
    → (if (allow other now l).0 && text_eq other ip then 1 else 0)
        + attempts_left (start + 60 * second) ip (allow other now l).1
      ≤ attempts_left (start + 60 * second) ip l
unfolding allow
allow-attempts_left start ip other now l a b = go (lookup other l.block) refl
  where
    end : ℕ
    end = start + 60 * second

    after : TokenLimiter
    after = record { fails = delete other l.fails; block = delete other l.block }

    spent : Bool × TokenLimiter → ℕ
    spent r = (if r.0 && text_eq other ip then 1 else 0) + attempts_left end ip r.1

    blocked :
        (e : ℕ) (c : Bool)
        → lookup other l.block ≡ some e
        → ltb now e ≡ c
        → spent (if c then (false, l) else count_fail other now after) ≤ attempts_left end ip l
    blocked e true f p = omega arith
    blocked e false f p =
        let h = count_fail-attempts_left start ip other now after a (free_after other l.block) in
        let k = expired-attempts_left end ip other e l f (omega (arith, ltb_false→le _ _ p)) in
        omega (arith, h, k)

    go :
        (o : Option ℕ)
        → lookup other l.block ≡ o
        → spent (elim o [
          | none ↦ count_fail other now l
          | some e ↦ if ltb now e then (false, l) else count_fail other now after
        ])
          ≤ attempts_left end ip l
    go none f = count_fail-attempts_left start ip other now l a f
    go (some e) f = blocked e (ltb now e) f refl

abbrev pub IsWithin : ℕ → List (Text × ℕ) → Type 0
IsWithin start attempts = All (λ x. (start ≤ x.1) × (x.1 < start + 60 * second)) attempts

allowed_left :
    (start : ℕ) (ip : Text) (attempts : List (Text × ℕ)) (l : TokenLimiter)
    → IsWithin start attempts
    → times_allowed ip attempts l ≤ attempts_left (start + 60 * second) ip l
unfolding times_allowed
allowed_left start ip [] l h = omega arith
allowed_left start ip ((other, now) ∷ attempts) l ((a, b), h) =
    let step = allow-attempts_left start ip other now l a b in
    let ih = allowed_left start ip attempts (allow other now l).1 h in omega (arith, step, ih)

attempts_left-bound : (limit : ℕ) (ip : Text) (l : TokenLimiter) → attempts_left limit ip l ≤ 20
unfolding attempts_left
attempts_left-bound limit ip l = ground arith

-- Within a minute, whatever happened before it and in whatever order the attempts of all addresses come,
-- an address is answered at most twenty failed attempts; the others are refused.
pub times_allowed-bound :
    (start : ℕ) (ip : Text) (attempts : List (Text × ℕ)) (l : TokenLimiter)
    → IsWithin start attempts
    → times_allowed ip attempts l ≤ 20
times_allowed-bound start ip attempts l h =
    let a = allowed_left start ip attempts l h in
    let b = attempts_left-bound (start + 60 * second) ip l in omega (arith, a, b)
