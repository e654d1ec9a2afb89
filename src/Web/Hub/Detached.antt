-- ===== src/Web/Hub/Detached.antt =====
-- What the function does that `Subscribe` returns.
use mathlib.Core.Path.{subst}
use sub_manager_vpn.Base.{
  refl, [], arith, ◌∷◌, ◌||◌, if◌then◌else◌, All-map, ==_iff, false, Bool, ◌==◌, true, some, not,
  All, ◌<◌, ◌&&◌, ◌≡◌, filter, List, All-filter_with, ℕ,
}
use sub_manager_vpn.Web.Hub.{unsubscribe, close, Hub, Channel, with_channel}
use sub_manager_vpn.Web.Hub.Open.{listens, IsUnique, IsOpen}

listens-filter :
    (c ch : ℕ) (subs : List ℕ)
    → listens c (filter (λ s. not (s == ch)) subs) ≡ (listens c subs && not (c == ch))
listens-filter c ch [] = refl
listens-filter c ch (s ∷ subs) = go (s == ch) refl (listens-filter c ch subs)
  where
    go :
        (b : Bool)
        → (s == ch) ≡ b
        → listens c (filter (λ t. not (t == ch)) subs) ≡ (listens c subs && not (c == ch))
        → listens c (
            if not b
            then s ∷ filter (λ t. not (t == ch)) subs
            else filter (λ t. not (t == ch)) subs)
          ≡ (listens c (s ∷ subs) && not (c == ch))
    go true e ih = ground (arith, ih)
    go false e ih = ground (arith, ih)

listens-open :
    (c next : ℕ) (channels : ℕ → Channel) (subs : List ℕ)
    → All (λ s. (s < next) × ((channels s).closed ≡ false)) subs
    → listens c subs ≡ true
    → (channels c).closed ≡ false
listens-open c next channels [] a l = absurd (cc)
listens-open c next channels (s ∷ subs) ((old, k), ks) l =
    at (s == c) refl (listens-open c next channels subs ks) l
  where
    at :
        (b : Bool)
        → (s == c) ≡ b
        → (listens c subs ≡ true → (channels c).closed ≡ false)
        → (b || listens c subs) ≡ true
        → (channels c).closed ≡ false
    at true m ih j = subst (λ x. (channels x).closed ≡ false) ((==_iff s c).0 m) k
    at false m ih j = ih j

-- What a call of the function that `Subscribe` returned leaves: the channel is no subscriber, the
-- others are what they were, and the channel is closed if it was a subscriber.
abbrev pub IsDetached : ℕ → Hub → Hub → Type 0
IsDetached ch h g =
    ((c : ℕ) → listens c g.subs ≡ (listens c h.subs && not (c == ch)))
    × ((c : ℕ)
        → g.channels c ≡ record (h.channels c) {
          closed = (h.channels c).closed || (c == ch) && listens ch h.subs;
        })

-- The channel is taken out of the subscribers and closed.
detached : ℕ → Hub → Hub
detached ch h = record h {
  subs = filter (λ s. not (s == ch)) h.subs;
  channels = with_channel ch (record (h.channels ch) { closed = true }) h.channels;
}

IsUnique-filter :
    (ch : ℕ) (subs : List ℕ) → IsUnique subs → IsUnique (filter (λ s. not (s == ch)) subs)
IsUnique-filter ch [] u = tt
IsUnique-filter ch (s ∷ subs) (alone, u) = go (s == ch) (IsUnique-filter ch subs u)
  where
    go :
        (b : Bool)
        → IsUnique (filter (λ t. not (t == ch)) subs)
        → IsUnique (
            if not b
            then s ∷ filter (λ t. not (t == ch)) subs
            else filter (λ t. not (t == ch)) subs)
    go true ih = ih
    go false ih = (ground (arith, listens-filter s ch subs), ih)

IsOpen-detached : (ch : ℕ) (h : Hub) → IsOpen h → IsOpen (detached ch h)
unfolding detached
IsOpen-detached ch h (a, u) = (
  All-filter_with (λ s. (s < h.next) × (((detached ch h).channels s).closed ≡ false))
      (λ s. not (s == ch)) h.subs
      (All-map (λ s. (s < h.next) × ((h.channels s).closed ≡ false))
        (λ s. not (s == ch) ≡ true → (s < h.next) × (((detached ch h).channels s).closed ≡ false))
        (λ s (old, c) e. let other : (s == ch) ≡ false = ground arith in (old, rw other c)) h.subs
        a),
  IsUnique-filter ch h.subs u,
)

IsDetached-detached :
    (ch : ℕ) (h : Hub) → listens ch h.subs ≡ true → IsDetached ch h (detached ch h)
unfolding detached
IsDetached-detached ch h l = (λ c. listens-filter c ch h.subs, λ c. at c (c == ch) refl)
  where
    at :
        (c : ℕ) (b : Bool)
        → (c == ch) ≡ b
        → (if b then record (h.channels ch) { closed = true } else h.channels c)
          ≡ record (h.channels c) { closed = (h.channels c).closed || b && listens ch h.subs }
    at c true m = rw ((==_iff c ch).0 m, l) (ground arith)
    at c false m = ground arith

pub unsubscribe-Result :
    (ch : ℕ) (h : Hub)
    → IsOpen h
    → (g : Hub) × (unsubscribe ch h ≡ some g) × IsOpen g × IsDetached ch h g
unfolding unsubscribe close detached
unsubscribe-Result ch h v = go (listens ch h.subs) refl
  where
    go :
        (b : Bool)
        → listens ch h.subs ≡ b
        → (g : Hub) × (unsubscribe ch h ≡ some g) × IsOpen g × IsDetached ch h g
    go true l =
        let free = listens-open ch h.next h.channels h.subs v.0 l in
        (detached ch h, rw (l, free) refl, IsOpen-detached ch h v, IsDetached-detached ch h l)
    go false l = (h, rw l refl, v, (λ c. gone c (c == ch) refl, λ c. rw l (ground arith)))
      where
        gone : (c : ℕ) (b : Bool) → (c == ch) ≡ b → listens c h.subs ≡ (listens c h.subs && not b)
        gone c true m = rw ((==_iff c ch).0 m, l) refl
        gone c false m = ground arith
