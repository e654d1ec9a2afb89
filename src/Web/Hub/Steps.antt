-- ===== src/Web/Hub/Steps.antt =====
-- The hub under any interleaving of its operations.
use mathlib.Core.Path.{subst}
use sub_manager_vpn.Base.{
  refl, [], ◌∷◌, ◌∙◌, ==_iff, ◌+◌, sym, if◌then◌else◌, All-map, ◌<◌, true, false, All, some, List,
  Bool, ◌==◌, ◌≡◌, ℕ, arith,
}
use mathlib.Core.Option.{some-injective}
use sub_manager_vpn.Web.Hub.{
  receive, publish, unsubscribe, new_hub, Event, subscribe, received, Hub, Channel, with_channel,
  new_channel,
}
use sub_manager_vpn.Web.Hub.Open.{listens, IsUnique, IsOpen}
use sub_manager_vpn.Web.Hub.Delivered.{IsDelivered, publish-Result}
use sub_manager_vpn.Web.Hub.Detached.{IsDetached, unsubscribe-Result}

-- One operation, by any client or publisher, that did not panic.
pub data Step : Hub → Hub → Type 0 where
  subscribed : {h : Hub} → Step h (subscribe h).1
  unsubscribed : {h g : Hub} (ch : ℕ) → unsubscribe ch h ≡ some g → Step h g
  published : {h g : Hub} (e : Event) → publish e h ≡ some g → Step h g
  delivered : {h : Hub} (ch : ℕ) → Step h (receive ch h)

pub data Reachable : Hub → Type 0 where
  start : Reachable new_hub
  step : {h g : Hub} → Reachable h → Step h g → Reachable g

-- A new channel is no subscriber's.
listens-new :
    (next : ℕ) (channels : ℕ → Channel) (subs : List ℕ)
    → All (λ s. (s < next) × ((channels s).closed ≡ false)) subs
    → listens next subs ≡ false
listens-new next channels [] a = refl
listens-new next channels (s ∷ subs) ((old, k), a) =
    ground (arith, listens-new next channels subs a)

IsOpen-subscribe : (h : Hub) → IsOpen h → IsOpen (subscribe h).1
unfolding subscribe
IsOpen-subscribe h (a, u) = (
  (
    (omega arith, let same : (h.next == h.next) ≡ true = ground arith in rw same refl),
    All-map (λ s. (s < h.next) × ((h.channels s).closed ≡ false))
        (λ s. (s < h.next + 1) × ((with_channel h.next new_channel h.channels s).closed ≡ false))
        (λ s (old, k).
          let other : (s == h.next) ≡ false = ground arith in (omega arith, rw other k))
        h.subs a,
  ),
  (listens-new h.next h.channels h.subs a, u),
)

IsOpen-receive : (ch : ℕ) (h : Hub) → IsOpen h → IsOpen (receive ch h)
unfolding receive received
IsOpen-receive ch h (a, u) = (
  All-map (λ s. (s < h.next) × ((h.channels s).closed ≡ false))
      (λ s.
        (s < h.next) × ((with_channel ch (received (h.channels ch)) h.channels s).closed ≡ false))
      (λ s (old, k). (old, at s (s == ch) refl k)) h.subs a,
  u,
)
  where
    at :
        (s : ℕ) (b : Bool)
        → (s == ch) ≡ b
        → (h.channels s).closed ≡ false
        → (if b then received (h.channels ch) else h.channels s).closed ≡ false
    at s true m k = subst (λ x. (h.channels x).closed ≡ false) ((==_iff s ch).0 m) k
    at s false m k = k

IsOpen-publish : (e : Event) (h g : Hub) → IsOpen h → publish e h ≡ some g → IsOpen g
IsOpen-publish e h g (a, u) p =
    let (k, done, subs, next, each) = publish-Result e h (a, u) in
    subst IsOpen (some-injective _ _ (sym done ∙ p)) (
      subst (λ xs. All (λ s. (s < k.next) × ((k.channels s).closed ≡ false)) xs × IsUnique xs)
        (sym subs)
        (
          All-map (λ s. (s < h.next) × ((h.channels s).closed ≡ false))
              (λ s. (s < k.next) × ((k.channels s).closed ≡ false))
              (λ s (old, free). (rw next old, (each s).0 ∙ free)) h.subs a,
          u,
        ))

IsOpen-unsubscribe : (ch : ℕ) (h g : Hub) → IsOpen h → unsubscribe ch h ≡ some g → IsOpen g
IsOpen-unsubscribe ch h g v p =
    let (k, done, free, rest) = unsubscribe-Result ch h v in
    subst IsOpen (some-injective _ _ (sym done ∙ p)) free

Reachable-IsOpen : {h : Hub} → Reachable h → IsOpen h
Reachable-IsOpen start = (tt, tt)
Reachable-IsOpen (step r (subscribed {h})) = IsOpen-subscribe h (Reachable-IsOpen r)
Reachable-IsOpen (step r (unsubscribed {h} {g} ch e)) =
    IsOpen-unsubscribe ch h g (Reachable-IsOpen r) e
Reachable-IsOpen (step r (published {h} {g} e p)) = IsOpen-publish e h g (Reachable-IsOpen r) p
Reachable-IsOpen (step r (delivered {h} ch)) = IsOpen-receive ch h (Reachable-IsOpen r)

-- However clients and publishers interleave, publishing never sends on a closed channel. It gives the
-- event to exactly the subscribers with fewer than 16 waiting events, as their last, and leaves the
-- subscribers, all other channels and what is closed as they were.
pub publish-IsDelivered :
    {h : Hub} (r : Reachable h) (e : Event)
    → (g : Hub) × (publish e h ≡ some g)
      × (g.subs ≡ h.subs)
      × ((c : ℕ) → IsDelivered e (listens c h.subs) (h.channels c) (g.channels c))
publish-IsDelivered {h} r e =
    let (g, done, subs, next, each) = publish-Result e h (Reachable-IsOpen r) in
    (g, done, subs, each)

-- However clients and publishers interleave, the function that a subscription returned never closes
-- a closed channel, also when it is called twice. It takes its channel out of the subscribers and
-- closes it if it was one of them, and no other.
pub unsubscribe-IsDetached :
    {h : Hub} (r : Reachable h) (ch : ℕ)
    → (g : Hub) × (unsubscribe ch h ≡ some g) × IsDetached ch h g
unsubscribe-IsDetached {h} r ch =
    let (g, done, free, rest) = unsubscribe-Result ch h (Reachable-IsOpen r) in (g, done, rest)
