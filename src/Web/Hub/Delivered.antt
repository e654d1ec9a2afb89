-- ===== src/Web/Hub/Delivered.antt =====
-- What `Publish` does to each channel.
use mathlib.Core.Path.{subst}
use sub_manager_vpn.Base.{
  ◌≤◌, sym, ltb_false→le, ◌⊎◌, refl, ltb→lt, none, arith, [], ==_iff, ◌∷◌, ◌∙◌, if◌then◌else◌, ap,
  ◌++◌, ltb, inr, inl, All-map, ◌==◌, ◌<◌, some, length, false, All, ◌≡◌, ℕ, true, List, Bool,
}
use sub_manager_vpn.Web.Hub.{publish, Event, offer, offer_all, Hub, Channel, with_channel}
use sub_manager_vpn.Web.Hub.Open.{listens, IsUnique, IsOpen}

-- What becomes of a channel: a subscriber with room gets the event last, any other keeps what it has.
abbrev pub IsDelivered : Event → Bool → Channel → Channel → Type 0
IsDelivered e listening old new =
    (new.closed ≡ old.closed)
    × (((listening ≡ true) × (length old.queue < 16) × (new.queue ≡ old.queue ++ e ∷ []))
        ⊎ (((listening ≡ false) ⊎ (16 ≤ length old.queue)) × (new.queue ≡ old.queue)))

offer-IsDelivered :
    (e : Event) (c : Channel)
    → c.closed ≡ false
    → (d : Channel) × (offer e c ≡ some d) × IsDelivered e true c d
unfolding offer
offer-IsDelivered e c h = go (ltb (length c.queue) 16) refl
  where
    go :
        (b : Bool)
        → ltb (length c.queue) 16 ≡ b
        → (d : Channel) × ((if c.closed
              then none
              else some (if b then record c { queue = c.queue ++ e ∷ [] } else c))
            ≡ some d)
          × IsDelivered e true c d
    go true l =
        (record c { queue = c.queue ++ e ∷ [] }, rw h refl, (refl, inl (refl, ltb→lt _ _ l, refl)))
    go false l = (c, rw h refl, (refl, inr (inr (ltb_false→le _ _ l), refl)))

-- A channel that the rest of the loop leaves alone.
IsDelivered-keep :
    (e : Event) (old mid new : Channel)
    → IsDelivered e true old mid
    → IsDelivered e false mid new
    → IsDelivered e true old new
IsDelivered-keep e old mid new (c, inl (t, l, q)) (d, inr (u, r)) = (d ∙ c, inl (t, l, r ∙ q))
IsDelivered-keep e old mid new (c, inr (l, q)) (d, inr (u, r)) = (d ∙ c, inr (l, r ∙ q))
IsDelivered-keep e old mid new p (d, inl (t, l, q)) = absurd (cc)

-- Other subscribers than the first.
listens-other :
    (s c : ℕ) (subs : List ℕ)
    → listens s subs ≡ false
    → (P : ℕ → Type 0) → All P subs
    → All (λ t. ((t == s) ≡ false) × P t) subs
listens-other s c [] u P h = tt
listens-other s c (t ∷ subs) u P (ht, h) =
    ((ground arith, ht), listens-other s c subs (ground arith) P h)

offer_all-IsDelivered :
    (e : Event) (subs : List ℕ) (channels : ℕ → Channel)
    → All (λ s. (channels s).closed ≡ false) subs
    → IsUnique subs
    → (after : ℕ → Channel) × (offer_all e subs channels ≡ some after)
      × ((c : ℕ) → IsDelivered e (listens c subs) (channels c) (after c))
unfolding offer_all
offer_all-IsDelivered e [] channels a u = (channels, refl, λ c. (refl, inr (inl refl, refl)))
offer_all-IsDelivered e (s ∷ subs) channels (free, a) (alone, u) =
    let (d, sent, got) = offer-IsDelivered e (channels s) free in
    let mid : ℕ → Channel = with_channel s d channels in
    let still : All (λ t. (mid t).closed ≡ false) subs =
      All-map (λ t. ((t == s) ≡ false) × ((channels t).closed ≡ false))
        (λ t. (mid t).closed ≡ false) (λ t (other, k). rw other k) subs
        (listens-other s s subs alone (λ t. (channels t).closed ≡ false) a) in
    let (after, done, each) = offer_all-IsDelivered e subs mid still u in
    (
      after,
      ap (λ o. elim o [ none ↦ none | some c ↦ offer_all e subs (with_channel s c channels) ]) sent
          ∙ done,
      λ c. at alone c d got after (each c) (c == s) refl,
    )
  where
    at :
        listens s subs ≡ false
        → (c : ℕ) (d : Channel) → IsDelivered e true (channels s) d
        → (after : ℕ → Channel)
        → IsDelivered e (listens c subs) (with_channel s d channels c) (after c)
        → (b : Bool) → (c == s) ≡ b
        → IsDelivered e (listens c (s ∷ subs)) (channels c) (after c)
    at alone c d got after k true m =
        let same : c ≡ s = (==_iff c s).0 m in
        let quiet : listens c subs ≡ false = subst (λ x. listens x subs ≡ false) (sym same) alone in
        let heard : listens c (s ∷ subs) ≡ true = ground (arith, ==_iff s c, sym same) in
        let last =
          subst (λ b. IsDelivered e (listens c subs) (if b then d else channels c) (after c)) m k in
        subst (λ b. IsDelivered e b (channels c) (after c)) (sym heard)
          (subst (λ o. IsDelivered e true o (after c)) (ap channels (sym same))
            (IsDelivered-keep e (channels s) d (after c) got
              (subst (λ b. IsDelivered e b d (after c)) quiet last)))
    at alone c d got after k false m =
        let heard : listens c subs ≡ listens c (s ∷ subs) =
          ground (arith, ==_iff s c, ==_iff c s) in
        subst (λ b. IsDelivered e b (channels c) (after c)) heard
          (subst (λ b. IsDelivered e (listens c subs) (if b then d else channels c) (after c)) m k)

-- What an offer or a delivery does to a channel that is not closed leaves it not closed.
pub publish-Result :
    (e : Event) (h : Hub)
    → IsOpen h
    → (g : Hub) × (publish e h ≡ some g)
      × (g.subs ≡ h.subs)
      × (g.next ≡ h.next)
      × ((c : ℕ) → IsDelivered e (listens c h.subs) (h.channels c) (g.channels c))
unfolding publish
publish-Result e h (a, u) =
    let (after, done, each) =
      offer_all-IsDelivered e h.subs h.channels
        (All-map (λ s. (s < h.next) × ((h.channels s).closed ≡ false))
          (λ s. (h.channels s).closed ≡ false) (λ s k. k.1) h.subs a)
        u in
    (
      record h { channels = after },
      ap (λ o. elim o [ none ↦ none | some m ↦ some (record h { channels = m }) ]) done,
      refl,
      refl,
      each,
    )
