-- ===== src/Web/Hub/Open.antt =====
-- The subscribers of a hub that can be sent to.
use sub_manager_vpn.Base.{[], false, ◌==◌, ◌≡◌, any, ◌∷◌, Bool, ◌<◌, ℕ, List, All}
use sub_manager_vpn.Web.Hub.{Hub}

-- The channel is a subscriber.
abbrev pub listens : ℕ → List ℕ → Bool
listens c subs = any (λ s. s == c) subs

abbrev pub IsUnique : List ℕ → Type 0
IsUnique [] = Unit
IsUnique (s ∷ subs) = (listens s subs ≡ false) × IsUnique subs

-- A subscribed channel was made, and is not closed.
abbrev pub IsOpen : Hub → Type 0
IsOpen h = All (λ s. (s < h.next) × ((h.channels s).closed ≡ false)) h.subs × IsUnique h.subs
