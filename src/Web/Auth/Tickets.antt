-- ===== src/Web/Auth/Tickets.antt =====
-- How often a ticket opens the stream.
use sub_manager_vpn.Base.{text_eq_iff, refl, ◌*◌, ◌≡◌, ◌∷◌, []}
use sub_manager_vpn.Base.Map.{lookup-insert, lookup-delete, insert, delete, lookup}
use sub_manager_vpn.Web.Auth.{second, prune, Tickets, new_ticket, consume_ticket}
use sub_manager_vpn.Base.{
  arith, text_eq, none, [], ◌+◌, ◌&&◌, ◌≤◌, some, if◌then◌else◌, ℕ, List, Text,
}

-- A ticket is handed out, or one is shown, at a time.
pub data TicketEvent : Type 0 where
  issued redeemed : Text → ℕ → TicketEvent

-- The times a ticket was handed out
unfoldable pub times_issued : Text → List TicketEvent → ℕ
times_issued t [] = 0
times_issued t (issued r now ∷ events) = (if text_eq r t then 1 else 0) + times_issued t events
times_issued t (redeemed r now ∷ events) = times_issued t events

-- The times a ticket was accepted when the events happen one after the other
unfoldable pub times_accepted : Text → List TicketEvent → Tickets → ℕ
times_accepted t [] tickets = 0
times_accepted t (issued r now ∷ events) tickets =
    times_accepted t events (new_ticket (some r) [] now tickets).1
times_accepted t (redeemed r now ∷ events) tickets =
    let used = consume_ticket r now tickets in
    (if used.0 && text_eq r t then 1 else 0) + times_accepted t events used.1

unfoldable pub holds : Text → Tickets → ℕ
holds t tickets = elim (lookup t tickets) [ none ↦ 0 | some end ↦ 1 ]

holds_lem :
    (t : Text) (tickets : Tickets)
    → holds t tickets ≡ elim (lookup t tickets) [ none ↦ 0 | some end ↦ 1 ]
unfolding holds
holds_lem t tickets = refl

holds-prune :
    (t : Text) (now : ℕ) (tickets : Tickets) → holds t (prune now tickets) ≤ holds t tickets
unfolding prune holds lookup
holds-prune t now [] = omega arith
holds-prune t now ((r, end) ∷ tickets) = ground (arith, holds-prune t now tickets)

holds-new_ticket :
    (t r : Text) (now : ℕ) (tickets : Tickets)
    → holds t (new_ticket (some r) [] now tickets).1
      ≤ (if text_eq r t then 1 else 0) + holds t tickets
unfolding new_ticket
holds-new_ticket t r now tickets = ground (
  arith,
  holds_lem t (insert r (now + 30 * second) (prune now tickets)),
  lookup-insert r t (now + 30 * second) (prune now tickets),
  holds_lem t (prune now tickets),
  holds-prune t now tickets,
)

holds-consume_ticket :
    (t r : Text) (now : ℕ) (tickets : Tickets)
    → (if (consume_ticket r now tickets).0 && text_eq r t then 1 else 0)
        + holds t (consume_ticket r now tickets).1
      ≤ holds t tickets
unfolding consume_ticket
holds-consume_ticket t r now tickets = ground (
  arith,
  holds_lem t tickets,
  holds_lem t (delete r tickets),
  lookup-delete r t tickets,
  text_eq_iff r t,
)

accepted_held :
    (t : Text) (events : List TicketEvent) (tickets : Tickets)
    → times_accepted t events tickets ≤ times_issued t events + holds t tickets
unfolding times_accepted times_issued
accepted_held t [] tickets = omega arith
accepted_held t (issued r now ∷ events) tickets =
    let h = holds-new_ticket t r now tickets in
    let ih = accepted_held t events (new_ticket (some r) [] now tickets).1 in omega (arith, h, ih)
accepted_held t (redeemed r now ∷ events) tickets =
    let h = holds-consume_ticket t r now tickets in
    let ih = accepted_held t events (consume_ticket r now tickets).1 in omega (arith, h, ih)

-- From no tickets, in any order of events and at any times, a ticket is accepted at most as often as it
-- was handed out.
pub times_accepted-times_issued :
    (t : Text) (events : List TicketEvent) → times_accepted t events [] ≤ times_issued t events
times_accepted-times_issued t events =
    let h = accepted_held t events [] in
    let none_held : holds t [] ≡ 0 = unfold holds lookup in refl in omega (arith, h, none_held)
