-- ===== src/Web/Examples.antt =====
-- Runs of the web parts and the theorems at concrete states.
use sub_manager_vpn.Web.Hub.Open.{listens}
use sub_manager_vpn.Web.Hub.Detached.{IsDetached}
use sub_manager_vpn.Web.Hub.Delivered.{IsDelivered}
use sub_manager_vpn.Base.Map.{delete, lookup_or, lookup, insert}
use sub_manager_vpn.Web.Auth.Limiter.{times_allowed-bound, IsWithin, times_allowed}
use sub_manager_vpn.Web.Auth.Tickets.{
  TicketEvent, times_accepted-times_issued, redeemed, times_issued, issued, times_accepted,
}
use sub_manager_vpn.Web.Auth.Guarded.{auth-IsAuthorized, IsAuthorized}
use sub_manager_vpn.Web.Auth.{
  handled, has_suffix, consume_ticket, prune, count_fail, bearer_is, valid_token, new_ticket, allow,
  auth, Request, Gate,
}
use sub_manager_vpn.Web.Log.Lines.{write-write}
use sub_manager_vpn.Web.Hub.{unsubscribe, Hub, Event, new_hub, subscribe, publish}
use sub_manager_vpn.Base.{
  some, zero, arith, suc, text_eq, has_prefix, none, ◌≤◌, Text, ℕ, List, is_empty, ◌++◌, ◌≡◌, refl,
  codes, ◌∷◌, [],
}
use sub_manager_vpn.Web.Log.{trim_returns, append, emit, drain, write, LogCapture}
use sub_manager_vpn.Web.Hub.Steps.{
  publish-IsDelivered, unsubscribe-IsDetached, Reachable, subscribed, start, step,
}
use sub_manager_vpn.Web.Log.Recent.{write-IsNewest, IsNewest}

abbrev sample_log : LogCapture
sample_log = record { ring = record { buf = []; size = 2 }; published = []; partial = codes "hel" }

-- A line that two writes bring, and three lines in a ring for two.
write_sample :
    (write (10 ∷ 98 ∷ 10 ∷ 99 ∷ 10 ∷ []) (write (codes "lo") sample_log)).ring.buf
    ≡ codes "b" ∷ codes "c" ∷ []
unfolding write drain emit append trim_returns is_empty
write_sample = refl

write-write_example :
    write (10 ∷ []) (write (codes "lo") sample_log) ≡ write (codes "lo" ++ 10 ∷ []) sample_log
write-write_example = write-write (codes "lo") (10 ∷ []) sample_log

write-IsNewest_example : IsNewest (write (98 ∷ 10 ∷ 99 ∷ 10 ∷ 100 ∷ 10 ∷ []) sample_log)
write-IsNewest_example = write-IsNewest (98 ∷ 10 ∷ 99 ∷ 10 ∷ 100 ∷ 10 ∷ []) sample_log refl

abbrev log_event : Event
log_event = record { kind = codes "log"; payload = [] }

abbrev two_clients : Hub
two_clients = (subscribe (subscribe new_hub).1).1

two_clients-Reachable : Reachable two_clients
two_clients-Reachable = step (step start subscribed) subscribed

publish-IsDelivered_example :
    (g : Hub) × (publish log_event two_clients ≡ some g)
    × (g.subs ≡ two_clients.subs)
    × ((c : ℕ)
        → IsDelivered log_event
            (listens c two_clients.subs)
            (two_clients.channels c)
            (g.channels c))
publish-IsDelivered_example = publish-IsDelivered two_clients-Reachable log_event

unsubscribe-IsDetached_example :
    (g : Hub) × (unsubscribe 1 two_clients ≡ some g) × IsDetached 1 two_clients g
unsubscribe-IsDetached_example = unsubscribe-IsDetached two_clients-Reachable 1

abbrev stream_request : Request
stream_request = record {
  remote_addr = codes "1.2.3.4:5";
  path = codes "/s/api/stream";
  authorization = [];
  token = [];
  ticket = codes "t";
}

abbrev open_gate : Gate
open_gate = record { tickets = (codes "t", 10) ∷ []; limiter = record { fails = []; block = [] } }

auth_sample : (auth (λ a. none) (codes "k") stream_request 5 open_gate).0 ≡ handled
unfolding auth valid_token bearer_is has_prefix has_suffix text_eq is_empty consume_ticket lookup
auth_sample = refl

auth-IsAuthorized_example : IsAuthorized (codes "k") stream_request 5 open_gate.tickets
auth-IsAuthorized_example =
    (auth-IsAuthorized (λ a. none) (codes "k") stream_request 5 open_gate).0 auth_sample

abbrev shown_twice : List TicketEvent
shown_twice = issued (codes "t") 0 ∷ redeemed (codes "t") 1 ∷ redeemed (codes "t") 2 ∷ []

shown_twice_sample : times_accepted (codes "t") shown_twice [] ≡ 1
unfolding times_accepted new_ticket prune insert consume_ticket is_empty lookup delete text_eq
shown_twice_sample = refl

times_accepted-times_issued_example :
    times_accepted (codes "t") shown_twice [] ≤ times_issued (codes "t") shown_twice
times_accepted-times_issued_example = times_accepted-times_issued (codes "t") shown_twice

abbrev repeat_at : ℕ → List (Text × ℕ)
repeat_at zero = []
repeat_at (suc n) = (codes "1.2.3.4", 7) ∷ repeat_at n

repeat_at-IsWithin : (n : ℕ) → IsWithin 0 (repeat_at n)
repeat_at-IsWithin zero = tt
repeat_at-IsWithin (suc n) = ((omega arith, omega arith), repeat_at-IsWithin n)

refused_sample :
    times_allowed (codes "1.2.3.4") (repeat_at 25) (record { fails = []; block = [] }) ≡ 20
unfolding times_allowed allow count_fail lookup lookup_or insert text_eq
refused_sample = refl

times_allowed-bound_example :
    times_allowed (codes "1.2.3.4") (repeat_at 25) (record { fails = []; block = [] }) ≤ 20
times_allowed-bound_example =
    times_allowed-bound 0 (codes "1.2.3.4") (repeat_at 25) (record { fails = []; block = [] })
      (repeat_at-IsWithin 25)
