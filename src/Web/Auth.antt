-- ===== src/Web/Auth.antt =====
-- internal/web/server.go: who may use the admin pages: the token, the tickets and the limiter.
pub mod Tickets
pub mod Limiter
pub mod Guarded
use sub_manager_vpn.Base.{
  trim_prefix, ◌||◌, [], ◌&&◌, ◌∷◌, has_prefix, codes, true, trim_space, ◌*◌, text_eq, not, ltb,
  is_empty, ◌+◌, if◌then◌else◌, false, some, none, Bool, ℕ, Text, Option,
}
use sub_manager_vpn.Base.Map.{delete, lookup_or, lookup, insert, Map}

abbrev pub second : ℕ
second = 1000000000

-- The tickets with the time each is valid end, in nanoseconds
abbrev pub Tickets : Type 0
Tickets = Map ℕ

-- The loop of `newTicket` that drops the tickets whose time has passed.
unfoldable pub prune : ℕ → Tickets → Tickets
prune now [] = []
prune now ((t, end) ∷ tickets) =
    let rest = prune now tickets in if ltb end now then rest else (t, end) ∷ rest

-- `newTicket`; `random` is the hex of 32 bytes of crypto/rand, `none` if it fails, and `clock` the hex
-- of the time that stands in for it.
unfoldable pub new_ticket : Option Text → Text → ℕ → Tickets → Text × Tickets
new_ticket none clock now tickets = (clock, tickets)
new_ticket (some t) clock now tickets = (t, insert t (now + 30 * second) (prune now tickets))

-- `consumeTicket`
unfoldable pub consume_ticket : Text → ℕ → Tickets → Bool × Tickets
consume_ticket t now tickets = if is_empty t then (false, tickets) else elim (lookup t tickets) [
  | none ↦ (false, tickets)
  | some exp ↦ (ltb now exp, delete t tickets)
]

-- `tokenLimiter`
pub record TokenLimiter : Type 0 where
  pub fails : Map ℕ
  pub block : Map ℕ

-- The end of `allow`: one more failure is counted.
unfoldable pub count_fail : Text → ℕ → TokenLimiter → Bool × TokenLimiter
count_fail ip now l =
    let n = lookup_or 0 ip l.fails + 1 in
    let fails = insert ip n l.fails in
    if ltb 20 n
    then (false, record { fails = fails; block = insert ip (now + 60 * second) l.block })
    else (true, record l { fails = fails })

-- `allow`
unfoldable pub allow : Text → ℕ → TokenLimiter → Bool × TokenLimiter
allow ip now l = elim (lookup ip l.block) [
  | none ↦ count_fail ip now l
  | some end ↦
      if ltb now end
      then (false, l)
      else count_fail ip now (record { fails = delete ip l.fails; block = delete ip l.block })
]

-- What the server reads of a request.
pub record Request : Type 0 where
  pub remote_addr : Text
  pub path : Text
  pub authorization : Text
  pub token : Text
  pub ticket : Text

pub record Gate : Type 0 where
  pub tickets : Tickets
  pub limiter : TokenLimiter

-- The status a request is answered with, unless its handler runs.
pub data Answer : Type 0 where
  handled too_many unauthorized : Answer

abbrev pub bearer : Text
bearer = codes "Bearer "

-- `strings.HasSuffix`
unfoldable pub has_suffix : Text → Text → Bool
has_suffix [] suffix = text_eq [] suffix
has_suffix (c ∷ s) suffix = text_eq (c ∷ s) suffix || has_suffix s suffix

-- The test of the Authorization header.
unfoldable pub bearer_is : Text → Text → Bool
bearer_is token a = has_prefix a bearer && text_eq (trim_space (trim_prefix a bearer)) token

-- `validToken`
unfoldable pub valid_token : Text → Request → ℕ → Tickets → Bool × Tickets
valid_token token r now tickets =
    if is_empty token
    then (false, tickets)
    else if bearer_is token r.authorization
    then (true, tickets)
    else if has_suffix r.path (codes "/api/stream")
    then (if not (is_empty r.token) && text_eq r.token token
        then (true, tickets)
        else if not (is_empty r.ticket)
        then consume_ticket r.ticket now tickets
        else (false, tickets))
    else (false, tickets)

-- `auth`; `split_host` is `net.SplitHostPort`, `none` its error.
unfoldable pub auth : (Text → Option Text) → Text → Request → ℕ → Gate → Answer × Gate
auth split_host token r now g =
    let valid = valid_token token r now g.tickets in
    let ip : Text = elim (split_host r.remote_addr) [ none ↦ r.remote_addr | some h ↦ h ] in
    let limited = allow ip now g.limiter in
    if valid.0 then (handled, record g { tickets = valid.1 }) else (
      if not limited.0 then too_many else unauthorized,
      record { tickets = valid.1; limiter = limited.1 },
    )
