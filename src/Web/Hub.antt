-- ===== src/Web/Hub.antt =====
-- internal/web/hub.go: the hub, its subscribers and the channels it made for them.
pub mod Delivered
pub mod Detached
pub mod Open
pub mod Steps
use sub_manager_vpn.Base.{
  not, ◌++◌, length, filter, true, ltb, any, ◌==◌, ◌+◌, ◌∷◌, some, none, if◌then◌else◌, false, Bool,
  ℕ, drop, [], Text, Option, List,
}

pub record Event : Type 0 where
  pub kind : Text
  pub payload : Text

-- A channel with the events that wait in it, 16 at most.
pub record Channel : Type 0 where
  pub queue : List Event
  pub closed : Bool

abbrev pub new_channel : Channel
new_channel = record { queue = []; closed = false }

-- `subs` are the keys of the map. A channel is a number, and `channels` gives what it is; `next` is
-- the identity of the channel that is made next.
pub record Hub : Type 0 where
  pub subs : List ℕ
  pub channels : ℕ → Channel
  pub next : ℕ

abbrev pub new_hub : Hub
new_hub = record { subs = []; channels = λ _. new_channel; next = 0 }

-- Channel `ch` becomes `c`.
abbrev pub with_channel : ℕ → Channel → (ℕ → Channel) → ℕ → Channel
with_channel ch c channels i = if (i == ch) then c else channels i

unfoldable pub subscribe : Hub → ℕ × Hub
subscribe h = (
  h.next,
  record {
    subs = h.next ∷ h.subs;
    channels = with_channel h.next new_channel h.channels;
    next = h.next + 1;
  },
)

-- `close(ch)`, which panics on a closed channel.
unfoldable pub close : Channel → Option Channel
close c = if c.closed then none else some (record c { closed = true })

-- The function that `Subscribe` returns; `none` is a panic.
unfoldable pub unsubscribe : ℕ → Hub → Option Hub
unsubscribe ch h =
    if any (λ s. s == ch) h.subs
    then elim (close (h.channels ch)) [
      | none ↦ none
      | some c ↦ some (record h {
        subs = filter (λ s. not (s == ch)) h.subs;
        channels = with_channel ch c h.channels;
      })
    ]
    else some h

-- `select { case ch <- e: default: }`, which panics on a closed channel.
unfoldable pub offer : Event → Channel → Option Channel
offer e c =
    if c.closed
    then none
    else some (if ltb (length c.queue) 16 then record c { queue = c.queue ++ e ∷ [] } else c)

-- The loop of `Publish`
unfoldable pub offer_all : Event → List ℕ → (ℕ → Channel) → Option (ℕ → Channel)
offer_all e [] channels = some channels
offer_all e (ch ∷ subs) channels = elim (offer e (channels ch)) [
  | none ↦ none
  | some c ↦ offer_all e subs (with_channel ch c channels)
]

unfoldable pub publish : Event → Hub → Option Hub
publish e h = elim (offer_all e h.subs h.channels) [
  | none ↦ none
  | some channels ↦ some (record h { channels = channels })
]

-- A client takes the event that has waited longest, if there is one.
unfoldable pub received : Channel → Channel
received c = record c { queue = drop 1 c.queue }

unfoldable pub receive : ℕ → Hub → Hub
receive ch h = record h { channels = with_channel ch (received (h.channels ch)) h.channels }
