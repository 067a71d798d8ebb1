-- ===== src/Events/Hub.antt =====
-- internal/events/events.go: Hub, which hands an event to every subscriber.
pub mod Subscriber
pub mod Bound
use dotvault.Prelude.{
  ℕ, ◌+◌, ◌==◌, ==_iff, Eq, ltb, leb, Map, Bool, true, false, List, [], ◌∷◌, ◌++◌, Option, none,
  some, Result, ok, err, lookup, insert, delete, length, if◌then◌else◌,
}
use dotvault.Events.{Event}

abbrev pub subscriber_buffer : ℕ
subscriber_buffer = 32

abbrev pub max_subscribers : ℕ
max_subscribers = 64

instance abbrev pub channel_has_eq : Eq ℕ
channel_has_eq = record { beq = ◌==◌; beq_iff = ==_iff }

pub data HubError : Type 0 where
  too_many_subscribers : HubError

-- subs: the channels, which are numbered as they are made, with what their buffers hold.
pub record Hub : Type 0 where
  pub next : ℕ
  pub subs : Map ℕ (List Event)

unfoldable pub new_hub : Hub
new_hub = record { next = 0; subs = [] }

unfoldable pub stamp : ℕ → Event → Event
stamp now e = elim e.time [ none ↦ record e { time = some now } | some t ↦ e ]

-- select { case ch <- e: default: }
unfoldable pub offer : Event → List Event → List Event
offer e buffer = if ltb (length buffer) subscriber_buffer then buffer ++ (e ∷ []) else buffer

-- The loop of Publish
unfoldable pub offer_each : Event → Map ℕ (List Event) → Map ℕ (List Event)
unfolding offer
offer_each e [] = []
offer_each e ((ch, buffer) ∷ subs) = (ch, offer e buffer) ∷ offer_each e subs

unfoldable pub publish : ℕ → Event → Hub → Hub
unfolding stamp offer_each
publish now e h = record h { subs = offer_each (stamp now e) h.subs }

unfoldable pub subscribe : Hub → Result HubError ℕ × Hub
subscribe h =
    if leb max_subscribers (length h.subs)
    then (err too_many_subscribers, h)
    else (ok h.next, record h { next = h.next + 1; subs = insert h.next [] h.subs })

-- The function that Subscribe returns.
unfoldable pub cancel : ℕ → Hub → Hub
cancel ch h = record h { subs = delete ch h.subs }

abbrev pub tail : List Event → List Event
tail [] = []
tail (e ∷ es) = es

-- A read of the channel by its subscriber.
unfoldable pub receive : ℕ → Hub → Option Event × Hub
receive ch h = elim (lookup ch h.subs) [
  | none ↦ (none, h)
  | some [] ↦ (none, h)
  | some (e ∷ es) ↦ (some e, record h { subs = insert ch es h.subs })
]

pub data Call : Type 0 where
  publishes : ℕ → Event → Call
  subscribes : Call
  cancels receives : ℕ → Call

unfoldable pub perform : Call → Hub → Hub
unfolding publish subscribe cancel receive
perform (publishes now e) h = publish now e h
perform subscribes h = (subscribe h).1
perform (cancels ch) h = cancel ch h
perform (receives ch) h = (receive ch h).1

unfoldable pub perform_all : List Call → Hub → Hub
unfolding perform
perform_all [] h = h
perform_all (c ∷ cs) h = perform_all cs (perform c h)
