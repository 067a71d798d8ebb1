-- ===== src/Events/Hub/Subscriber.antt =====
-- internal/events/events.go: what one subscriber sees of a hub.
use dotvault.Prelude.{
  ℕ, suc, ◌<◌, ◌==◌, ==_iff, Map, Bool, false, List, [], ◌∷◌, Option, none, some, ◌≡◌, refl, ap,
  lookup, lookup-insert, lookup-delete, length, All, arith, if◌then◌else◌,
}
use dotvault.Events.{Event}
use dotvault.Events.Hub.{
  channel_has_eq, Hub, stamp, offer, offer_each, publish, subscribe, cancel, tail, receive, Call,
  publishes, subscribes, cancels, receives, perform, perform_all,
}

-- What a call is to the subscriber of one channel: a bounded queue, which takes what is published
-- while it has room and gives up its first event to a read of its own.
unfoldable pub queue : ℕ → Call → List Event → List Event
unfolding offer stamp
queue ch (publishes now e) buffer = offer (stamp now e) buffer
queue ch subscribes buffer = buffer
queue ch (cancels other) buffer = buffer
queue ch (receives other) buffer = if other == ch then tail buffer else buffer

unfoldable pub queue_all : ℕ → List Call → List Event → List Event
unfolding queue
queue_all ch [] buffer = buffer
queue_all ch (c ∷ cs) buffer = queue_all ch cs (queue ch c buffer)

unfoldable pub is_cancel : ℕ → Call → Bool
is_cancel ch (cancels other) = other == ch
is_cancel ch (publishes now e) = false
is_cancel ch subscribes = false
is_cancel ch (receives other) = false

lookup-offer_each :
    (ch : ℕ) (e : Event) (subs : Map ℕ (List Event)) (buffer : List Event)
    → lookup ch subs ≡ some buffer
    → lookup ch (offer_each e subs) ≡ some (offer e buffer)
unfolding lookup offer_each
lookup-offer_each ch e [] buffer h = cc
lookup-offer_each ch e ((c, b) ∷ subs) buffer h =
    ground (arith, h, lookup-offer_each ch e subs buffer)

length-offer_each :
    (e : Event) (subs : Map ℕ (List Event)) → length (offer_each e subs) ≡ length subs
unfolding offer_each
length-offer_each e [] = refl
length-offer_each e (s ∷ subs) = ap suc (length-offer_each e subs)

-- The buffer that a read finds decides what it does.
received :
    (ch other : ℕ) (h : Hub) (buffer : List Event) (found : Option (List Event))
    → lookup other h.subs ≡ found
    → lookup ch h.subs ≡ some buffer
    → (lookup ch (receive other h).1.subs ≡ some (if other == ch then tail buffer else buffer))
      × ((receive other h).1.next ≡ h.next)
unfolding receive
received ch other h buffer none e there = ground (arith, e, there, ==_iff other ch)
received ch other h buffer (some []) e there = ground (arith, e, there, ==_iff other ch)
received ch other h buffer (some (x ∷ es)) e there =
    ground (arith, e, there, ==_iff other ch, lookup-insert other ch es h.subs)

-- A call leaves a channel that it does not cancel with what the queue makes of its buffer, and the
-- channels that are made get new numbers.
lookup-perform :
    (ch : ℕ) (c : Call) (h : Hub) (buffer : List Event)
    → ch < h.next
    → is_cancel ch c ≡ false
    → lookup ch h.subs ≡ some buffer
    → (lookup ch (perform c h).subs ≡ some (queue ch c buffer)) × (ch < (perform c h).next)
unfolding perform publish subscribe cancel queue is_cancel
lookup-perform ch (publishes now e) h buffer new keep there =
    (lookup-offer_each ch (stamp now e) h.subs buffer there, new)
lookup-perform ch subscribes h buffer new keep there =
    ground (arith, new, there, lookup-insert h.next ch [] h.subs)
lookup-perform ch (cancels other) h buffer new keep there =
    ground (arith, new, keep, there, lookup-delete other ch h.subs)
lookup-perform ch (receives other) h buffer new keep there =
    let (left, same) = received ch other h buffer (lookup other h.subs) refl there in
    (left, omega (arith, same))

-- What a subscriber finds in its channel after any calls that do not cancel it is what a bounded
-- queue of its own makes of those calls: what the other subscribers do, how far they fall behind and
-- how many there are does not matter.
pub lookup-perform_all :
    (ch : ℕ) (cs : List Call) (h : Hub) (buffer : List Event)
    → ch < h.next
    → All (λ c. is_cancel ch c ≡ false) cs
    → lookup ch h.subs ≡ some buffer
    → lookup ch (perform_all cs h).subs ≡ some (queue_all ch cs buffer)
unfolding perform_all queue_all
lookup-perform_all ch [] h buffer new keep there = there
lookup-perform_all ch (c ∷ cs) h buffer new keep there =
    let (there', new') = lookup-perform ch c h buffer new keep.0 there in
    lookup-perform_all ch cs (perform c h) (queue ch c buffer) new' keep.1 there'
