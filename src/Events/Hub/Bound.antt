-- ===== src/Events/Hub/Bound.antt =====
-- internal/events/events.go: how many subscribers a hub has, and how much it keeps for them.
use dotvault.Prelude.{
  ℕ, ◌≤◌, ◌==◌, leb, Map, List, [], ◌∷◌, Option, none, some, ◌≡◌, refl, inl, inr, lookup, insert,
  delete, length-insert, length-delete_le, length, length-append, All, Bool-cases, arith,
}
use dotvault.Events.{Event}
use dotvault.Events.Hub.{
  channel_has_eq, Hub, new_hub, stamp, offer, offer_each, publish, subscribe, cancel, receive, Call,
  publishes, subscribes, cancels, receives, perform, perform_all,
}

abbrev AreShort : Map ℕ (List Event) → Type 0
AreShort subs = All (λ s. length s.1 ≤ 32) subs

-- At most 64 subscribers, and at most 32 events in the buffer of each.
pub record IsBounded (h : Hub) : Type 0 where
  pub few : length h.subs ≤ 64
  pub short : All (λ s. length s.1 ≤ 32) h.subs

offer_short : (e : Event) (buffer : List Event) → length buffer ≤ 32 → length (offer e buffer) ≤ 32
unfolding offer
offer_short e buffer h = ground (arith, h, length-append buffer (e ∷ []))

offer_each-AreShort :
    (e : Event) (subs : Map ℕ (List Event)) → AreShort subs → AreShort (offer_each e subs)
unfolding offer_each
offer_each-AreShort e [] h = tt
offer_each-AreShort e ((ch, buffer) ∷ subs) h =
    (offer_short e buffer h.0, offer_each-AreShort e subs h.1)

length-offer_each :
    (e : Event) (subs : Map ℕ (List Event)) → length (offer_each e subs) ≡ length subs
unfolding offer_each
length-offer_each e [] = refl
length-offer_each e ((ch, buffer) ∷ subs) = omega (arith, length-offer_each e subs)

insert-AreShort :
    (ch : ℕ) (buffer : List Event) (subs : Map ℕ (List Event))
    → length buffer ≤ 32
    → AreShort subs
    → AreShort (insert ch buffer subs)
unfolding insert
insert-AreShort ch buffer [] b h = (b, tt)
insert-AreShort ch buffer ((c, w) ∷ subs) b h = elim (Bool-cases (c == ch)) [
  | inl mine ↦ rw mine (b, h.1)
  | inr other ↦ rw other (h.0, insert-AreShort ch buffer subs b h.1)
]

delete-AreShort : (ch : ℕ) (subs : Map ℕ (List Event)) → AreShort subs → AreShort (delete ch subs)
unfolding delete
delete-AreShort ch [] h = tt
delete-AreShort ch ((c, w) ∷ subs) h = elim (Bool-cases (c == ch)) [
  | inl mine ↦ rw mine (delete-AreShort ch subs h.1)
  | inr other ↦ rw other (h.0, delete-AreShort ch subs h.1)
]

lookup_short :
    (ch : ℕ) (subs : Map ℕ (List Event)) (buffer : List Event)
    → AreShort subs
    → lookup ch subs ≡ some buffer
    → length buffer ≤ 32
unfolding lookup
lookup_short ch [] buffer h e = cc
lookup_short ch ((c, w) ∷ subs) buffer h e = elim (Bool-cases (c == ch)) [
  | inl mine ↦ ground (arith, mine, e, h.0)
  | inr other ↦ lookup_short ch subs buffer h.1 (ground (arith, other, e))
]

received-IsBounded :
    (ch : ℕ) (h : Hub) (found : Option (List Event))
    → lookup ch h.subs ≡ found
    → IsBounded h
    → IsBounded (receive ch h).1
unfolding receive
received-IsBounded ch h none e b = rw (e, receive) b
received-IsBounded ch h (some []) e b = rw (e, receive) b
received-IsBounded ch h (some (x ∷ es)) e b =
    rw (e, receive)
      (record {
        few = ground (arith, e, b.few, length-insert ch es h.subs);
        short =
            insert-AreShort ch es h.subs (omega (arith, lookup_short ch h.subs (x ∷ es) b.short e))
              b.short;
      })

subscribe-IsBounded : (h : Hub) → IsBounded h → IsBounded (subscribe h).1
unfolding subscribe
subscribe-IsBounded h b = elim (Bool-cases (leb 64 (length h.subs))) [
  | inl full ↦ rw (full, subscribe) b
  | inr room ↦
      rw (room, subscribe)
        (record {
          few = ground (arith, room, b.few, length-insert h.next [] h.subs);
          short = insert-AreShort h.next [] h.subs (omega arith) b.short;
        })
]

perform-IsBounded : (c : Call) (h : Hub) → IsBounded h → IsBounded (perform c h)
unfolding perform publish cancel
perform-IsBounded (publishes now e) h b = record {
  few = omega (arith, b.few, length-offer_each (stamp now e) h.subs);
  short = offer_each-AreShort (stamp now e) h.subs b.short;
}
perform-IsBounded subscribes h b = subscribe-IsBounded h b
perform-IsBounded (cancels ch) h b = record {
  few = omega (arith, b.few, length-delete_le ch h.subs);
  short = delete-AreShort ch h.subs b.short;
}
perform-IsBounded (receives ch) h b = received-IsBounded ch h (lookup ch h.subs) refl b

perform_all-keeps : (cs : List Call) (h : Hub) → IsBounded h → IsBounded (perform_all cs h)
unfolding perform_all
perform_all-keeps [] h b = b
perform_all-keeps (c ∷ cs) h b = perform_all-keeps cs (perform c h) (perform-IsBounded c h b)

-- No calls make a new hub hold more than 64 subscribers, or more than 32 events for one of them.
pub perform_all-IsBounded : (cs : List Call) → IsBounded (perform_all cs new_hub)
perform_all-IsBounded cs =
    perform_all-keeps cs new_hub (unfold new_hub in record { few = omega arith; short = tt })
