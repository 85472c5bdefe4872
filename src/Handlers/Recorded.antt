-- ===== src/Handlers/Recorded.antt =====
-- lib/on_membership_event.js: what is gossiped, and what the ring is told, after an update.
use ringpop_node.Common.{
  ◌≡◌, refl, sym, ap, subst, ◌∙◌, String, Bool, true, false, ◌&&◌, List, [], ◌∷◌, Option, some,
  arith, if◌then◌else◌, lookup, lookup-insert, str_eq, eq_iff, contains, map, In, Distinct,
}
use ringpop_node.Member.{Change, Status, alive, suspect, faulty, leave, tombstone, unknown}
use ringpop_node.Membership.Events.{updated}
use ringpop_node.Gossip.StateTransitions.{handle_update}
use ringpop_node.Gossip.StateTransitions.Timers.{IsTimed, handle_update-IsTimed}
use ringpop_node.Gossip.Dissemination.{Dissemination, Recorded, record_change}
use ringpop_node.Handlers.{
  Parts, on_updated_for_gossip, on_updated_for_ring, on_event, servers_with, is_server,
  is_no_server,
}

-- The last update about an address, or else what is given.
abbrev pub last_update : String → List Change → Option Recorded → Option Recorded
last_update a [] r = r
last_update a (c ∷ cs) r =
    last_update a cs
      (if str_eq c.address a then some (record { change = c; piggyback_count = 0 }) else r)

lookup-on_updated_for_gossip :
    (whoami : String) (a : String) (cs : List Change) (p : Parts)
    → lookup a (on_updated_for_gossip whoami cs p).dissemination.changes
      ≡ last_update a cs (lookup a p.dissemination.changes)
unfolding on_updated_for_gossip record_change
lookup-on_updated_for_gossip whoami a [] p = refl
lookup-on_updated_for_gossip whoami a (c ∷ cs) p =
    lookup-on_updated_for_gossip whoami a cs (record p {
      state_transitions = handle_update whoami c p.state_transitions;
      dissemination = record_change c p.dissemination;
    })
    ∙ ap (last_update a cs) (
        lookup-insert c.address a (record { change = c; piggyback_count = 0 })
          p.dissemination.changes)

IsTimed-on_updated_for_gossip :
    (whoami : String) (cs : List Change) (p : Parts)
    → IsTimed whoami p.state_transitions
    → IsTimed whoami (on_updated_for_gossip whoami cs p).state_transitions
unfolding on_updated_for_gossip
IsTimed-on_updated_for_gossip whoami [] p v = v
IsTimed-on_updated_for_gossip whoami (c ∷ cs) p v =
    IsTimed-on_updated_for_gossip whoami cs
      (record p {
        state_transitions = handle_update whoami c p.state_transitions;
        dissemination = record_change c p.dissemination;
      })
      (handle_update-IsTimed whoami p.state_transitions v c)

ring_keeps :
    (updates : List Change) (p : Parts)
    → ((on_updated_for_ring updates p).dissemination ≡ p.dissemination)
      × ((on_updated_for_ring updates p).state_transitions ≡ p.state_transitions)
unfolding on_updated_for_ring
ring_keeps updates p = ground arith

-- After an `updated` event, what is gossiped of each address is the last update about it, not yet
-- sent, and for an address without update what it was; the timers are in order if they were.
pub on_event-updated :
    (whoami : String) (updates : List Change) (p : Parts)
    → IsTimed whoami p.state_transitions
    → ((a : String)
        → lookup a (on_event whoami (updated updates) p).dissemination.changes
          ≡ last_update a updates (lookup a p.dissemination.changes))
      × IsTimed whoami (on_event whoami (updated updates) p).state_transitions
unfolding on_event
on_event-updated whoami updates p v =
    let q = on_updated_for_gossip whoami updates p in
    let (same, same') = ring_keeps updates q in
    (
      λ a.
          ap (λ (d : Dissemination). lookup a d.changes) same
          ∙ lookup-on_updated_for_gossip whoami a updates p,
      subst (IsTimed whoami) (sym same') (IsTimed-on_updated_for_gossip whoami updates p v),
    )

listed_of_contains :
    (test : Status → Bool) (a : String) (cs : List Change)
    → contains a (servers_with test cs) ≡ true
    → In a (map (λ (c : Change). c.address) cs)
unfolding servers_with contains
listed_of_contains test a [] h = ground (arith, h)
listed_of_contains test a (c ∷ cs) h =
    ground (arith, h, listed_of_contains test a cs, eq_iff c.address a, eq_iff a c.address)

exclusive : (status : Status) → (is_server status && is_no_server status) ≡ false
unfolding is_server is_no_server
exclusive alive = refl
exclusive suspect = refl
exclusive faulty = refl
exclusive leave = refl
exclusive tombstone = refl
exclusive (unknown t) = refl

-- A batch that has at most one update for each address puts no address both on the list of servers
-- to add and on that of servers to remove.
pub servers_with-apart :
    (a : String) (cs : List Change)
    → Distinct (map (λ (c : Change). c.address) cs)
    → (contains a (servers_with is_server cs) && contains a (servers_with is_no_server cs)) ≡ false
unfolding servers_with contains
servers_with-apart a [] d = refl
servers_with-apart a (c ∷ cs) d = ground (
  arith,
  exclusive c.status,
  servers_with-apart a cs d.1,
  listed_of_contains is_server a cs,
  listed_of_contains is_no_server a cs,
  d.0,
  eq_iff c.address a,
  eq_iff a c.address,
)
