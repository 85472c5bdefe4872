-- ===== src/Handlers.antt =====
-- lib/on_membership_event.js: the handlers that pass the member list's events on to gossip, the
-- damper and the ring. Statistics, log lines and the events for the application are left out, and
-- so is the rollup, which only logs.
pub mod Recorded
use ringpop_node.Common.{
  ℕ, ◌≡◌, String, Bool, true, false, not, ◌&&◌, ◌||◌, List, [], ◌∷◌, ◌++◌, Option, none, some,
  if◌then◌else◌, map, keep, length, ◌==◌,
}
use ringpop_node.Member.{Change, Status, alive, suspect, faulty, leave, tombstone, unknown}
use ringpop_node.Member.Damping.{member_reusable, member_suppress_limit_exceeded}
use ringpop_node.Membership.Events.{Event, updated, set_updates, local_member_leave, member_event}
use ringpop_node.Gossip.StateTransitions.{StateTransitions, handle_update, disable}
use ringpop_node.Gossip.Dissemination.{Dissemination, record_change}
use ringpop_node.Gossip.Damper.{Damper, add_flapper, remove_flapper}

-- The parts of the node that the handlers change, with the calls of the ring's `addRemoveServers`
-- and whether gossip was stopped.
pub record Parts : Type 0 where
  pub state_transitions : StateTransitions
  pub dissemination : Dissemination
  pub damper : Damper
  pub gossip_stopped : Bool
  pub ring_calls : List (List String × List String)

-- A server of the ring is one whose status is alive or suspect.
unfoldable pub is_server : Status → Bool
is_server alive = true
is_server suspect = true
is_server _ = false

-- The statuses that take a server off the ring.
unfoldable pub is_no_server : Status → Bool
is_no_server faulty = true
is_no_server leave = true
is_no_server tombstone = true
is_no_server _ = false

-- The addresses of the updates whose status passes the test.
unfoldable pub servers_with : (Status → Bool) → List Change → List String
servers_with test updates =
    map (λ (c : Change). c.address) (keep (λ (c : Change). test c.status) updates)

-- `handleUpdate` for each update of a set, where `whoami` is the node's address.
unfoldable pub handle_updates : String → List Change → StateTransitions → StateTransitions
handle_updates whoami [] s = s
handle_updates whoami (c ∷ cs) s = handle_updates whoami cs (handle_update whoami c s)

unfoldable pub on_membership_set : String → List Change → Parts → Parts
unfolding handle_updates servers_with is_server
on_membership_set whoami updates p =
    let servers_to_add = servers_with is_server updates in
    record p {
      state_transitions = handle_updates whoami updates p.state_transitions;
      ring_calls =
          if length servers_to_add == 0
          then p.ring_calls
          else p.ring_calls ++ (servers_to_add, []) ∷ [];
    }

unfoldable pub on_updated_for_gossip : String → List Change → Parts → Parts
on_updated_for_gossip whoami [] p = p
on_updated_for_gossip whoami (c ∷ cs) p = on_updated_for_gossip whoami cs (record p {
  state_transitions = handle_update whoami c p.state_transitions;
  dissemination = record_change c p.dissemination;
})

unfoldable pub on_updated_for_ring : List Change → Parts → Parts
unfolding servers_with is_server is_no_server
on_updated_for_ring updates p =
    let servers_to_add = servers_with is_server updates in
    let servers_to_remove = servers_with is_no_server updates in
    if length servers_to_add == 0 && length servers_to_remove == 0
    then p
    else record p { ring_calls = p.ring_calls ++ (servers_to_add, servers_to_remove) ∷ [] }

-- The handlers of one event, in the order of `register`.
unfoldable pub on_event : String → Event → Parts → Parts
unfolding on_membership_set on_updated_for_gossip on_updated_for_ring
on_event whoami (updated updates) p =
    on_updated_for_ring updates (on_updated_for_gossip whoami updates p)
on_event whoami (set_updates updates) p = on_membership_set whoami updates p
on_event whoami (local_member_leave old) p = record p {
  gossip_stopped = true;
  state_transitions = disable p.state_transitions;
}
on_event whoami (member_event (member_reusable address _)) p = record p {
  damper = (remove_flapper address p.damper).0;
}
on_event whoami (member_event (member_suppress_limit_exceeded address)) p = record p {
  damper = (add_flapper address p.damper).0;
}
on_event whoami _ p = p
