-- ===== src/Gossip/Transitions.antt =====
-- lib/gossip/state_transitions.js: the callbacks of the timeouts, run on the membership.
use ringpop_node.Common.{
  ℕ, ◌<◌, ◌≡◌, String, Bool, true, false, List, [], ◌∷◌, Option, none, some, arith, In,
}
use ringpop_node.Config.{Env}
use ringpop_node.Member.{Change, Member, suspect, should_process_gossip, new_update}
use ringpop_node.Membership.Events.{Event}
use ringpop_node.Membership.State.{Membership, find_member_by_address}
use ringpop_node.Membership.Update.{Draw, update_change, update_loop, finish_update, update}
use ringpop_node.Membership.Local.{make_change, make_faulty, make_tombstone, evict}
use ringpop_node.Gossip.StateTransitions.{
  Transition, suspect_to_faulty, faulty_to_tombstone, tombstone_to_evict, Timeout, StateTransitions,
  handle_update,
}
use ringpop_node.Gossip.StateTransitions.Timers.{IsTimed}
use ringpop_node.Gossip.StateTransitions.Pending.{suspect_kept}

without_changes : Option (Membership × List Event) → Option (Membership × List Change × List Event)
without_changes none = none
without_changes (some (m, events)) = some (m, [], events)

-- The callbacks `suspectToFaulty`, `faultyToTombstone` and `tombstoneToEvict`.
unfoldable pub run_transition :
    Env
    → Bool
    → ℕ
    → ℕ
    → (ℕ → Draw)
    → Transition
    → Membership
    → Option (Membership × List Change × List Event)
unfolding without_changes
run_transition env is_ready id now draws (suspect_to_faulty a i) m =
    make_faulty env is_ready id now draws a i m
run_transition env is_ready id now draws (faulty_to_tombstone a i) m =
    make_tombstone env is_ready id now draws a i m
run_transition env is_ready id now draws (tombstone_to_evict a) m = without_changes (evict env a m)

stale_ignored :
    (c : Change) (x : Member)
    → c.incarnation_number < x.incarnation_number
    → should_process_gossip (some x) c ≡ false
unfolding should_process_gossip
stale_ignored c x lt = ground arith

update_ignored :
    (env : Env) (now : ℕ) (draws : ℕ → Draw) (c : Change) (m : Membership) (x : Member)
    → find_member_by_address m c.address ≡ some x
    → should_process_gossip (some x) c ≡ false
    → update env true now draws (c ∷ []) m ≡ some (m, [], [])
unfolding update update_loop update_change finish_update
update_ignored env now draws c m x f e = ground (arith, f, e)

make_faulty_stale :
    (env : Env) (id now : ℕ) (draws : ℕ → Draw) (a : String) (i : ℕ) (m : Membership) (x : Member)
    → find_member_by_address m a ≡ some x
    → i < x.incarnation_number
    → make_faulty env true id now draws a i m ≡ some (m, [], [])
unfolding make_faulty make_change new_update
make_faulty_stale env id now draws a i m x found lt =
    update_ignored env now draws _ m x found (stale_ignored _ x lt)

-- Let the transition of a suspect at incarnation `i` be pending when an update arrives that the
-- member is suspect at a higher incarnation. The update does not restart the timer, and once the
-- membership has that incarnation, the transition, when it fires, changes nothing: no timeout is
-- left that would make the member faulty.
pub suspect_stuck :
    (env : Env) (id now : ℕ) (draws : ℕ → Draw) (s : StateTransitions) (t : Timeout) (a : String)
    (i : ℕ) (update : Change) (m : Membership) (x : Member)
    → IsTimed env.whoami s
    → In t s.timeouts
    → t.transition ≡ suspect_to_faulty a i
    → update.address ≡ a
    → update.status ≡ suspect
    → i < update.incarnation_number
    → find_member_by_address m a ≡ some x
    → x.incarnation_number ≡ update.incarnation_number
    → (handle_update env.whoami update s ≡ s)
      × (run_transition env true id now draws t.transition m ≡ some (m, [], []))
unfolding run_transition
suspect_stuck env id now draws s t a i u m x v h e q st lt found inc = (
  suspect_kept env.whoami s t a i u v h e q st,
  rw (e, run_transition)
      (make_faulty_stale env id now draws a i m x found (omega (arith, lt, inc))),
)
