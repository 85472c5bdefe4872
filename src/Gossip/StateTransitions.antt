-- ===== src/Gossip/StateTransitions.antt =====
-- lib/gossip/state_transitions.js: a suspect member becomes faulty, a faulty one a tombstone, and a
-- tombstone is evicted, each after a time. The timeouts that `setTimeout` started and that neither
-- fired nor were cleared are part of the state, as `timeouts`.
pub mod Timers
pub mod Armed
pub mod Pending
use ringpop_node.Common.{
  ℕ, suc, ◌≡◌, String, Bool, true, false, not, ◌&&◌, List, [], ◌∷◌, Option, none, some, Dict,
  lookup, insert, delete, keep, ◌==◌, if◌then◌else◌, str_eq,
}
use ringpop_node.Member.{Change, Status, alive, faulty, leave, suspect, tombstone, unknown}

-- The callbacks that `schedule` is given.
pub data Transition : Type 0 where
  suspect_to_faulty : String → ℕ → Transition
  faulty_to_tombstone : String → ℕ → Transition
  tombstone_to_evict : String → Transition

pub record Timeout : Type 0 where
  pub handle : ℕ
  pub delay : ℕ
  pub transition : Transition

-- An entry of `timers`.
pub record Timer : Type 0 where
  pub handle : ℕ
  pub state : Status

pub record StateTransitions : Type 0 where
  pub suspect_timeout : ℕ
  pub faulty_timeout : ℕ
  pub tombstone_timeout : ℕ
  pub enabled : Bool
  pub timers : Dict Timer
  pub timeouts : List Timeout
  pub next_handle : ℕ

-- `timer.state === state`.
abbrev pub same_status : Status → Status → Bool
same_status alive alive = true
same_status faulty faulty = true
same_status leave leave = true
same_status suspect suspect = true
same_status tombstone tombstone = true
same_status (unknown s) (unknown t) = str_eq s t
same_status _ _ = false

-- `clearTimeout`.
unfoldable pub clear_timeout : ℕ → List Timeout → List Timeout
clear_timeout handle ts = keep (λ t. not (t.handle == handle)) ts

unfoldable pub new_state_transitions : ℕ → ℕ → ℕ → StateTransitions
new_state_transitions suspect_ms faulty_ms tombstone_ms = record {
  suspect_timeout = suspect_ms;
  faulty_timeout = faulty_ms;
  tombstone_timeout = tombstone_ms;
  enabled = true;
  timers = [];
  timeouts = [];
  next_handle = 0;
}

-- `StateTransitions.Defaults`, in milliseconds.
abbrev pub default_state_transitions : StateTransitions
unfolding new_state_transitions
default_state_transitions = new_state_transitions 5000 86400000 60000

unfoldable pub enable : StateTransitions → StateTransitions
enable s = if s.enabled then s else record s { enabled = true }

unfoldable pub cancel : String → StateTransitions → StateTransitions
unfolding clear_timeout
cancel address s = elim (lookup address s.timers) [
  | none ↦ s
  | some timer ↦ record s {
    timeouts = clear_timeout timer.handle s.timeouts;
    timers = delete address s.timers;
  }
]

unfoldable pub start_timer : String → Status → ℕ → Transition → StateTransitions → StateTransitions
start_timer address state delay transition s = record s {
  timers = insert address (record { handle = s.next_handle; state = state }) s.timers;
  timeouts = record { handle = s.next_handle; delay = delay; transition = transition } ∷ s.timeouts;
  next_handle = suc s.next_handle;
}

unfoldable pub schedule :
    String → String → Status → ℕ → Transition → StateTransitions → StateTransitions
schedule whoami address state delay transition s =
    if not s.enabled
    then s
    else if str_eq address whoami
    then s
    else elim (lookup address s.timers) [
      | none ↦ start_timer address state delay transition s
      | some timer ↦
          if same_status timer.state state
          then s
          else start_timer address state delay transition (cancel address s)
    ]

unfoldable pub schedule_suspect_to_faulty : String → Change → StateTransitions → StateTransitions
unfolding schedule
schedule_suspect_to_faulty whoami member s =
    schedule whoami member.address suspect s.suspect_timeout
      (suspect_to_faulty member.address member.incarnation_number) s

unfoldable pub schedule_faulty_to_tombstone : String → Change → StateTransitions → StateTransitions
unfolding schedule
schedule_faulty_to_tombstone whoami member s =
    schedule whoami member.address faulty s.faulty_timeout
      (faulty_to_tombstone member.address member.incarnation_number) s

unfoldable pub schedule_tombstone_to_evict : String → Change → StateTransitions → StateTransitions
unfolding schedule
schedule_tombstone_to_evict whoami member s =
    schedule whoami member.address tombstone s.tombstone_timeout (tombstone_to_evict member.address)
      s

unfoldable pub handle_status : String → Status → Change → StateTransitions → StateTransitions
handle_status whoami alive update s = cancel update.address s
handle_status whoami leave update s = cancel update.address s
handle_status whoami suspect update s = schedule_suspect_to_faulty whoami update s
handle_status whoami faulty update s = schedule_faulty_to_tombstone whoami update s
handle_status whoami tombstone update s = schedule_tombstone_to_evict whoami update s
handle_status whoami (unknown t) update s = s

unfoldable pub handle_update : String → Change → StateTransitions → StateTransitions
unfolding handle_status schedule_suspect_to_faulty schedule_faulty_to_tombstone
    schedule_tombstone_to_evict
handle_update whoami update s = handle_status whoami update.status update s

-- `timerKeys.forEach(clearTimers)`: every entry is cleared and deleted.
unfoldable pub clear_timers : Dict Timer → List Timeout → List Timeout
unfolding clear_timeout
clear_timers [] ts = ts
clear_timers ((address, timer) ∷ m) ts = clear_timers m (clear_timeout timer.handle ts)

unfoldable pub disable : StateTransitions → StateTransitions
unfolding clear_timers
disable s = record s { enabled = false; timeouts = clear_timers s.timers s.timeouts; timers = [] }

-- A timeout fires: it leaves the event loop, and its callback is run on the membership.
unfoldable pub fire : Timeout → StateTransitions → StateTransitions
unfolding clear_timeout
fire t s = record s { timeouts = clear_timeout t.handle s.timeouts }
