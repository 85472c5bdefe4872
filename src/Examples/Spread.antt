-- ===== src/Examples/Spread.antt =====
-- Tests of gossip: the timers, the dissemination of changes and the damper.
use ringpop_node.Common.{
  ℕ, suc, ◌≡◌, ◌≢◌, ◌↔◌, refl, sym, ap, In, subst, inl, inr, String, Bool, true, false, List, [],
  ◌∷◌, some, arith, lookup, keys, eq_iff, ◌≤◌,
}
use ringpop_node.Member.{Change, alive, suspect, faulty}
use ringpop_node.Membership.Events.{updated}
use ringpop_node.Membership.State.{find_member_by_address}
use ringpop_node.Membership.Update.{Draw}
use ringpop_node.Gossip.StateTransitions.{
  StateTransitions, Timeout, Timer, handle_update, default_state_transitions, suspect_to_faulty,
}
use ringpop_node.Gossip.StateTransitions.Timers.{IsTimed, address_of, status_of}
use ringpop_node.Gossip.StateTransitions.Armed.{IsArmed, handle_update-IsArmed}
use ringpop_node.Gossip.Transitions.{run_transition, suspect_stuck}
use ringpop_node.Gossip.Dissemination.{
  Recorded, Dissemination, issued, issue_as, is_empty, filter_change, issue_as_receiver,
  membership_as_changes,
}
use ringpop_node.Gossip.Dissemination.Issue.{issued_at}
use ringpop_node.Gossip.Dissemination.Counts.{IsRecorded, sender_rounds, after_rounds}
use ringpop_node.Gossip.Dissemination.Rounds.{
  sender_rounds-limited, issue_as_receiver-issued, issue_as_receiver-full_sync,
}
use ringpop_node.Gossip.Dissemination.Sources.{IsFrom}
use ringpop_node.Gossip.Damper.{Damper, on_fanout}
use ringpop_node.Gossip.Damper.Fanout.{
  Response, failed, replied, on_responses, start_fanout, outcome_of, fanout-outcome_of,
}
use ringpop_node.Gossip.Damper.Scores.{Score}
use ringpop_node.Gossip.Damper.Timers.{IsDamping, IsOneOverAtMost, on_fanout-IsDamping}
use ringpop_node.Handlers.{Parts, on_event}
use ringpop_node.Handlers.Recorded.{last_update, on_event-updated}
use ringpop_node.Examples.Data.{env, change, member, members, differ}

-- One transition is pending: `b:1` is suspect at incarnation 2.
abbrev pub timeout : Timeout
timeout = record { handle = 0; delay = 5000; transition = suspect_to_faulty "b:1" 2 }

abbrev pub timers : StateTransitions
timers = record default_state_transitions {
  timers = ("b:1", record { handle = 0; state = suspect }) ∷ [];
  timeouts = timeout ∷ [];
  next_handle = 1;
}

timers-IsTimed : IsTimed "a:1" timers
unfolding lookup
timers-IsTimed = record {
  registered = λ t h. elim h [
    | inl e ↦
        subst
          (λ (t : Timeout).
            lookup (address_of t.transition) timers.timers
            ≡ some (record { handle = t.handle; state = status_of t.transition }))
          (sym e) refl
    | inr k ↦ absurd k
  ];
  foreign = λ t h e. ground (arith, h, e, differ "b:1" "a:1" refl);
  fresh = λ a t h. ground (arith, h, eq_iff "b:1" a);
  separate = λ a b t u h k e. ground (arith, h, k, eq_iff "b:1" a, eq_iff "b:1" b);
}

timers-IsArmed : (a : String) → IsArmed a timers
unfolding lookup
timers-IsArmed a timer h =
    let same : a ≡ "b:1" = ground (arith, h, eq_iff "b:1" a) in
    let there : record { handle = 0; state = suspect } ≡ timer =
      ground (arith, h, eq_iff "b:1" a) in
    (
      timeout,
      inl refl,
      ap (λ (t : Timer). t.handle) there,
      sym same,
      ap (λ (t : Timer). t.state) there,
    )

handle_update-IsArmed_example :
    IsTimed "a:1" (handle_update "a:1" (change "c:1" 3 faulty) timers)
    × ((a : String) → IsArmed a (handle_update "a:1" (change "c:1" 3 faulty) timers))
handle_update-IsArmed_example =
    handle_update-IsArmed "a:1" timers timers-IsTimed (change "c:1" 3 faulty) timers-IsArmed

abbrev draws : ℕ → Draw
draws i = record { random = i; id = i }

-- The same with the transition of incarnation 1, which the membership has passed.
abbrev old_timeout : Timeout
old_timeout = record timeout { transition = suspect_to_faulty "b:1" 1 }

abbrev old_timers : StateTransitions
old_timers = record timers { timeouts = old_timeout ∷ [] }

old_timers-IsTimed : IsTimed "a:1" old_timers
unfolding lookup
old_timers-IsTimed = record {
  registered = λ t h. elim h [
    | inl e ↦
        subst
          (λ (t : Timeout).
            lookup (address_of t.transition) old_timers.timers
            ≡ some (record { handle = t.handle; state = status_of t.transition }))
          (sym e) refl
    | inr k ↦ absurd k
  ];
  foreign = λ t h e. ground (arith, h, e, differ "b:1" "a:1" refl);
  fresh = λ a t h. ground (arith, h, eq_iff "b:1" a);
  separate = λ a b t u h k e. ground (arith, h, k, eq_iff "b:1" a, eq_iff "b:1" b);
}

suspect_stuck_example :
    (handle_update "a:1" (change "b:1" 2 suspect) old_timers ≡ old_timers)
    × (run_transition env true 9 50 draws (suspect_to_faulty "b:1" 1) members
        ≡ some (members, [], []))
unfolding find_member_by_address lookup
suspect_stuck_example =
    suspect_stuck env 9 50 draws old_timers old_timeout "b:1" 1 (change "b:1" 2 suspect) members
      (member "b:1" 2 suspect) old_timers-IsTimed (inl refl) refl refl refl (omega arith) refl refl

-- Two changes are recorded, one of them issued before.
abbrev pub recorded : Dissemination
recorded = record {
  changes =
      ("b:1", record { change = change "b:1" 2 suspect; piggyback_count = 1 })
      ∷ ("c:1", record { change = change "c:1" 3 alive; piggyback_count = 0 })
      ∷ [];
  reverse_full_sync_jobs = 0;
  max_piggyback_count = 3;
  piggyback_factor = 15;
}

recorded-IsRecorded : IsRecorded 3 recorded
unfolding lookup keys
recorded-IsRecorded = record {
  limited = refl;
  filed = λ a r h. ground (arith, h, eq_iff "b:1" a, eq_iff "c:1" a);
  distinct = (
    (λ h. elim h [ inl e ↦ differ "b:1" "c:1" refl e | inr k ↦ absurd k ]),
    ((λ h. absurd h), tt),
  );
}

sender_rounds-limited_example :
    ((k : ℕ) (a : String)
      → lookup a (sender_rounds (suc k) recorded).changes
        ≡ after_rounds 3 (suc k) (lookup a recorded.changes))
    × (is_empty (sender_rounds 4 recorded) ≡ true)
sender_rounds-limited_example = sender_rounds-limited 3 recorded recorded-IsRecorded

abbrev answer : Dissemination × List Change × Bool
answer = issue_as_receiver "a:1" members (some "d:1") (some 4) 7 recorded

abbrev live_changes : List Change
live_changes =
    issued_at (filter_change (some "d:1") (some 4)) 3 (keys recorded.changes) recorded.changes

issue_as_receiver-full_sync_example :
    ((answer.2 ≡ true) ↔ ((live_changes ≡ []) × (members.checksum ≢ some 7)))
    × (answer.2 ≡ true → answer.1 ≡ membership_as_changes "a:1" members)
    × (answer.2 ≡ false → answer.1 ≡ live_changes)
issue_as_receiver-full_sync_example =
    issue_as_receiver-full_sync "a:1" members (some "d:1") (some 4) 7 recorded recorded-IsRecorded

-- The change of `b:1` may be answered to a sender that it did not come from.
issue_as_receiver-issued_example : In (issued (change "b:1" 2 suspect)) answer.1 ↔ (
    (¬ IsFrom (some "d:1") (some 4) (issued (change "b:1" 2 suspect)))
    × ((a : String) × (r : Recorded) × (lookup a recorded.changes ≡ some r)
        × (suc r.piggyback_count ≤ 3)
        × (issued (change "b:1" 2 suspect) ≡ issued r.change)))
unfolding issue_as_receiver issue_as lookup keys
issue_as_receiver-issued_example =
    issue_as_receiver-issued "a:1" members (some "d:1") (some 4) 7 recorded
      (issued (change "b:1" 2 suspect)) recorded-IsRecorded refl

abbrev no_filter : Change → Bool
no_filter c = false

abbrev responses : List (Response String ℕ)
responses = failed "timeout" ∷ replied 1 ∷ replied 2 ∷ []

fanout-outcome_of_example :
    (on_responses 2 responses (start_fanout 3)).outcome ≡ some (outcome_of 2 responses)
fanout-outcome_of_example = fanout-outcome_of 2 responses (omega arith) (omega arith)

-- `b:1` flaps and `c:1` is damped.
abbrev pub damper : Damper
damper = record {
  flappers = ("b:1", "b:1") ∷ [];
  damped_members = ("c:1", 10) ∷ [];
  damp_timer = true;
  expiration_timer = true;
}

damper-IsDamping : IsDamping damper
unfolding lookup
damper-IsDamping = record {
  apart = λ a. ground (arith, eq_iff "b:1" a, eq_iff "c:1" a, differ "b:1" "c:1" refl);
  damp_timed = refl;
  expiration_timed = refl;
}

on_fanout-IsDamping_example :
    IsDamping (on_fanout env 50 20 (λ _. true) (some ("b:1" ∷ [])) damper).0
    × IsOneOverAtMost env 20 (on_fanout env 50 20 (λ _. true) (some ("b:1" ∷ [])) damper).0
on_fanout-IsDamping_example =
    on_fanout-IsDamping env 50 20 (λ _. true) (some ("b:1" ∷ [])) damper damper-IsDamping
      (omega arith)

abbrev score : ℕ → Score
score n = record { member = "b:1"; damp_score = n }

abbrev pub parts : Parts
parts = record {
  state_transitions = timers;
  dissemination = recorded;
  damper = damper;
  gossip_stopped = false;
  ring_calls = [];
}

abbrev batch : List Change
batch = change "b:1" 3 faulty ∷ change "d:1" 1 alive ∷ []

on_event-updated_example :
    ((a : String)
      → lookup a (on_event "a:1" (updated batch) parts).dissemination.changes
        ≡ last_update a batch (lookup a recorded.changes))
    × IsTimed "a:1" (on_event "a:1" (updated batch) parts).state_transitions
on_event-updated_example = on_event-updated "a:1" batch parts timers-IsTimed
