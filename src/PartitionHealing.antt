-- ===== src/PartitionHealing.antt =====
-- lib/partition_healing/healer.js: an attempt to heal the partition between this node and a target.
--
-- The target's answer to the join request and the result of `sendChanges` are arguments.
pub mod Harmless
pub mod Merge
pub mod Discovery
use ringpop_node.Common.{
  ℕ, String, Bool, true, false, not, ◌&&◌, List, [], ◌∷◌, map, Option, none, some, Dict, lookup,
  insert, keep, ltb, ltb_int, if◌then◌else◌,
}
use ringpop_node.Config.{Env}
use ringpop_node.Member.{Change, suspect, is_status_pingable, status_precedence}
use ringpop_node.Member.Precedence.{Known, claim_of}
use ringpop_node.Membership.Events.{Event}
use ringpop_node.Membership.State.{Membership}
use ringpop_node.Membership.Update.{Draw, update}
use ringpop_node.Gossip.Dissemination.{membership_as_changes}

unfoldable pub node_would_become_unpingable : Known → Known → Bool
node_would_become_unpingable current_state new_state =
    if not (is_status_pingable current_state.status)
    then false
    else if is_status_pingable new_state.status
    then false
    else if ltb new_state.incarnation_number current_state.incarnation_number
    then false
    else if ltb current_state.incarnation_number new_state.incarnation_number
    then true
    else ltb_int (status_precedence current_state.status) (status_precedence new_state.status)

-- A change without a source.
unfoldable pub create_suspect_change : Change → Change
create_suspect_change member = record {
  id = none;
  timestamp = 0;
  address = member.address;
  incarnation_number = member.incarnation_number;
  status = suspect;
  source = none;
  source_incarnation_number = none;
  damp_score = none;
  damped_timestamp = none;
}

-- `_.indexBy(…, 'address')`: of several changes with an address the last.
unfoldable pub index_by_address : List Change → Dict Change → Dict Change
index_by_address [] index = index
index_by_address (c ∷ cs) index = index_by_address cs (insert c.address c index)

-- The changes for this node's partition and for the target's, from a member `b` that the target knows.
unfoldable pub changes_from :
    Dict Change → Change → List Change × List Change → List Change × List Change
unfolding node_would_become_unpingable create_suspect_change
changes_from index b (for_a, for_b) = elim (lookup b.address index) [
  | none ↦ (for_a, for_b)
  | some a ↦ (
    (if node_would_become_unpingable (claim_of a) (claim_of b)
        then create_suspect_change b ∷ for_a
        else for_a),
    (if node_would_become_unpingable (claim_of b) (claim_of a)
        then create_suspect_change a ∷ for_b
        else for_b),
  )
]

unfoldable pub generate_changes : Dict Change → List Change → List Change × List Change
unfolding changes_from
generate_changes index [] = ([], [])
generate_changes index (b ∷ bs) = changes_from index b (generate_changes index bs)

-- What an attempt does: the membership afterwards, with what its update tells, and what was sent to
-- the target, if anything.
pub record Attempt : Type 0 where
  pub membership : Membership
  pub changes : List Change
  pub events : List Event
  pub sent : Option (List Change)

unfoldable pub attempt_of :
    Option (Membership × List Change × List Event) → Option (List Change) → Option Attempt
attempt_of none sent = none
attempt_of (some (m, changes, events)) sent =
    some (record { membership = m; changes = changes; events = events; sent = sent })

abbrev pub unless_empty : List Change → Option (List Change)
unless_empty [] = none
unless_empty (c ∷ cs) = some (c ∷ cs)

-- `reincarnate`: the update with no changes does nothing.
unfoldable pub reincarnate_nodes :
    Env → Bool → ℕ → (ℕ → Draw) → List Change → List Change → Membership → Option Attempt
unfolding attempt_of
reincarnate_nodes env is_ready now draws for_a for_b m =
    attempt_of (update env is_ready now draws for_a m) (unless_empty for_b)

-- `merge`: the full membership that is sent is that after the update.
unfoldable pub merge_membership :
    Env → Bool → ℕ → (ℕ → Draw) → List Change → Membership → Option Attempt
merge_membership env is_ready now draws membership_b m =
    elim (update env is_ready now draws membership_b m) [
      | none ↦ none
      | some (m', changes, events) ↦ some (record {
        membership = m';
        changes = changes;
        events = events;
        sent = some (membership_as_changes env.whoami m');
      })
    ]

-- `processChanges`.
unfoldable pub process_changes :
    Env
    → Bool
    → ℕ
    → (ℕ → Draw)
    → List Change
    → List Change × List Change
    → Membership
    → Option Attempt
unfolding reincarnate_nodes merge_membership
process_changes env is_ready now draws membership_b ([], []) m =
    merge_membership env is_ready now draws membership_b m
process_changes env is_ready now draws membership_b (c ∷ cs, for_b) m =
    reincarnate_nodes env is_ready now draws (c ∷ cs) for_b m
process_changes env is_ready now draws membership_b ([], c ∷ cs) m =
    reincarnate_nodes env is_ready now draws [] (c ∷ cs) m

-- From the target's membership on, up to `done`.
unfoldable pub heal_with : Env → Bool → ℕ → (ℕ → Draw) → List Change → Membership → Option Attempt
unfolding index_by_address generate_changes process_changes
heal_with env is_ready now draws membership_b m =
    process_changes env is_ready now draws membership_b
      (generate_changes (index_by_address (membership_as_changes env.whoami m) []) membership_b) m

addresses : List Change → List String
addresses [] = []
addresses (c ∷ cs) = c.address ∷ addresses cs

-- `done`: the hosts that the target can ping, unless the request or the sending failed.
unfoldable pub pingable_hosts : List Change → List String
unfolding addresses
pingable_hosts membership_b = addresses (keep (λ c. is_status_pingable c.status) membership_b)

-- What `attemptHeal` calls back with; `send_failed` is the outcome of `sendChanges`, if it was called.
abbrev pub has_failed : Option (List Change) → Bool → Bool
has_failed none send_failed = false
has_failed (some sent) send_failed = send_failed

-- `attemptHeal`: the target's membership is `none` if the join request failed. An answer without an attempt stands
-- for a failed request, the inner option for the hosts, which an error leaves out.
unfoldable pub attempt_heal :
    Env
    → Bool
    → ℕ
    → (ℕ → Draw)
    → Option (List Change)
    → Bool
    → Membership
    → Option (Option Attempt × Option (List String))
unfolding heal_with pingable_hosts
attempt_heal env is_ready now draws none send_failed m = some (none, none)
attempt_heal env is_ready now draws (some membership_b) send_failed m =
    elim (heal_with env is_ready now draws membership_b m) [
      | none ↦ none
      | some attempt ↦ some (
        some attempt,
        if has_failed attempt.sent send_failed then none else some (pingable_hosts membership_b),
      )
    ]
