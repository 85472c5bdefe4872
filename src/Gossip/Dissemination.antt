-- ===== src/Gossip/Dissemination.antt =====
-- lib/gossip/dissemination.js: the changes that a node passes on, each for a limited number of times.

pub mod Issue
pub mod Counts
pub mod Rounds
pub mod Sources
use ringpop_node.Common.{
  ℕ, zero, suc, ◌+◌, ◌-◌, ◌*◌, ◌≡◌, String, Bool, true, false, not, ◌&&◌, List, [], ◌∷◌, ◌++◌, map,
  Option, none, some, Dict, lookup, insert, delete, keys, length, ◌==◌, leb, if◌then◌else◌, str_eq,
}
use ringpop_node.Config.{Env}
use ringpop_node.Member.{Change, Member, Status}
use ringpop_node.Membership.State.{Membership, member_list}

-- A recorded change with its `piggybackCount`.
pub record Recorded : Type 0 where
  pub change : Change
  pub piggyback_count : ℕ

pub record Dissemination : Type 0 where
  pub changes : Dict Recorded
  pub reverse_full_sync_jobs : ℕ
  pub max_piggyback_count : ℕ
  pub piggyback_factor : ℕ

-- The constructor, with `Dissemination.Defaults`.
unfoldable pub new_dissemination : Dissemination
new_dissemination = record {
  changes = [];
  reverse_full_sync_jobs = 0;
  max_piggyback_count = 1;
  piggyback_factor = 15;
}

-- `adjustMaxPiggybackCount`; the flag tells whether it emitted `maxPiggybackCountAdjusted`.
unfoldable pub adjust_max_piggyback_count : Env → ℕ → Dissemination → Dissemination × Bool
adjust_max_piggyback_count env server_count d =
    let count = d.piggyback_factor * env.ceil_log10 (server_count + 1) in
    if d.max_piggyback_count == count
    then (d, false)
    else (record d { max_piggyback_count = count }, true)

unfoldable pub clear_changes : Dissemination → Dissemination
clear_changes d = record d { changes = [] }

-- `membershipAsChanges`: the changes of a full sync carry no id and no source incarnation.
unfoldable pub member_as_change : String → Member → Change
member_as_change whoami m = record {
  id = none;
  timestamp = 0;
  address = m.address;
  incarnation_number = m.incarnation_number;
  status = m.status;
  source = some whoami;
  source_incarnation_number = none;
  damp_score = none;
  damped_timestamp = none;
}

unfoldable pub membership_as_changes : String → Membership → List Change
unfolding member_as_change
membership_as_changes whoami m = map (member_as_change whoami) (member_list m)

unfoldable pub is_empty : Dissemination → Bool
is_empty d = length d.changes == 0

unfoldable pub record_change : Change → Dissemination → Dissemination
record_change change d = record d {
  changes = insert change.address (record { change = change; piggyback_count = 0 }) d.changes;
}

-- What `_issueAs` copies of a change.
unfoldable pub issued : Change → Change
issued c = record c { timestamp = 0; damp_score = none; damped_timestamp = none }

-- One round of the loop of `_issueAs`, with the rest of the loop: a change that the filter holds
-- back stays, one that was issued often enough is dropped, any other is issued. The number counts
-- the `changesExhausted` events.
unfoldable pub issue_one :
    (Change → Bool)
    → ℕ
    → String
    → Recorded
    → Dict Recorded
    → (Dict Recorded → Dict Recorded × List Change × ℕ)
    → Dict Recorded × List Change × ℕ
issue_one filter limit a r changes rest = elim (filter r.change) [
  | true ↦ rest changes
  | false ↦ elim (leb limit r.piggyback_count) [
    | true ↦
        (let (left, out, events) = rest (delete a changes) in
          (left, out, (if length (delete a changes) == 0 then 1 else 0) + events))
    | false ↦ (let (left, out, events) = rest changes in (left, issued r.change ∷ out, events))
  ]
]

-- The loop, over the keys at its start.
unfoldable pub issue_loop :
    (Change → Bool) → ℕ → List String → Dict Recorded → Dict Recorded × List Change × ℕ
issue_loop filter limit [] changes = (changes, [], 0)
issue_loop filter limit (a ∷ as') changes = elim (lookup a changes) [
  | none ↦ issue_loop filter limit as' changes
  | some r ↦ issue_one filter limit a r changes (issue_loop filter limit as')
]

unfoldable pub issue_as : (Change → Bool) → Dissemination → Dissemination × List Change × ℕ
issue_as filter d =
    let (left, out, events) = issue_loop filter d.max_piggyback_count (keys d.changes) d.changes in
    (record d { changes = left }, out, events)

-- `localChange.id === issuedChange.id`; two absent ids are equal.
abbrev pub same_id : Option ℕ → Option ℕ → Bool
same_id none none = true
same_id (some a) (some b) = a == b
same_id _ _ = false

-- The loop that raises the counts of the changes that were issued.
unfoldable pub bump : Change → Dict Recorded → Dict Recorded
bump c changes = elim (lookup c.address changes) [
  | none ↦ changes
  | some r ↦
      if same_id r.change.id c.id
      then insert c.address (record r { piggyback_count = suc r.piggyback_count }) changes
      else changes
]

unfoldable pub bump_all : List Change → Dict Recorded → Dict Recorded
unfolding bump
bump_all [] changes = changes
bump_all (c ∷ cs) changes = bump_all cs (bump c changes)

-- `issueAsSender`, up to the call of `issue`, and its callback `onIssue`, which runs later with the
-- changes that were issued.
unfoldable pub issue_as_sender : Dissemination → Dissemination × List Change × ℕ
unfolding issue_as issue_loop issue_one
issue_as_sender d = issue_as (λ _. false) d

unfoldable pub on_issue : Bool → List Change → Dissemination → Dissemination
unfolding bump_all
on_issue err out d = if err then d else record d { changes = bump_all out d.changes }

-- A value that JavaScript takes for true.
unfoldable pub truthy_text : Option String → Bool
truthy_text none = false
truthy_text (some s) = not (str_eq s "")

unfoldable pub truthy_number : Option ℕ → Bool
truthy_number none = false
truthy_number (some n) = not (n == 0)

unfoldable pub same_text : Option String → Option String → Bool
same_text (some s) (some t) = str_eq s t
same_text _ _ = false

-- `filterChange`: the change came from the sender, at its present incarnation.
unfoldable pub filter_change : Option String → Option ℕ → Change → Bool
unfolding truthy_text truthy_number same_text
filter_change sender incarnation c =
    truthy_text sender
    && (truthy_number incarnation
        && (truthy_text c.source
            && (truthy_number c.source_incarnation_number
                && (same_text sender c.source && same_id incarnation c.source_incarnation_number))))

-- `issueAsReceiver`: with nothing to issue and a different checksum, a full sync of the membership.
unfoldable pub full_sync_needed : List Change → Option ℕ → ℕ → Bool
full_sync_needed [] none sender_checksum = true
full_sync_needed [] (some checksum) sender_checksum = not (checksum == sender_checksum)
full_sync_needed (c ∷ cs) checksum sender_checksum = false

unfoldable pub issue_as_receiver :
    String
    → Membership
    → Option String
    → Option ℕ
    → ℕ
    → Dissemination
    → Dissemination × List Change × Bool
unfolding issue_as issue_loop issue_one full_sync_needed bump_all filter_change
    membership_as_changes
issue_as_receiver whoami m sender incarnation sender_checksum d =
    let (d', out, events) = issue_as (filter_change sender incarnation) d in
    let full_sync = full_sync_needed out m.checksum sender_checksum in
    let changes = if full_sync then membership_as_changes whoami m else out in
    (record d' { changes = bump_all changes d'.changes }, changes, full_sync)

-- `tryStartReverseFullSync` up to the request, and the end of the job, `onReverseFullSync`; the
-- flag tells whether a job was started.
unfoldable pub try_start_reverse_full_sync : ℕ → Dissemination → Dissemination × Bool
try_start_reverse_full_sync max_jobs d =
    if leb max_jobs d.reverse_full_sync_jobs
    then (d, false)
    else (record d { reverse_full_sync_jobs = suc d.reverse_full_sync_jobs }, true)

unfoldable pub on_reverse_full_sync : Dissemination → Dissemination
on_reverse_full_sync d = record d { reverse_full_sync_jobs = d.reverse_full_sync_jobs - 1 }
