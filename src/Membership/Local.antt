-- ===== src/Membership/Local.antt =====
-- lib/membership/index.js: the operations on top of `update`: claims about one member, the local status,
-- eviction, the stash, the shuffle and the decay of the damp scores.
use ringpop_node.Common.{
  ℕ, String, Bool, not, List, [], ◌∷◌, ◌++◌, map, Option, none, some, length, keep, lookup, delete,
  ◌==◌, if◌then◌else◌, str_eq,
}
use ringpop_node.Config.{Env}
use ringpop_node.Member.{
  Member, Change, Status, alive, faulty, suspect, tombstone, new_member, new_update, is_tombstone,
  is_leave,
}
use ringpop_node.Member.Damping.{decay_damp_score}
use ringpop_node.Membership.Events.{Event, updated, set_updates, local_member_leave, member_event}
use ringpop_node.Membership.State.{Membership, write}
use ringpop_node.Membership.Checksum.{compute_checksum}
use ringpop_node.Membership.Merge.{merge_membership_changesets}
-- What one round draws from outside: `Math.random()` times 2 ^ 53, and a uuid.
use ringpop_node.Membership.Update.{Draw, reincarnate, add_member, update}

abbrev local_of : Membership → Option Member
local_of m = elim m.local_member [ none ↦ none | some r ↦ some (m.heap r) ]

-- `makeChange`, with `_updateMember`; the change takes the last id drawn.
unfoldable pub make_change :
    Env
    → Bool
    → ℕ
    → ℕ
    → (ℕ → Draw)
    → String
    → ℕ
    → Status
    → Membership
    → Option (Membership × List Change × List Event)
make_change env is_ready id now draws address incarnation_number status m =
    update env is_ready now draws
      (new_update id now address incarnation_number status (local_of m) ∷ []) m

unfoldable pub make_faulty :
    Env
    → Bool
    → ℕ
    → ℕ
    → (ℕ → Draw)
    → String
    → ℕ
    → Membership
    → Option (Membership × List Change × List Event)
make_faulty env is_ready id now draws address incarnation_number m =
    make_change env is_ready id now draws address incarnation_number faulty m

unfoldable pub make_suspect :
    Env
    → Bool
    → ℕ
    → ℕ
    → (ℕ → Draw)
    → String
    → ℕ
    → Membership
    → Option (Membership × List Change × List Event)
make_suspect env is_ready id now draws address incarnation_number m =
    make_change env is_ready id now draws address incarnation_number suspect m

unfoldable pub make_tombstone :
    Env
    → Bool
    → ℕ
    → ℕ
    → (ℕ → Draw)
    → String
    → ℕ
    → Membership
    → Option (Membership × List Change × List Event)
make_tombstone env is_ready id now draws address incarnation_number m =
    make_change env is_ready id now draws address incarnation_number tombstone m

unfoldable pub post_local_update :
    Env → Option (Membership × Change) → Option (Membership × List Event)
post_local_update env none = none
post_local_update env (some (m, update)) =
    let (m', summed) = compute_checksum env m in some (m', summed ++ updated (update ∷ []) ∷ [])

-- The first branch of `setLocalStatus` sets the status, the second makes the local member; the
-- event about leaving carries the status before.
unfoldable pub set_status : Env → ℕ → ℕ → Status → Membership → Membership × List Event
unfolding add_member
set_status env id now status m = elim m.local_member [
  | none ↦ (
    record (add_member (length m.members)
        (new_member env (new_update id now env.whoami now status none)) m) {
          local_member = some m.next;
        },
    [],
  )
  | some r ↦ (
    record m { heap = write m.heap r (record (m.heap r) { status = status }) },
    if is_leave status then local_member_leave (m.heap r).status ∷ [] else [],
  )
]

unfoldable pub set_local_status :
    Env → ℕ → ℕ → Status → Membership → Option (Membership × List Event)
unfolding set_status post_local_update
set_local_status env id now status m =
    let (m₁, left) = set_status env id now status m in
    elim (post_local_update env (reincarnate id now m₁)) [
      | none ↦ none
      | some (m₂, events) ↦ some (m₂, left ++ events)
    ]

unfoldable pub make_local_alive : Env → ℕ → ℕ → Membership → Option (Membership × List Event)
make_local_alive env id now m = set_local_status env id now alive m

-- `removeMember`: `_.without` drops every reference to the object.
unfoldable pub remove_member : Env → String → Membership → Membership × List Event
remove_member env address m = elim (lookup address m.members_by_address) [
  | none ↦ (m, [])
  | some r ↦ compute_checksum env (record m {
    members_by_address = delete address m.members_by_address;
    members = keep (λ q. not (q == r)) m.members;
  })
]

unfoldable pub evict : Env → String → Membership → Option (Membership × List Event)
evict env address m = elim m.local_member [
  | none ↦ none
  | some l ↦
      if str_eq (m.heap l).address address then some (m, []) else some (remove_member env address m)
]

-- The loop of `set`: each update that is no tombstone becomes a member at the end.
unfoldable pub set_members : Env → List Change → Membership → Membership
unfolding add_member
set_members env [] m = m
set_members env (u ∷ us) m =
    set_members env us
      (if is_tombstone u.status then m else add_member (length m.members) (new_member env u) m)

unfoldable pub set_merged : Env → List Change → Membership → Membership × List Event
set_merged env updates m =
    let (m', summed) =
      compute_checksum env (record (set_members env updates m) { stashed_updates = none }) in
    (m', summed ++ set_updates updates ∷ [])

-- `Membership.prototype.set`.
unfoldable pub set : Env → Bool → Membership → Membership × List Event
unfolding set_merged
set env is_ready m = if is_ready then (m, []) else elim m.stashed_updates [
  | none ↦ (m, [])
  | some [] ↦ (m, [])
  | some (cs ∷ css) ↦ set_merged env (merge_membership_changesets env.whoami (cs ∷ css)) m
]

-- `shuffle`, with underscore's as a parameter.
unfoldable pub shuffle : (List ℕ → List ℕ) → Membership → Membership
shuffle mix m = record m { members = mix m.members }

-- `_decayMembersDampScore`, from the rest of the members.
unfoldable pub decay_loop : Env → ℕ → List ℕ → Membership → Membership × List Event
decay_loop env now [] m = (m, [])
decay_loop env now (r ∷ rs) m =
    let (x, events) = decay_damp_score env now (m.heap r) in
    let (m', events') = decay_loop env now rs (record m { heap = write m.heap r x }) in
    (m', map member_event events ++ events')

unfoldable pub decay_members_damp_score : Env → ℕ → Membership → Membership × List Event
unfolding decay_loop
decay_members_damp_score env now m = decay_loop env now m.members m
