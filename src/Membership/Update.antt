-- ===== src/Membership/Update.antt =====
-- lib/membership/index.js: the operations of `Membership` that change it. An operation returns
-- the new state, its result and the events in their order; `none` is the `TypeError` of reading
-- a field of `localMember` while that is null. A call reads the clock once, as `now`.
use ringpop_node.Common.{
  ℕ, suc, Bool, List, [], ◌∷◌, ◌++◌, map, Option, none, some, insert_idx, lookup, insert,
  if◌then◌else◌, str_eq,
}
use ringpop_node.Config.{Env}
use ringpop_node.Member.{Member, Change, new_member, new_update, should_process_gossip}
use ringpop_node.Member.Damping.{apply_update}
use ringpop_node.Membership.Events.{Event, updated, member_event}
use ringpop_node.Membership.State.{Membership, write, find_member_by_address, get_join_position}
use ringpop_node.Membership.Checksum.{compute_checksum}

-- What one round draws from outside: `Math.random()` times 2 ^ 53, and a uuid.
pub record Draw : Type 0 where
  pub random : ℕ
  pub id : ℕ

-- `_reincarnate`.
unfoldable pub reincarnate : ℕ → ℕ → Membership → Option (Membership × Change)
reincarnate id now m = elim m.local_member [
  | none ↦ none
  | some r ↦
      let local = record (m.heap r) { incarnation_number = now } in
      some (
        record m { heap = write m.heap r local },
        new_update id now local.address now local.status (some local),
      )
]

-- A new object in `members`, at a position, and in the index.
unfoldable pub add_member : ℕ → Member → Membership → Membership
add_member position x m = record m {
  heap = write m.heap m.next x;
  next = suc m.next;
  members = insert_idx m.members position m.next;
  members_by_address = insert x.address m.next m.members_by_address;
}

-- `member.applyUpdate(change)`, or a new member where there is none.
unfoldable pub apply_change : Env → ℕ → ℕ → Change → Option ℕ → Membership → Membership × List Event
unfolding add_member
apply_change env now random change none m =
    (add_member (get_join_position random m) (new_member env change) m, [])
apply_change env now random change (some r) m =
    let (x, events) = apply_update env now change (m.heap r) in
    (record m { heap = write m.heap r x }, map member_event events)

-- An accepted change. One about the local member is refuted by a new incarnation.
unfoldable pub accept_change :
    Env → ℕ → Draw → Change → Membership → Option (Membership × Option Change × List Event)
unfolding apply_change reincarnate
accept_change env now draw change m = elim m.local_member [
  | none ↦ none
  | some l ↦
      if str_eq change.address (m.heap l).address
      then elim (reincarnate draw.id now m) [
        | none ↦ none
        | some (m', refutation) ↦ some (m', some refutation, [])
      ]
      else (let (m', events) =
            apply_change env now draw.random change (lookup change.address m.members_by_address)
              m in
          some (m', some change, events))
]

-- One round of the loop of `update`.
unfoldable pub update_change :
    Env → ℕ → Draw → Change → Membership → Option (Membership × Option Change × List Event)
unfolding accept_change find_member_by_address
update_change env now draw change m =
    if should_process_gossip (find_member_by_address m change.address) change
    then accept_change env now draw change m
    else some (m, none, [])

abbrev pub cons_some : Option Change → List Change → List Change
cons_some none cs = cs
cons_some (some c) cs = c ∷ cs

-- The loop, from round `i`; it collects the changes that were applied.
unfoldable pub update_loop :
    Env
    → ℕ
    → (ℕ → Draw)
    → ℕ
    → List Change
    → Membership
    → Option (Membership × List Change × List Event)
update_loop env now draws i [] m = some (m, [], [])
update_loop env now draws i (c ∷ cs) m = elim (update_change env now (draws i) c m) [
  | none ↦ none
  | some (m₁, change, events) ↦ elim (update_loop env now draws (suc i) cs m₁) [
    | none ↦ none
    | some (m₂, changes, events') ↦ some (m₂, cons_some change changes, events ++ events')
  ]
]

unfoldable pub finish_update :
    Env
    → Option (Membership × List Change × List Event)
    → Option (Membership × List Change × List Event)
finish_update env none = none
finish_update env (some (m, [], events)) = some (m, [], events)
finish_update env (some (m, c ∷ cs, events)) =
    let (m', summed) = compute_checksum env m in
    some (m', c ∷ cs, events ++ (summed ++ updated (c ∷ cs) ∷ []))

unfoldable pub stash : List Change → Membership → Membership
stash changes m = record m {
  stashed_updates = elim m.stashed_updates [ none ↦ none | some css ↦ some (css ++ changes ∷ []) ];
}

-- `Membership.prototype.update`; the flag is `ringpop.isReady`.
unfoldable pub update :
    Env
    → Bool
    → ℕ
    → (ℕ → Draw)
    → List Change
    → Membership
    → Option (Membership × List Change × List Event)
unfolding finish_update stash
update env is_ready now draws [] m = some (m, [], [])
update env is_ready now draws (c ∷ cs) m =
    if is_ready
    then finish_update env (update_loop env now draws 0 (c ∷ cs) m)
    else some (stash (c ∷ cs) m, [], [])
