-- ===== src/Membership/Stash.antt =====
-- `set`: the updates that were stashed until the node was ready become members.
use ringpop_node.Common.{
  ◌≡◌, ◌≢◌, refl, inl, inr, String, Bool, false, not, ◌&&◌, ◌||◌, List, [], ◌∷◌, map, none, some,
  arith, length, lookup, lookup-insert, if◌then◌else◌, str_eq, eq_iff, In, Distinct, Bool-cases,
  is_some, All, All-of_In,
}
use ringpop_node.Config.{Env}
use ringpop_node.Member.{Change, new_member, is_tombstone}
use ringpop_node.Membership.State.{Membership}
use ringpop_node.Membership.Checksum.{compute_checksum}
use ringpop_node.Membership.Merge.{merge_membership_changesets}
use ringpop_node.Membership.Merge.Newest.{IsMergeOf, merge_membership_changesets-IsMergeOf}
use ringpop_node.Membership.Update.{add_member}
use ringpop_node.Membership.Local.{set_members, set_merged, set}
use ringpop_node.Membership.Consistency.{IsConsistent, add-IsConsistent}
use ringpop_node.Membership.Keeps.{compute_checksum-IsConsistent}

abbrev addresses : List Change → List String
addresses = map (λ (c : Change). c.address)

abbrev IsFree : Membership → Change → Type 0
IsFree m c = lookup c.address m.members_by_address ≡ none

-- One update of the loop.
set_member : Env → Change → Membership → Membership
set_member env u m =
    if is_tombstone u.status then m else add_member (length m.members) (new_member env u) m

set_member-IsConsistent :
    (env : Env) (u : Change) (m : Membership)
    → IsConsistent env m
    → IsFree m u
    → IsConsistent env (set_member env u m)
unfolding set_member add_member new_member
set_member-IsConsistent env u m v free = elim (Bool-cases (is_tombstone u.status)) [
  | inl t ↦ rw t v
  | inr t ↦ rw t (add-IsConsistent v (length m.members) (new_member env u) free)
]

-- What is indexed after one update, and after all.
lookup-set_member :
    (env : Env) (u : Change) (m : Membership) (a : String)
    → lookup a (set_member env u m).members_by_address ≡ (
        if is_tombstone u.status
        then lookup a m.members_by_address
        else if str_eq u.address a
        then some m.next
        else lookup a m.members_by_address)
unfolding set_member add_member new_member
lookup-set_member env u m a = ground (arith, lookup-insert u.address a m.next m.members_by_address)

still-IsFree :
    (env : Env) (u : Change) (m : Membership) (us : List Change)
    → ¬ In u.address (addresses us)
    → All (IsFree m) us
    → All (IsFree (set_member env u m)) us
still-IsFree env u m [] n h = tt
still-IsFree env u m (c ∷ cs) n h = (
  ground (arith, h.0, lookup-set_member env u m c.address, eq_iff u.address c.address, n),
  still-IsFree env u m cs (λ i. n (inr i)) h.1,
)

set_members-IsConsistent :
    (env : Env) (us : List Change) (m : Membership)
    → IsConsistent env m
    → Distinct (addresses us)
    → All (IsFree m) us
    → IsConsistent env (set_members env us m)
unfolding set_members set_member
set_members-IsConsistent env [] m v d free = v
set_members-IsConsistent env (u ∷ us) m v d free =
    set_members-IsConsistent env us (set_member env u m) (set_member-IsConsistent env u m v free.0)
      d.1 (still-IsFree env u m us d.0 free.1)

-- Some update of the list is about the address and is no tombstone.
abbrev pub some_lives : String → List Change → Bool
some_lives a [] = false
some_lives a (u ∷ us) = (not (is_tombstone u.status) && str_eq u.address a) || some_lives a us

known-set_member :
    (env : Env) (u : Change) (m : Membership) (a : String)
    → is_some (lookup a (set_member env u m).members_by_address) ≡ (
        is_some (lookup a m.members_by_address)
        || (not (is_tombstone u.status) && str_eq u.address a))
known-set_member env u m a = ground (arith, lookup-set_member env u m a)

known-set_members :
    (env : Env) (us : List Change) (m : Membership) (a : String)
    → is_some (lookup a (set_members env us m).members_by_address)
      ≡ (is_some (lookup a m.members_by_address) || some_lives a us)
unfolding set_members set_member
known-set_members env [] m a = ground arith
known-set_members env (u ∷ us) m a =
    ground (arith, known-set_members env us (set_member env u m) a, known-set_member env u m a)

-- Before the node is ready, with only its own address in the list, `set` turns the stash into
-- members: the list stays consistent, the stash is gone, and an address is known exactly if it was
-- before or some merged update about it is no tombstone.
pub set-IsConsistent :
    (env : Env) (cs : List Change) (css : List (List Change)) (m : Membership)
    → IsConsistent env m
    → ((a : String) → a ≢ env.whoami → lookup a m.members_by_address ≡ none)
    → m.stashed_updates ≡ some (cs ∷ css)
    → IsConsistent env (set env false m).0
      × ((set env false m).0.stashed_updates ≡ none)
      × ((a : String)
          → is_some (lookup a (set env false m).0.members_by_address) ≡ (
              is_some (lookup a m.members_by_address)
              || some_lives a (merge_membership_changesets env.whoami (cs ∷ css))))
unfolding set set_merged compute_checksum
set-IsConsistent env cs css m v alone e =
    rw (e, set)
      (
        compute_checksum-IsConsistent env (record (set_members env us m) { stashed_updates = none })
            (record {
              indexed = w.indexed;
              listed = w.listed;
              distinct = w.distinct;
              local = w.local;
            }),
        refl,
        known-set_members env us m,
      )
  where
    us : List Change
    us = merge_membership_changesets env.whoami (cs ∷ css)

    merge : IsMergeOf env.whoami (cs ∷ css) us
    merge = merge_membership_changesets-IsMergeOf env.whoami (cs ∷ css)

    w : IsConsistent env (set_members env us m)
    w =
        set_members-IsConsistent env us m v merge.unique
          (All-of_In (IsFree m) us (λ c i. alone c.address (merge.sound c i).0))
