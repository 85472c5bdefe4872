-- ===== src/Examples/Members.antt =====
-- Tests of the member list.
use mathlib.Core.List.Perm
use ringpop_node.Common.{
  ℕ, ◌≡◌, ◌↔◌, refl, inl, inr, String, true, false, not, ◌&&◌, ◌||◌, List, [], ◌∷◌, none, some,
  arith, if◌then◌else◌, lookup, In, is_some, str_eq,
}
use ringpop_node.Config.{Decays}
use ringpop_node.Member.{Change, alive, suspect, faulty, status_precedence}
use ringpop_node.Member.Damping.{apply_update, decay_damp_score, IsScored, apply_update-IsScored}
use ringpop_node.Member.Precedence.{Known, older}
use ringpop_node.Membership.Events.{Event}
use ringpop_node.Membership.State.{Membership}
use ringpop_node.Membership.Checksum.{generate_checksum_string}
use ringpop_node.Membership.Checksum.Order.{generate_checksum_string-perm}
use ringpop_node.Membership.Merge.{merge_membership_changesets}
use ringpop_node.Membership.Merge.Newest.{IsMergeOf, merge_membership_changesets-IsMergeOf}
use ringpop_node.Membership.Update.{Draw, update}
use ringpop_node.Membership.Local.{set, evict}
use ringpop_node.Membership.Consistency.{IsConsistent}
use ringpop_node.Membership.Keeps.{Keeps, update-Keeps}
use ringpop_node.Membership.View.{view, apply_claims}
use ringpop_node.Membership.Refinement.{Reads, update-refines}
use ringpop_node.Membership.Agreement.{Knows, IsReady, update-converge, update-newer}
use ringpop_node.Membership.Stash.{some_lives, set-IsConsistent}
use ringpop_node.Membership.Lifecycle.{evict-IsConsistent}
use ringpop_node.Examples.Data.{
  env, change, member, members, starting, members-IsConsistent, starting-IsConsistent,
  starting_alone, differ,
}

abbrev draws : ℕ → Draw
draws i = record { random = i; id = i }

-- The node is called suspect, `b:1` faulty, and a new node joins.
abbrev changes : List Change
changes = change "a:1" 1 suspect ∷ change "b:1" 2 faulty ∷ change "c:1" 5 alive ∷ []

update-refines_example :
    Reads (apply_claims "a:1" 50 changes (view members)) (update env true 50 draws changes members)
update-refines_example = update-refines env 50 0 draws changes members members-IsConsistent refl

update-Keeps_example : Keeps env 0 (update env true 50 draws changes members)
update-Keeps_example = update-Keeps env 50 0 true draws changes members members-IsConsistent refl

members-IsReady : IsReady env members
members-IsReady = record { consistent = members-IsConsistent; local = 0; known = refl }

-- What the node knows of `b:1`.
abbrev suspected : Known
suspected = record { incarnation_number = 2; status = suspect }

abbrev twice : List Change
twice = change "b:1" 2 faulty ∷ change "b:1" 3 alive ∷ change "b:1" 2 faulty ∷ []

abbrev once : List Change
once = change "b:1" 3 alive ∷ change "b:1" 2 faulty ∷ []

same_claims : (c : Change) → In c twice ↔ In c once
same_claims c = (
  λ h. elim h [
    | inl e ↦ inr (inl e)
    | inr (inl e) ↦ inl e
    | inr (inr (inl e)) ↦ inr (inl e)
    | inr (inr (inr k)) ↦ absurd k
  ],
  λ h. elim h [ inl e ↦ inr (inl e) | inr (inl e) ↦ inl e | inr (inr k) ↦ absurd k ],
)

update-converge_example :
    (k₁ : Known) × (k₂ : Known) × Knows "b:1" k₁ (update env true 50 draws twice members)
    × Knows "b:1" k₂ (update env true 60 draws once members)
    × (k₁.incarnation_number ≡ k₂.incarnation_number)
    × (status_precedence k₁.status ≡ status_precedence k₂.status)
unfolding view lookup
update-converge_example =
    update-converge env env 50 60 draws draws members members "b:1" twice once suspected
      members-IsReady members-IsReady (differ "b:1" "a:1" refl) (differ "b:1" "a:1" refl) refl refl
      same_claims

update-newer_example :
    (k : Known) × Knows "b:1" k (update env true 50 draws twice members)
    × (older k suspected ≡ false)
unfolding view lookup
update-newer_example =
    update-newer env 50 draws members members-IsReady "b:1" twice suspected
      (differ "b:1" "a:1" refl) refl

abbrev changesets : List (List Change)
changesets =
    (change "a:1" 9 faulty ∷ change "b:1" 2 alive ∷ []) ∷ (change "b:1" 3 suspect ∷ []) ∷ []

merge_membership_changesets-IsMergeOf_example :
    IsMergeOf "a:1" changesets (merge_membership_changesets "a:1" changesets)
merge_membership_changesets-IsMergeOf_example =
    merge_membership_changesets-IsMergeOf "a:1" changesets

set-IsConsistent_example :
    IsConsistent env (set env false starting).0
    × ((set env false starting).0.stashed_updates ≡ none)
    × ((a : String)
        → is_some (lookup a (set env false starting).0.members_by_address) ≡ (
            is_some (lookup a starting.members_by_address)
            || some_lives a (
                merge_membership_changesets "a:1"
                  ((change "b:1" 2 alive ∷ []) ∷ (change "c:1" 3 suspect ∷ []) ∷ []))))
set-IsConsistent_example =
    set-IsConsistent env (change "b:1" 2 alive ∷ []) ((change "c:1" 3 suspect ∷ []) ∷ []) starting
      starting-IsConsistent starting_alone refl

evict-IsConsistent_example :
    (m' : Membership) × (events : List Event) × (evict env "b:1" members ≡ some (m', events))
    × IsConsistent env m'
    × ((b : String)
        → lookup b m'.members_by_address ≡ (
            if str_eq "b:1" b && not (str_eq "b:1" "a:1")
            then none
            else lookup b members.members_by_address))
evict-IsConsistent_example = evict-IsConsistent env "b:1" members 0 members-IsConsistent refl

generate_checksum_string-perm_example :
    generate_checksum_string (member "a:1" 1 alive ∷ member "b:1" 2 suspect ∷ [])
    ≡ generate_checksum_string (member "b:1" 2 suspect ∷ member "a:1" 1 alive ∷ [])
generate_checksum_string-perm_example =
    generate_checksum_string-perm (member "a:1" 1 alive ∷ member "b:1" 2 suspect ∷ [])
      (member "b:1" 2 suspect ∷ member "a:1" 1 alive ∷ [])
      (Perm.swap (member "b:1" 2 suspect) (member "a:1" 1 alive) [])
      (
        (λ h. elim h [ inl e ↦ differ "a:1" "b:1" refl e | inr k ↦ absurd k ]),
        ((λ h. absurd h), tt),
      )

env-Decays : Decays env
env-Decays score now last half_life h = omega arith

apply_update-IsScored_example :
    IsScored env (decay_damp_score env 50 (member "b:1" 2 suspect)).0
    × IsScored env (apply_update env 50 (change "b:1" 3 alive) (member "b:1" 2 suspect)).0
apply_update-IsScored_example =
    apply_update-IsScored env env-Decays
      (record { ordered = omega arith; initial_min = omega arith; initial_max = omega arith }) 50
      (change "b:1" 3 alive) (member "b:1" 2 suspect) (omega arith)
      (record { current = (omega arith, omega arith); last = (omega arith, omega arith) })
