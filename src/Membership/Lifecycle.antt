-- ===== src/Membership/Lifecycle.antt =====
-- The operations besides `update`: the local status, eviction, the damp score decayer, shuffling
-- and the stashed updates.
use ringpop_node.Common.{
  ℕ, String, ◌≡◌, ◌≢◌, ◌↔◌, refl, ◌∙◌, ◌⊎◌, inl, inr, not, ◌&&◌, List, [], ◌∷◌, ◌++◌, none, some,
  arith, length, lookup, lookup-delete, lookup-insert, if◌then◌else◌, str_eq, eq_iff, Bool-cases,
  Option-cases, In, Distinct,
}
use ringpop_node.Config.{Env}
use ringpop_node.Member.{Status, new_member, new_update}
use ringpop_node.Member.Damping.{decay_damp_score, decay_damp_score-address}
use ringpop_node.Membership.Events.{Event, updated}
use ringpop_node.Membership.State.{Membership}
use ringpop_node.Membership.Checksum.{compute_checksum}
use ringpop_node.Membership.Local.{
  set_status, set_local_status, post_local_update, remove_member, evict, shuffle, decay_loop,
  decay_members_damp_score,
}
use ringpop_node.Membership.Consistency.{
  IsConsistent, write-IsConsistent, add-IsConsistent, remove-IsConsistent, local_address,
}
use ringpop_node.Membership.Keeps.{compute_checksum-IsConsistent, reincarnate-Keeps}

-- A local member is there, or the node's address is still free.
abbrev pub HasRoom : Env → Membership → Type 0
HasRoom env m =
    ((l : ℕ) × (m.local_member ≡ some l))
    ⊎ ((m.local_member ≡ none) × (lookup env.whoami m.members_by_address ≡ none))

-- The member list with the local member added or its status set, before the reincarnation.
set_status-IsConsistent :
    (env : Env) (id now : ℕ) (status : Status) (m : Membership)
    → IsConsistent env m
    → HasRoom env m
    → IsConsistent env (set_status env id now status m).0
      × ((l : ℕ) × ((set_status env id now status m).0.local_member ≡ some l))
unfolding set_status new_member new_update
set_status-IsConsistent env id now status m v (inl (l, e)) =
    rw (e, set_status) (write-IsConsistent v l (record (m.heap l) { status = status }) refl, (l, e))
set_status-IsConsistent env id now status m v (inr (e, free)) =
    let x = new_member env (new_update id now env.whoami now status none) in
    let w = add-IsConsistent v (length m.members) x free in
    rw (e, set_status)
      (
        record {
          indexed = w.indexed;
          listed = w.listed;
          distinct = w.distinct;
          local = λ r h. ground (
            arith,
            lookup-insert env.whoami env.whoami m.next m.members_by_address,
            eq_iff env.whoami env.whoami,
          );
        },
        (m.next, refl),
      )

-- `setLocalStatus` returns with a consistent member list and a local member, whether there was one
-- before or not.
pub set_local_status-IsConsistent :
    (env : Env) (id now : ℕ) (status : Status) (m : Membership)
    → IsConsistent env m
    → HasRoom env m
    → (m' : Membership) × (events : List Event) × (l : ℕ) × (set_local_status env id now status m
        ≡ some (m', events))
      × IsConsistent env m'
      × (m'.local_member ≡ some l)
unfolding set_local_status post_local_update
set_local_status-IsConsistent env id now status m v room =
    let (w, (l, e)) = set_status-IsConsistent env id now status m v room in
    let m₁ = (set_status env id now status m).0 in
    let (m₂, c, returned, w₂, e₂) = reincarnate-Keeps env now l id m₁ w e in
    (
      (compute_checksum env m₂).0,
      (set_status env id now status m).1 ++ ((compute_checksum env m₂).1 ++ updated (c ∷ []) ∷ []),
      l,
      rw (returned, set_local_status, post_local_update),
      compute_checksum-IsConsistent env m₂ w₂,
      unfold compute_checksum in e₂,
    )

remove_member-IsConsistent :
    (env : Env) (a : String) (m : Membership)
    → a ≢ env.whoami
    → IsConsistent env m
    → IsConsistent env (remove_member env a m).0
      × ((b : String)
          → lookup b (remove_member env a m).0.members_by_address
            ≡ (if str_eq a b then none else lookup b m.members_by_address))
unfolding remove_member
remove_member-IsConsistent env a m n v = elim (Option-cases (lookup a m.members_by_address)) [
  | inl e ↦ rw (e, remove_member) (v, λ b. ground (arith, e, eq_iff a b))
  | inr (r, e) ↦
      rw (e, remove_member)
        (
          compute_checksum-IsConsistent env _ (remove-IsConsistent v a r e n),
          λ b. unfold compute_checksum in lookup-delete a b m.members_by_address,
        )
]

-- `evict` returns once there is a local member and keeps the list consistent. An address other than
-- the local one is unknown afterwards; which member any other address has does not change.
pub evict-IsConsistent :
    (env : Env) (a : String) (m : Membership) (l : ℕ)
    → IsConsistent env m
    → m.local_member ≡ some l
    → (m' : Membership) × (events : List Event) × (evict env a m ≡ some (m', events))
      × IsConsistent env m'
      × ((b : String)
          → lookup b m'.members_by_address ≡ (
              if str_eq a b && not (str_eq a env.whoami)
              then none
              else lookup b m.members_by_address))
unfolding evict
evict-IsConsistent env a m l v e = elim (Bool-cases (str_eq (m.heap l).address a)) [
  | inl own ↦ (
    m,
    [],
    ground (arith, e, own),
    v,
    λ b. ground (arith, own, local_address v l e, eq_iff (m.heap l).address a, eq_iff a env.whoami),
  )
  | inr other ↦
      let n : a ≢ env.whoami =
        λ q. ground (arith, other, local_address v l e, eq_iff (m.heap l).address a) in
      let (w, looked) = remove_member-IsConsistent env a m n v in
      (
        (remove_member env a m).0,
        (remove_member env a m).1,
        ground (arith, e, other),
        w,
        λ b. looked b ∙ ground (arith, eq_iff a env.whoami),
      )
]

-- The loop over the references that are left.
decay_loop-IsConsistent :
    (env : Env) (now : ℕ) (rs : List ℕ) (m : Membership)
    → IsConsistent env m
    → IsConsistent env (decay_loop env now rs m).0
unfolding decay_loop
decay_loop-IsConsistent env now [] m v = v
decay_loop-IsConsistent env now (r ∷ rs) m v = decay_loop-IsConsistent env now rs _ (
    write-IsConsistent v r (decay_damp_score env now (m.heap r)).0
      (decay_damp_score-address env now (m.heap r)).0)

-- Decaying the damp scores of all members keeps the member list consistent.
pub decay_members_damp_score-IsConsistent :
    (env : Env) (now : ℕ) (m : Membership)
    → IsConsistent env m
    → IsConsistent env (decay_members_damp_score env now m).0
unfolding decay_members_damp_score
decay_members_damp_score-IsConsistent env now m v = decay_loop-IsConsistent env now m.members m v

-- A shuffle that keeps the items of the array, each once, keeps the member list consistent.
pub shuffle-IsConsistent :
    (env : Env) (mix : List ℕ → List ℕ) (m : Membership)
    → ((r : ℕ) → In r (mix m.members) ↔ In r m.members)
    → Distinct (mix m.members)
    → IsConsistent env m
    → IsConsistent env (shuffle mix m)
unfolding shuffle
shuffle-IsConsistent env mix m same distinct v = record {
  indexed = λ a r h. (let (p, q, k) = v.indexed a r h in (p, q, (same r).1 k));
  listed = λ r h. v.listed r ((same r).0 h);
  distinct = distinct;
  local = v.local;
}
