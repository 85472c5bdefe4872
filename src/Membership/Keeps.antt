-- ===== src/Membership/Keeps.antt =====
-- Every operation of the member list keeps it consistent, and returns once there is a local member.
use ringpop_node.Common.{
  ℕ, suc, ◌≡◌, refl, ◌∙◌, inl, inr, Bool, true, false, List, [], ◌∷◌, ◌++◌, Option, none, some,
  arith, lookup, str_eq, Bool-cases,
}
use ringpop_node.Config.{Env}
use ringpop_node.Member.{Change, new_member, new_update, should_process_gossip}
use ringpop_node.Member.Damping.{apply_update, apply_update_claim}
use ringpop_node.Membership.Events.{Event}
use ringpop_node.Membership.State.{Membership, write, get_join_position, find_member_by_address}
use ringpop_node.Membership.Checksum.{compute_checksum}
use ringpop_node.Membership.Update.{
  Draw, reincarnate, cons_some, finish_update, apply_change, accept_change, update_change,
  update_loop, update,
}
use ringpop_node.Membership.Consistency.{IsConsistent, write-IsConsistent, add-IsConsistent}

-- The call returned, with a consistent member list that has the same local member.
abbrev pub Keeps : Env → ℕ → {B C : Type 0} → Option (Membership × B × C) → Type 0
Keeps env l none = ⊥
Keeps env l (some (m, b, c)) = IsConsistent env m × (m.local_member ≡ some l)

-- The checksum is no part of the invariant.
pub compute_checksum-IsConsistent :
    (env : Env) (m : Membership) → IsConsistent env m → IsConsistent env (compute_checksum env m).0
unfolding compute_checksum
compute_checksum-IsConsistent env m v = record {
  indexed = v.indexed;
  listed = v.listed;
  distinct = v.distinct;
  local = v.local;
}

module _ (env : Env) (now l : ℕ) where
  -- A known member takes the change, an unknown one is added.
  apply_change-IsConsistent :
      (random : ℕ) (c : Change) (m : Membership) (found : Option ℕ)
      → lookup c.address m.members_by_address ≡ found
      → IsConsistent env m
      → IsConsistent env (apply_change env now random c found m).0
        × ((apply_change env now random c found m).0.local_member ≡ m.local_member)
  unfolding apply_change new_member
  apply_change-IsConsistent random c m none e v =
      (add-IsConsistent v (get_join_position random m) (new_member env c) e, refl)
  apply_change-IsConsistent random c m (some r) e v = (
    write-IsConsistent v r (apply_update env now c (m.heap r)).0
        (apply_update_claim env now c (m.heap r)).0,
    refl,
  )

  pub reincarnate-Keeps :
      (id : ℕ) (m : Membership)
      → IsConsistent env m
      → m.local_member ≡ some l
      → (m' : Membership) × (c : Change) × (reincarnate id now m ≡ some (m', c))
        × IsConsistent env m'
        × (m'.local_member ≡ some l)
  unfolding reincarnate
  reincarnate-Keeps id m v e =
      let x = record (m.heap l) { incarnation_number = now } in
      (
        record m { heap = write m.heap l x },
        new_update id now x.address now x.status (some x),
        ground arith,
        write-IsConsistent v l x refl,
        e,
      )

  accept_change-Keeps :
      (draw : Draw) (c : Change) (m : Membership)
      → IsConsistent env m
      → m.local_member ≡ some l
      → Keeps env l (accept_change env now draw c m)
  unfolding accept_change
  accept_change-Keeps draw c m v e =
      let (m', refutation, returned, v', e') = reincarnate-Keeps draw.id m v e in
      let (w, kept) =
        apply_change-IsConsistent draw.random c m (lookup c.address m.members_by_address) refl v in
      elim (Bool-cases (str_eq c.address (m.heap l).address)) [
        | inl own ↦ rw (e, own, returned, accept_change) (v', e')
        | inr other ↦ rw (e, other, accept_change) (w, kept ∙ e)
      ]

  -- One accepted or ignored change.
  pub update_change-Keeps :
      (draw : Draw) (c : Change) (m : Membership)
      → IsConsistent env m
      → m.local_member ≡ some l
      → Keeps env l (update_change env now draw c m)
  unfolding update_change
  update_change-Keeps draw c m v e =
      elim (Bool-cases (should_process_gossip (find_member_by_address m c.address) c)) [
        | inl accepted ↦ rw (accepted, update_change) (accept_change-Keeps draw c m v e)
        | inr ignored ↦ rw (ignored, update_change) (v, e)
      ]

  pub update_loop-Keeps :
      (draws : ℕ → Draw) (i : ℕ) (cs : List Change) (m : Membership)
      → IsConsistent env m
      → m.local_member ≡ some l
      → Keeps env l (update_loop env now draws i cs m)
  unfolding update_loop
  update_loop-Keeps draws i [] m v e = (v, e)
  update_loop-Keeps draws i (c ∷ cs) m v e =
      go (update_change env now (draws i) c m) (update_change-Keeps (draws i) c m v e)
        (λ m' w k. update_loop-Keeps draws (suc i) cs m' w k)
    where
      after :
          (r : Option (Membership × List Change × List Event)) (ch : Option Change)
          (ev : List Event)
          → Keeps env l r
          → Keeps env l (elim r [
            | none ↦ none
            | some (m₂, changes, events') ↦ some (m₂, cons_some ch changes, ev ++ events')
          ])
      after none ch ev k = absurd k
      after (some (m₂, changes, events')) ch ev k = k

      go :
          (r : Option (Membership × Option Change × List Event))
          → Keeps env l r
          → ((m' : Membership)
              → IsConsistent env m'
              → m'.local_member ≡ some l
              → Keeps env l (update_loop env now draws (suc i) cs m'))
          → Keeps env l (elim r [
            | none ↦ none
            | some (m₁, change, events) ↦ elim (update_loop env now draws (suc i) cs m₁) [
              | none ↦ none
              | some (m₂, changes, events') ↦ some (m₂, cons_some change changes, events ++ events')
            ]
          ])
      go none k rest = absurd k
      go (some (m₁, change, events)) k rest =
          after (update_loop env now draws (suc i) cs m₁) change events (rest m₁ k.0 k.1)

  finish_update-Keeps :
      (r : Option (Membership × List Change × List Event))
      → Keeps env l r
      → Keeps env l (finish_update env r)
  unfolding finish_update compute_checksum
  finish_update-Keeps none k = k
  finish_update-Keeps (some (m, [], events)) k = k
  finish_update-Keeps (some (m, c ∷ cs, events)) k = (compute_checksum-IsConsistent env m k.0, k.1)

  -- Once there is a local member, `update` returns, whether the node is ready or stashes the
  -- changes; the member list stays consistent and keeps the same local member.
  pub update-Keeps :
      (is_ready : Bool) (draws : ℕ → Draw) (changes : List Change) (m : Membership)
      → IsConsistent env m
      → m.local_member ≡ some l
      → Keeps env l (update env is_ready now draws changes m)
  unfolding update
  update-Keeps is_ready draws [] m v e = (v, e)
  update-Keeps true draws (c ∷ cs) m v e =
      finish_update-Keeps _ (update_loop-Keeps draws 0 (c ∷ cs) m v e)
  update-Keeps false draws (c ∷ cs) m v e =
      (record { indexed = v.indexed; listed = v.listed; distinct = v.distinct; local = v.local }, e)
