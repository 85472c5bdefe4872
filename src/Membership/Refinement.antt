-- ===== src/Membership/Refinement.antt =====
-- `update` refines the abstract member list of View.
use mathlib.Core.Path.{fun_ext}
use ringpop_node.Common.{
  ℕ, suc, String, ◌≡◌, refl, sym, subst, ◌∙◌, inl, inr, true, false, List, [], ◌∷◌, ◌++◌, Option,
  none, some, arith, lookup, lookup-insert, if◌then◌else◌, str_eq, eq_iff, Bool-cases, Option-cases,
}
use ringpop_node.Config.{Env}
use ringpop_node.Member.{Change, new_member, new_update, should_process_gossip}
use ringpop_node.Member.Damping.{apply_update_claim}
use ringpop_node.Member.Precedence.{claim_of, should_process_gossip_known}
use ringpop_node.Membership.Events.{Event}
use ringpop_node.Membership.State.{Membership, write, find_member_by_address}
use ringpop_node.Membership.Checksum.{compute_checksum}
use ringpop_node.Membership.Update.{
  Draw, reincarnate, cons_some, finish_update, apply_change, accept_change, update_change,
  update_loop, update,
}
use ringpop_node.Membership.Consistency.{IsConsistent, local_address}
use ringpop_node.Membership.Keeps.{Keeps, update_change-Keeps}
use ringpop_node.Membership.View.{View, view, accepts, refute, apply_claim, apply_claims}

-- The code's test is that of the abstract member list.
should_process_gossip-accepts :
    (m : Membership) (c : Change)
    → should_process_gossip (find_member_by_address m c.address) c
      ≡ accepts (view m c.address) (claim_of c)
unfolding find_member_by_address view accepts
should_process_gossip-accepts m c = elim (Option-cases (lookup c.address m.members_by_address)) [
  | inl e ↦ rw e (unfold should_process_gossip in ground arith)
  | inr (r, e) ↦ rw e (should_process_gossip_known (m.heap r) c)
]

-- The state that a call returned reads as a view.
abbrev pub Reads : View → {B C : Type 0} → Option (Membership × B × C) → Type 0
Reads v none = ⊥
Reads v (some (m, b, c)) = (a : String) → view m a ≡ v a

-- The state that `reincarnate` leaves behind.
reincarnated : ℕ → ℕ → Membership → Membership
reincarnated now l m = record m {
  heap = write m.heap l (record (m.heap l) { incarnation_number = now });
}

reincarnate_lem :
    (id now l : ℕ) (m : Membership)
    → m.local_member ≡ some l
    → reincarnate id now m
      ≡ some (
        reincarnated now l m,
        new_update id now
            (m.heap l).address
            now
            (m.heap l).status
            (some (record (m.heap l) { incarnation_number = now })),
      )
unfolding reincarnate reincarnated
reincarnate_lem id now l m e = ground arith

module _ (env : Env) (now l : ℕ) (m : Membership) (v : IsConsistent env m)
    (e : m.local_member ≡ some l) where
  apply_change-view :
      (random : ℕ) (c : Change) (found : Option ℕ)
      → lookup c.address m.members_by_address ≡ found
      → (a : String)
      → view (apply_change env now random c found m).0 a
        ≡ (if str_eq c.address a then some (claim_of c) else view m a)
  unfolding apply_change new_member view
  apply_change-view random c none h a = elim (Option-cases (lookup a m.members_by_address)) [
    | inl k ↦
        ground (arith, lookup-insert c.address a m.next m.members_by_address, eq_iff c.address a)
    | inr (q, k) ↦ ground (
      arith,
      lookup-insert c.address a m.next m.members_by_address,
      eq_iff c.address a,
      v.indexed a q,
    )
  ]
  apply_change-view random c (some r) h a = elim (Option-cases (lookup a m.members_by_address)) [
    | inl k ↦ ground (arith, eq_iff c.address a)
    | inr (q, k) ↦ ground (
      arith,
      v.indexed a q,
      v.indexed c.address r,
      eq_iff c.address a,
      apply_update_claim env now c (m.heap r),
    )
  ]

  reincarnated-view :
      (a : String)
      → view (reincarnated now l m) a
        ≡ (if str_eq a env.whoami then refute now (view m a) else view m a)
  unfolding reincarnated view refute
  reincarnated-view a = elim (Option-cases (lookup a m.members_by_address)) [
    | inl k ↦ ground (arith, eq_iff a env.whoami, v.local l e)
    | inr (q, k) ↦
        ground (arith, eq_iff a env.whoami, v.indexed a q k, v.local l e, local_address v l e)
  ]

  accept_change-Reads :
      (draw : Draw) (c : Change)
      → accepts (view m c.address) (claim_of c) ≡ true
      → Reads (apply_claim env.whoami now c (view m)) (accept_change env now draw c m)
  unfolding accept_change apply_claim
  accept_change-Reads draw c ok = elim (Bool-cases (str_eq c.address (m.heap l).address)) [
    | inl own ↦
        rw (e, own, reincarnate_lem draw.id now l m e, accept_change)
          (λ a.
            reincarnated-view a
            ∙ ground (
              arith,
              ok,
              own,
              eq_iff c.address (m.heap l).address,
              local_address v l e,
              eq_iff c.address a,
              eq_iff a env.whoami,
            ))
    | inr other ↦
        rw (e, other, accept_change)
          (λ a.
            apply_change-view draw.random c (lookup c.address m.members_by_address) refl a
            ∙ ground (
              arith,
              ok,
              other,
              eq_iff c.address (m.heap l).address,
              local_address v l e,
              eq_iff c.address a,
              eq_iff a env.whoami,
            ))
  ]

  -- One round of the loop moves the view as the abstract rule does.
  pub update_change-Reads :
      (draw : Draw) (c : Change)
      → Reads (apply_claim env.whoami now c (view m)) (update_change env now draw c m)
  unfolding update_change
  update_change-Reads draw c =
      elim (Bool-cases (should_process_gossip (find_member_by_address m c.address) c)) [
        | inl yes' ↦
            rw (yes', update_change)
              (accept_change-Reads draw c (sym (should_process_gossip-accepts m c) ∙ yes'))
        | inr no' ↦
            rw (no', update_change)
              (λ a. sym (ignored a (sym (should_process_gossip-accepts m c) ∙ no')))
      ]
    where
      ignored :
          (a : String)
          → accepts (view m c.address) (claim_of c) ≡ false
          → apply_claim env.whoami now c (view m) a ≡ view m a
      ignored a h = unfold apply_claim in rw h

module _ (env : Env) (now l : ℕ) where
  after-Reads :
      (v : View) (ch : Option Change) (ev : List Event)
      (r : Option (Membership × List Change × List Event))
      → Reads v r
      → Reads v (elim r [
        | none ↦ none
        | some (m₂, changes, events') ↦ some (m₂, cons_some ch changes, ev ++ events')
      ])
  after-Reads v ch ev none k = absurd k
  after-Reads v ch ev (some (m₂, changes, events')) k = k

  update_loop-Reads :
      (draws : ℕ → Draw) (i : ℕ) (cs : List Change) (m : Membership)
      → IsConsistent env m
      → m.local_member ≡ some l
      → Reads (apply_claims env.whoami now cs (view m)) (update_loop env now draws i cs m)
  unfolding update_loop apply_claims
  update_loop-Reads draws i [] m v e = λ a. refl
  update_loop-Reads draws i (c ∷ cs) m v e =
      go (update_change env now (draws i) c m) (update_change-Keeps env now l (draws i) c m v e)
        (update_change-Reads env now l m v e (draws i) c)
        (λ m' w k. update_loop-Reads draws (suc i) cs m' w k)
    where
      moved : View
      moved = apply_claim env.whoami now c (view m)

      go :
          (r : Option (Membership × Option Change × List Event))
          → Keeps env l r
          → Reads moved r
          → ((m' : Membership)
              → IsConsistent env m'
              → m'.local_member ≡ some l
              → Reads
                  (apply_claims env.whoami now cs (view m'))
                  (update_loop env now draws (suc i) cs m'))
          → Reads (apply_claims env.whoami now cs moved) (elim r [
            | none ↦ none
            | some (m₁, change, events) ↦ elim (update_loop env now draws (suc i) cs m₁) [
              | none ↦ none
              | some (m₂, changes, events') ↦ some (m₂, cons_some change changes, events ++ events')
            ]
          ])
      go none k s rest = absurd k
      go (some (m₁, change, events)) k s rest =
          after-Reads _ change events (update_loop env now draws (suc i) cs m₁) (
            subst
              (λ (w : View).
                Reads (apply_claims env.whoami now cs w) (update_loop env now draws (suc i) cs m₁))
              (fun_ext s) (rest m₁ k.0 k.1))

  finish_update-Reads :
      (v : View) (r : Option (Membership × List Change × List Event))
      → Reads v r
      → Reads v (finish_update env r)
  unfolding finish_update compute_checksum view
  finish_update-Reads v none k = k
  finish_update-Reads v (some (m, [], events)) k = k
  finish_update-Reads v (some (m, c ∷ cs, events)) k = k

  -- On a node that is ready and has a local member, `update` returns, and what is then known of
  -- each address is what the abstract rule gives, applied to the changes one after another.
  pub update-refines :
      (draws : ℕ → Draw) (changes : List Change) (m : Membership)
      → IsConsistent env m
      → m.local_member ≡ some l
      → Reads (apply_claims env.whoami now changes (view m)) (update env true now draws changes m)
  unfolding update apply_claims
  update-refines draws [] m v e = λ a. refl
  update-refines draws (c ∷ cs) m v e =
      finish_update-Reads (apply_claims env.whoami now (c ∷ cs) (view m))
        (update_loop env now draws 0 (c ∷ cs) m) (update_loop-Reads draws 0 (c ∷ cs) m v e)
