-- ===== src/Protocol/Delivery.antt =====
-- The handlers that run on the events of a membership return, and leave the membership alone.
use ringpop_node.Common.{
  ℕ, ◌≡◌, refl, ◌∙◌, ap, subst, sym, String, true, List, [], ◌∷◌, Option, none, some,
}
use ringpop_node.Config.{Env}
use ringpop_node.Member.{Change}
use ringpop_node.Membership.Events.{Event}
use ringpop_node.Membership.State.{Membership}
use ringpop_node.Membership.Update.{Draw, update}
use ringpop_node.Membership.Consistency.{IsConsistent}
use ringpop_node.Membership.Keeps.{Keeps, update-Keeps}
use ringpop_node.Membership.View.{view, apply_claims}
use ringpop_node.Membership.Refinement.{Reads, update-refines}
use ringpop_node.Handlers.{on_event}
use ringpop_node.Ring.HashRing.Servers.{IsRing, add_remove_servers-IsRing}
use ringpop_node.Protocol.{Ringpop, call_ring, call_ring_all, deliver, deliver_all, update_node}

-- What the handlers leave as it was.
pub record IsSameBut (node node' : Ringpop) : Type 0 where
  pub membership : node'.membership ≡ node.membership
  pub is_ready : node'.is_ready ≡ node.is_ready
  pub app : node'.app ≡ node.app

module _ (env : Env) where
  -- The call returned a node with a valid ring that is otherwise the same.
  abbrev pub Delivers : Ringpop → Option Ringpop → Type 0
  Delivers node none = ⊥
  Delivers node (some node') = IsRing env node'.ring × IsSameBut node node'

  after_same :
      (node node' node'' : Ringpop)
      → IsSameBut node node'
      → IsSameBut node' node''
      → IsSameBut node node''
  after_same node node' node'' p q = record {
    membership = q.membership ∙ p.membership;
    is_ready = q.is_ready ∙ p.is_ready;
    app = q.app ∙ p.app;
  }

  Delivers-same :
      (node' node : Ringpop)
      → IsSameBut node node'
      → (r : Option Ringpop) → Delivers node' r
      → Delivers node r
  Delivers-same node' node same none k = absurd k
  Delivers-same node' node same (some node'') k = (k.0, after_same node node' node'' same k.1)

  Delivers-bind :
      (node : Ringpop) (f : Ringpop → Option Ringpop) (r : Option Ringpop)
      → Delivers node r
      → ((node' : Ringpop) → IsRing env node'.ring → Delivers node' (f node'))
      → Delivers node (elim r [ none ↦ none | some node' ↦ f node' ])
  Delivers-bind node f none k h = absurd k
  Delivers-bind node f (some node') k h = Delivers-same node' node k.1 (f node') (h node' k.0)

  call_ring-Delivers :
      (to_add to_remove : List String) (node : Ringpop)
      → IsRing env node.ring
      → Delivers node (call_ring env to_add to_remove node)
  unfolding call_ring
  call_ring-Delivers to_add to_remove node h =
      let (ring, events, changed, r, k, has) =
        add_remove_servers-IsRing env to_add to_remove node.ring h in
      rw (r, Delivers) (k, record { membership = refl; is_ready = refl; app = refl })

  call_ring_all-Delivers :
      (calls : List (List String × List String)) (node : Ringpop)
      → IsRing env node.ring
      → Delivers node (call_ring_all env calls node)
  unfolding call_ring_all
  call_ring_all-Delivers [] node h = (h, record { membership = refl; is_ready = refl; app = refl })
  call_ring_all-Delivers ((to_add, to_remove) ∷ calls) node h =
      Delivers-bind node (call_ring_all env calls) _ (call_ring-Delivers to_add to_remove node h)
        (λ node' k. call_ring_all-Delivers calls node' k)

  deliver-Delivers :
      (event : Event) (node : Ringpop)
      → IsRing env node.ring
      → Delivers node (deliver env event node)
  unfolding deliver
  deliver-Delivers event node h =
      let parts = on_event env.whoami event (record node.parts { ring_calls = [] }) in
      let handled = record node { parts = record parts { ring_calls = [] } } in
      Delivers-same handled node (record { membership = refl; is_ready = refl; app = refl })
        (call_ring_all env parts.ring_calls handled)
        (call_ring_all-Delivers parts.ring_calls handled h)

  pub deliver_all-Delivers :
      (events : List Event) (node : Ringpop)
      → IsRing env node.ring
      → Delivers node (deliver_all env events node)
  unfolding deliver_all
  deliver_all-Delivers [] node h = (h, record { membership = refl; is_ready = refl; app = refl })
  deliver_all-Delivers (event ∷ events) node h =
      Delivers-bind node (deliver_all env events) _ (deliver-Delivers event node h)
        (λ node' k. deliver_all-Delivers events node' k)

-- A node whose parts are in order: the member list, with the local member at `l`, and the ring.
pub record IsNode (env : Env) (l : ℕ) (node : Ringpop) : Type 0 where
  pub consistent : IsConsistent env node.membership
  pub local : node.membership.local_member ≡ some l
  pub ring : IsRing env node.ring

-- A node after some claims were applied.
pub record Applies (env : Env) (now l : ℕ) (changes : List Change) (node node' : Ringpop)
    : Type 0 where
  pub valid : IsNode env l node'
  pub known :
      (a : String)
      → view node'.membership a ≡ apply_claims env.whoami now changes (view node.membership) a
  pub is_ready : node'.is_ready ≡ node.is_ready
  pub app : node'.app ≡ node.app

-- `update` with its handlers returns on a node that is ready.
pub update_node-Applies :
    (env : Env) (now l : ℕ) (draws : ℕ → Draw) (changes : List Change) (node : Ringpop)
    → node.is_ready ≡ true
    → IsNode env l node
    → (node' : Ringpop) × (update_node env now draws changes node ≡ some node')
      × Applies env now l changes node node'
unfolding update_node
update_node-Applies env now l draws changes node ready v =
    let same : update env node.is_ready now draws changes node.membership
        ≡ update env true now draws changes node.membership =
      ap (λ b. update env b now draws changes node.membership) ready in
    rw (same, update_node)
      (go (update env true now draws changes node.membership)
        (update-Keeps env now l true draws changes node.membership v.consistent v.local)
        (update-refines env now l draws changes node.membership v.consistent v.local))
  where
    delivered :
        (m : Membership) (r : Option Ringpop)
        → IsConsistent env m
        → m.local_member ≡ some l
        → ((a : String) → view m a ≡ apply_claims env.whoami now changes (view node.membership) a)
        → Delivers env (record node { membership = m }) r
        → (node' : Ringpop) × (r ≡ some node') × Applies env now l changes node node'
    delivered m none c e reads k = absurd k
    delivered m (some node') c e reads k = (
      node',
      refl,
      record {
        valid = record {
          consistent = subst (IsConsistent env) (sym k.1.membership) c;
          local = ap (λ (m' : Membership). m'.local_member) k.1.membership ∙ e;
          ring = k.0;
        };
        known = λ a. ap (λ m'. view m' a) k.1.membership ∙ reads a;
        is_ready = k.1.is_ready;
        app = k.1.app;
      },
    )

    go :
        (r : Option (Membership × List Change × List Event))
        → Keeps env l r
        → Reads (apply_claims env.whoami now changes (view node.membership)) r
        → (node' : Ringpop) × (elim r [
          | none ↦ none
          | some (m, applied, events) ↦ deliver_all env events (record node { membership = m })
        ]
            ≡ some node')
          × Applies env now l changes node node'
    go none k reads = absurd k
    go (some (m, applied, events)) k reads =
        delivered m (deliver_all env events (record node { membership = m })) k.0 k.1 reads
          (deliver_all-Delivers env events (record node { membership = m }) v.ring)
