-- ===== src/Protocol/CatchUp.antt =====
-- lib/gossip/dissemination.js and lib/gossip/ping-sender.js: a full sync that answers a ping.
use ringpop_node.Common.{
  ℕ, ◌≡◌, ◌≢◌, refl, ap, subst, ◌∙◌, inl, inr, String, true, false, List, [], ◌∷◌, map, In, Option,
  none, some, lookup,
}
use ringpop_node.Config.{Env}
use ringpop_node.Member.{Change}
use ringpop_node.Member.Precedence.{Known, older, known_of, claim_of}
use ringpop_node.Membership.State.{Membership}
use ringpop_node.Membership.Update.{Draw}
use ringpop_node.Membership.Consistency.{IsConsistent}
use ringpop_node.Membership.View.{view}
use ringpop_node.Membership.Convergence.{
  absorb_all, absorb_all-newer, absorb_all-bound, apply_claims_known,
}
use ringpop_node.Gossip.Dissemination.{member_as_change, membership_as_changes}
use ringpop_node.Protocol.{Ringpop, ping_response, ping_ok, issued_of, changes_sent}
use ringpop_node.Protocol.Delivery.{IsNode, update_node-Applies}

In-map : {A B : Type 0} (f : A → B) (xs : List A) (x : A) → In x xs → In (f x) (map f xs)
In-map f [] x h = absurd h
In-map f (y ∷ xs) x (inl e) = inl (ap f e)
In-map f (y ∷ xs) x (inr h) = inr (In-map f xs x h)

-- What a node knows of an address is among the changes of its full sync.
change_of_known :
    (env : Env) (whoami : String) (m : Membership) (a : String) (k : Known)
    → IsConsistent env m
    → view m a ≡ some k
    → (c : Change) × In c (membership_as_changes whoami m) × (c.address ≡ a) × (claim_of c ≡ k)
unfolding membership_as_changes member_as_change view
change_of_known env whoami m a k v e = go (lookup a m.members_by_address) refl e
  where
    go :
        (found : Option ℕ)
        → lookup a m.members_by_address ≡ found
        → elim found [ none ↦ none | some r ↦ some (known_of (m.heap r)) ] ≡ some k
        → (c : Change) × In c (membership_as_changes whoami m) × (c.address ≡ a) × (claim_of c ≡ k)
    go none h e' = cc (e')
    go (some r) h e' =
        let (same, below, listed) = v.indexed a r h in
        (
          member_as_change whoami (m.heap r),
          In-map (member_as_change whoami) (map m.heap m.members) (m.heap r)
              (In-map m.heap m.members r listed),
          same,
          cc (e'),
        )

-- A node that is ready and gets a full sync as the answer to its ping then knows, of each address but its
-- own that both nodes knew, nothing older than what either of them knew.
pub changes_sent-catches_up :
    (env env' : Env) (now l : ℕ) (draws : ℕ → Draw) (issued : List Change) (node : Ringpop)
    (m : Membership) (a : String) (k k' : Known)
    → node.is_ready ≡ true
    → IsNode env l node
    → IsConsistent env' m
    → a ≢ env.whoami
    → view node.membership a ≡ some k
    → view m a ≡ some k'
    → (node' : Ringpop) × (last : Known) × (changes_sent env now draws issued
          (ping_response (some (membership_as_changes env'.whoami m)))
          node
        ≡ some (node', ping_ok))
      × IsNode env l node'
      × (view node'.membership a ≡ some last)
      × (older last k ≡ false)
      × (older last k' ≡ false)
unfolding changes_sent issued_of
changes_sent-catches_up env env' now l draws issued node m a k k' ready v v' other e e' =
    let changes = membership_as_changes env'.whoami m in
    let (c, listed, address, claim) = change_of_known env' env'.whoami m a k' v' e' in
    let (node', r, applied) =
      update_node-Applies env now l draws changes (issued_of false issued node) ready
        (record { consistent = v.consistent; local = v.local; ring = v.ring }) in
    (
      node',
      absorb_all a k changes,
      rw (r, changes_sent) refl,
      applied.valid,
      applied.known a
          ∙ apply_claims_known env.whoami now a other changes (view node.membership) k e,
      absorb_all-newer a k changes,
      subst (λ x. older (absorb_all a k changes) x ≡ false) claim
          (absorb_all-bound a k changes c listed address),
    )
