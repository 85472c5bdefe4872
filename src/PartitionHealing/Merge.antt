-- ===== src/PartitionHealing/Merge.antt =====
-- When an attempt merges: no member that this node could ping becomes unpingable.
use ringpop_node.Common.{
  ℕ, String, ◌≡◌, ◌≢◌, refl, sym, ap, subst, ◌∙◌, ◌⊎◌, inl, inr, Bool, true, false, List, [], ◌∷◌,
  map, Option, none, some, Dict, lookup, insert, lookup-insert, In, if◌then◌else◌, str_eq, eq_iff,
  Bool-cases, Option-cases, arith,
}
use ringpop_node.Config.{Env}
use ringpop_node.Member.{Change, is_status_pingable}
use ringpop_node.Member.Precedence.{Known, claim_of, known_of}
use ringpop_node.Membership.Events.{Event}
use ringpop_node.Membership.State.{Membership}
use ringpop_node.Membership.Update.{Draw, update}
use ringpop_node.Membership.Consistency.{IsConsistent}
use ringpop_node.Membership.View.{view, apply_claims}
use ringpop_node.Membership.Refinement.{Reads, update-refines}
use ringpop_node.Gossip.Dissemination.{membership_as_changes, member_as_change}
use ringpop_node.PartitionHealing.{
  node_would_become_unpingable, create_suspect_change, index_by_address, changes_from,
  generate_changes, Attempt, merge_membership, process_changes, heal_with,
}
use ringpop_node.PartitionHealing.Harmless.{AreHarmless, PingableAt, claims_pingable}

-- What the index holds under an address: a change about it, if there is one.
indexed :
    (a : String) (cs : List Change) (index : Dict Change)
    → ((c : Change) × In c cs × (c.address ≡ a) × (lookup a (index_by_address cs index) ≡ some c))
      ⊎ (((c : Change) → In c cs → c.address ≢ a)
          × (lookup a (index_by_address cs index) ≡ lookup a index))
unfolding index_by_address
indexed a [] index = inr ((λ c h. absurd h), refl)
indexed a (c ∷ cs) index = elim (indexed a cs (insert c.address c index)) [
  | inl (d, h, e, q) ↦ inl (d, inr h, e, q)
  | inr (none_there, q) ↦ elim (Bool-cases (str_eq c.address a)) [
    | inl e ↦
        inl (
          c,
          inl refl,
          (eq_iff c.address a).0 e,
          q ∙ (lookup-insert c.address a c index ∙ rw e refl),
        )
    | inr e ↦ inr (
      (λ d h. elim h [
        | inl same ↦ (λ r. ground (arith, e, same, r, eq_iff c.address a))
        | inr k ↦ none_there d k
      ]),
      q ∙ (lookup-insert c.address a c index ∙ rw e refl),
    )
  ]
]

In-map : {A B : Type 0} (f : A → B) (xs : List A) (x : A) → In x xs → In (f x) (map f xs)
In-map f [] x h = absurd h
In-map f (y ∷ xs) x (inl e) = inl (ap f e)
In-map f (y ∷ xs) x (inr h) = inr (In-map f xs x h)

In-map_inv :
    {A B : Type 0} (f : A → B) (xs : List A) (b : B)
    → In b (map f xs)
    → (x : A) × In x xs × (b ≡ f x)
In-map_inv f [] b h = absurd h
In-map_inv f (y ∷ xs) b (inl e) = (y, inl refl, e)
In-map_inv f (y ∷ xs) b (inr h) = (let (x, k, e) = In-map_inv f xs b h in (x, inr k, e))

-- The index of the own members as changes reads as the view does.
index_of_view :
    (env : Env) (m : Membership) (a : String) (k : Known)
    → IsConsistent env m
    → view m a ≡ some k
    → (c : Change) × (lookup a (index_by_address (membership_as_changes env.whoami m) []) ≡ some c)
      × (claim_of c ≡ k)
unfolding view membership_as_changes member_as_change lookup
index_of_view env m a k v e = elim (Option-cases (lookup a m.members_by_address)) [
  | inl q ↦ absurd (ground (arith, e, q))
  | inr (r, q) ↦ found r q (indexed a (membership_as_changes env.whoami m) [])
]
  where
    some_known :
        (k : Known) (r : ℕ)
        → lookup a m.members_by_address ≡ some r
        → view m a ≡ some k
        → known_of (m.heap r) ≡ k
    some_known k r q e = ground (arith, q, e)

    injected : (p r : ℕ) → some p ≡ some r → p ≡ r
    injected p r h = cc

    found :
        (r : ℕ)
        → lookup a m.members_by_address ≡ some r
        → ((c : Change) × In c (membership_as_changes env.whoami m)
            × (c.address ≡ a)
            × (lookup a (index_by_address (membership_as_changes env.whoami m) []) ≡ some c))
          ⊎ (((c : Change) → In c (membership_as_changes env.whoami m) → c.address ≢ a)
              × (lookup a (index_by_address (membership_as_changes env.whoami m) []) ≡ none))
        → (c : Change) × (lookup a (index_by_address (membership_as_changes env.whoami m) [])
            ≡ some c)
          × (claim_of c ≡ k)
    found r q (inr (none_there, _)) = absurd (
        none_there (member_as_change env.whoami (m.heap r))
          (In-map (member_as_change env.whoami) (map m.heap m.members) (m.heap r)
            (In-map m.heap m.members r (v.indexed a r q).2))
          (v.indexed a r q).0)
    found r q (inl (c, h, own, there)) =
        let (x, i, s) = In-map_inv (member_as_change env.whoami) (map m.heap m.members) c h in
        let (p, j, t) = In-map_inv m.heap m.members x i in
        let c_of_p : c ≡ member_as_change env.whoami (m.heap p) =
          s ∙ ap (member_as_change env.whoami) t in
        let filed : lookup a m.members_by_address ≡ some p =
          subst (λ b. lookup b m.members_by_address ≡ some p)
            (sym (ap (λ (d : Change). d.address) c_of_p) ∙ own) (v.listed p j) in
        (
          c,
          there,
          ap claim_of c_of_p
              ∙ (ap (λ n. known_of (m.heap n)) (injected p r (sym filed ∙ q)) ∙ some_known k r q e),
        )

abbrev pub no_changes : List Change × List Change
no_changes = ([], [])

nothing_added :
    (added : Bool) (c : Change) (cs : List Change)
    → (if added then c ∷ cs else cs) ≡ []
    → (added ≡ false) × (cs ≡ [])
nothing_added true c cs h = absurd (ground (arith, h))
nothing_added false c cs h = (refl, h)

generates_nothing :
    (index : Dict Change) (b : Change) (changes : List Change × List Change)
    → changes_from index b changes ≡ no_changes
    → (changes ≡ no_changes)
      × ((a : Change)
          → lookup b.address index ≡ some a
          → node_would_become_unpingable (claim_of a) (claim_of b) ≡ false)
unfolding changes_from
generates_nothing index b (for_a, for_b) h = go (lookup b.address index) refl h
  where
    all : List Change → List Change → List Change × List Change
    all xs ys = (xs, ys)

    go :
        (own : Option Change)
        → lookup b.address index ≡ own
        → elim own as (λ o. List Change × List Change) [
          | none ↦ (for_a, for_b)
          | some a ↦ (
            (if node_would_become_unpingable (claim_of a) (claim_of b)
                then create_suspect_change b ∷ for_a
                else for_a),
            (if node_would_become_unpingable (claim_of b) (claim_of a)
                then create_suspect_change a ∷ for_b
                else for_b),
          )
        ]
          ≡ no_changes
        → (all for_a for_b ≡ no_changes)
          × ((a : Change)
              → lookup b.address index ≡ some a
              → node_would_become_unpingable (claim_of a) (claim_of b) ≡ false)
    go none q h = (h, (λ a e. ground (arith, q, e)))
    go (some own) q h =
        let (kept_a, xs) =
          nothing_added (node_would_become_unpingable (claim_of own) (claim_of b))
            (create_suspect_change b) for_a (ap (λ p. p.0) h) in
        let (kept_b, ys) =
          nothing_added (node_would_become_unpingable (claim_of b) (claim_of own))
            (create_suspect_change own) for_b (ap (λ p. p.1) h) in
        (
          λ i. (xs i, ys i),
          (λ a e.
              subst (λ x. node_would_become_unpingable (claim_of x) (claim_of b) ≡ false)
                (same own a (sym q ∙ e)) kept_a),
        )
      where
        same : (x y : Change) → some x ≡ some y → x ≡ y
        same x y h = cc

generates_nothing_at :
    (index : Dict Change) (bs : List Change) (address : String) (a : Change)
    → generate_changes index bs ≡ no_changes
    → lookup address index ≡ some a
    → AreHarmless address (claim_of a) bs
unfolding generate_changes
generates_nothing_at index [] address a h e = tt
generates_nothing_at index (b ∷ bs) address a h e =
    let (rest, here) = generates_nothing index b (generate_changes index bs) h in
    (
      (λ q. here a (subst (λ s. lookup s index ≡ some a) (sym q) e)),
      generates_nothing_at index bs address a rest e,
    )

-- A merge of what the target knows: the view is what the rule for claims gives for the target's membership, and
-- the whole list, as it then is, was sent to the target.
pub record IsMerged (env : Env) (now : ℕ) (membership_b : List Change) (m : Membership)
    (attempt : Attempt) : Type 0 where
  pub known :
      (a : String) → view attempt.membership a ≡ apply_claims env.whoami now membership_b (view m) a
  pub sent : attempt.sent ≡ some (membership_as_changes env.whoami attempt.membership)

-- If there is nothing to suspect on either side, the attempt of a ready node returns and merges: what it then
-- knows of each address is what the rule for claims gives for the target's membership, its whole member list is
-- sent to the target, and every member that was pingable, the node itself included, still is.
pub heal_with_pingable :
    (env : Env) (now l : ℕ) (draws : ℕ → Draw) (membership_b : List Change) (m : Membership)
    → IsConsistent env m
    → m.local_member ≡ some l
    → generate_changes (index_by_address (membership_as_changes env.whoami m) []) membership_b
      ≡ no_changes
    → (attempt : Attempt) × (heal_with env true now draws membership_b m ≡ some attempt)
      × IsMerged env now membership_b m attempt
      × ((a : String) (k : Known)
          → view m a ≡ some k
          → is_status_pingable k.status ≡ true
          → (k' : Known) × (view attempt.membership a ≡ some k')
            × (is_status_pingable k'.status ≡ true))
unfolding heal_with process_changes merge_membership
heal_with_pingable env now l draws bs m v own nothing =
    rw nothing (go (update env true now draws bs m) (update-refines env now l draws bs m v own))
  where
    pingable :
        (a : String) (k : Known)
        → view m a ≡ some k
        → is_status_pingable k.status ≡ true
        → PingableAt (apply_claims env.whoami now bs (view m)) a
    pingable a k e p =
        let (c, there, claim) = index_of_view env m a k v e in
        claims_pingable env.whoami now a bs (view m) k e p (
          subst (λ known. AreHarmless a known bs) claim
            (generates_nothing_at (index_by_address (membership_as_changes env.whoami m) []) bs a c
              nothing there))

    go :
        (r : Option (Membership × List Change × List Event))
        → Reads (apply_claims env.whoami now bs (view m)) r
        → (attempt : Attempt) × (elim r [
          | none ↦ none
          | some (m', changes, events) ↦ some (record {
            membership = m';
            changes = changes;
            events = events;
            sent = some (membership_as_changes env.whoami m');
          })
        ]
            ≡ some attempt)
          × IsMerged env now bs m attempt
          × ((a : String) (k : Known)
              → view m a ≡ some k
              → is_status_pingable k.status ≡ true
              → (k' : Known) × (view attempt.membership a ≡ some k')
                × (is_status_pingable k'.status ≡ true))
    go none h = absurd h
    go (some (m', changes, events)) h = (
      record {
        membership = m';
        changes = changes;
        events = events;
        sent = some (membership_as_changes env.whoami m');
      },
      refl,
      record { known = h; sent = refl },
      (λ a k e p. let (k', reached, good) = pingable a k e p in (k', h a ∙ reached, good)),
    )
