-- ===== src/Membership/Agreement.antt =====
-- `update` on two nodes: what each node knows of a third gets only newer, and the nodes agree once
-- they got the same changes.
use ringpop_node.Common.{
  ℕ, String, ◌≡◌, ◌≢◌, ◌↔◌, true, false, List, [], ◌∷◌, Option, none, some, In, ◌∙◌,
}
use ringpop_node.Config.{Env}
use ringpop_node.Member.{Change, status_precedence, is_tombstone}
use ringpop_node.Member.Precedence.{Known, older, claim_of}
use ringpop_node.Membership.State.{Membership}
use ringpop_node.Membership.Update.{Draw, update}
use ringpop_node.Membership.Consistency.{IsConsistent}
use ringpop_node.Membership.View.{View, view}
use ringpop_node.Membership.Refinement.{Reads, update-refines}
use ringpop_node.Membership.Convergence.{
  apply_claims-newer, apply_claims-converge, apply_claims-tombstone_order,
}

-- The call returned, and its state knows `k` of the address `a`.
abbrev pub Knows : String → Known → {B C : Type 0} → Option (Membership × B × C) → Type 0
Knows a k none = ⊥
Knows a k (some (m, b, c)) = view m a ≡ some k

Knows-of_Reads :
    {B C : Type 0} (v : View) (a : String) (k : Known) (r : Option (Membership × B × C))
    → v a ≡ some k
    → Reads v r
    → Knows a k r
Knows-of_Reads v a k none e reads = absurd reads
Knows-of_Reads v a k (some (m, b, c)) e reads = reads a ∙ e

-- A node that is ready, with a consistent member list that has a local member.
pub record IsReady (env : Env) (m : Membership) : Type 0 where
  pub consistent : IsConsistent env m
  pub local : ℕ
  pub known : m.local_member ≡ some local

module _ (env : Env) (now : ℕ) (draws : ℕ → Draw) (m : Membership) (v : IsReady env m)
    (a : String) where
  -- `update` returns on a ready node, and what it knows of another node's address afterwards is not
  -- older than what it knew before.
  pub update-newer :
      (changes : List Change) (k : Known)
      → a ≢ env.whoami
      → view m a ≡ some k
      → (k' : Known) × Knows a k' (update env true now draws changes m) × (older k' k ≡ false)
  update-newer changes k n e =
      let (k', reached, newer) = apply_claims-newer env.whoami now a n changes (view m) k e in
      (
        k',
        Knows-of_Reads _ a k' _ reached
            (update-refines env now v.local draws changes m v.consistent v.known),
        newer,
      )

  -- For an address that is not known the order can matter: a tombstone that arrives first is
  -- dropped, and one that arrives after an older claim that is no tombstone is kept.
  pub update-tombstone_order :
      (c t : Change)
      → a ≢ env.whoami
      → view m a ≡ none
      → c.address ≡ a
      → t.address ≡ a
      → is_tombstone c.status ≡ false
      → is_tombstone t.status ≡ true
      → older (claim_of c) (claim_of t) ≡ true
      → Knows a (claim_of c) (update env true now draws (t ∷ c ∷ []) m)
        × Knows a (claim_of t) (update env true now draws (c ∷ t ∷ []) m)
  update-tombstone_order c t n e p q hc ht h =
      let (first, last) =
        apply_claims-tombstone_order env.whoami now a n c t (view m) e p q hc ht h in
      (
        Knows-of_Reads _ a (claim_of c) _ first
            (update-refines env now v.local draws (t ∷ c ∷ []) m v.consistent v.known),
        Knows-of_Reads _ a (claim_of t) _ last
            (update-refines env now v.local draws (c ∷ t ∷ []) m v.consistent v.known),
      )

-- Let two ready nodes know the same of the address of a third, and let each get the same changes in
-- one call of `update`, in any order and any number of times. Both calls return, and the nodes then
-- know the third at the same incarnation number and with statuses of the same precedence.
pub update-converge :
    (env env' : Env) (now now' : ℕ) (draws draws' : ℕ → Draw) (m m' : Membership) (a : String)
    (xs ys : List Change) (k : Known)
    → IsReady env m
    → IsReady env' m'
    → a ≢ env.whoami
    → a ≢ env'.whoami
    → view m a ≡ some k
    → view m' a ≡ some k
    → ((c : Change) → In c xs ↔ In c ys)
    → (k₁ : Known) × (k₂ : Known) × Knows a k₁ (update env true now draws xs m)
      × Knows a k₂ (update env' true now' draws' ys m')
      × (k₁.incarnation_number ≡ k₂.incarnation_number)
      × (status_precedence k₁.status ≡ status_precedence k₂.status)
update-converge env env' now now' draws draws' m m' a xs ys k v w n n' e f same =
    let (k₁, k₂, reached₁, reached₂, inc, prec) =
      apply_claims-converge env.whoami env'.whoami now now' a xs ys (view m) (view m') k n n' e f
        same in
    (
      k₁,
      k₂,
      Knows-of_Reads _ a k₁ _ reached₁
          (update-refines env now v.local draws xs m v.consistent v.known),
      Knows-of_Reads _ a k₂ _ reached₂
          (update-refines env' now' w.local draws' ys m' w.consistent w.known),
      inc,
      prec,
    )
