-- ===== src/Membership/Convergence.antt =====
-- What follows for the knowledge of a node: claims about an address only make it newer, and the
-- order in which they arrive, and repetitions, do not matter.
use ringpop_node.Common.{
  ℕ, String, ◌≡◌, ◌≢◌, ◌↔◌, refl, sym, subst, ◌∙◌, ◌⊎◌, inl, inr, true, false, ◌&&◌, List, [], ◌∷◌,
  none, some, arith, if◌then◌else◌, str_eq, eq_iff, In,
}
use ringpop_node.Member.{Change, status_precedence, is_tombstone}
use ringpop_node.Member.Precedence.{
  Known, older, claim_of, older_irrefl, older_asymm, older_negtrans, eq_of_older,
}
use ringpop_node.Membership.View.{View, accepts, apply_claim, apply_claims}

-- What is known of the address `a` after a claim, and after several.
unfoldable pub absorb : String → Known → Change → Known
absorb a k c = if older k (claim_of c) && str_eq c.address a then claim_of c else k

unfoldable pub absorb_all : String → Known → List Change → Known
absorb_all a k [] = k
absorb_all a k (c ∷ cs) = absorb_all a (absorb a k c) cs

module _ (whoami : String) (now : ℕ) (a : String) (foreign : a ≢ whoami) where
  pub apply_claims_known :
      (cs : List Change) (v : View) (k : Known)
      → v a ≡ some k
      → apply_claims whoami now cs v a ≡ some (absorb_all a k cs)
  unfolding apply_claims absorb_all
  apply_claims_known [] v k e = e
  apply_claims_known (c ∷ cs) v k e =
      apply_claims_known cs (apply_claim whoami now c v) (absorb a k c) step
    where
      step : apply_claim whoami now c v a ≡ some (absorb a k c)
      step =
          unfold apply_claim accepts absorb in
          ground (arith, e, eq_iff c.address a, eq_iff a whoami)

absorb_newer :
    (a : String) (k : Known) (c : Change)
    → (older (absorb a k c) k ≡ false) × (c.address ≡ a → older (absorb a k c) (claim_of c) ≡ false)
unfolding absorb
absorb_newer a k c = ground (
  arith,
  older_irrefl k,
  older_irrefl (claim_of c),
  older_asymm k (claim_of c),
  eq_iff c.address a,
)

pub absorb_all-newer :
    (a : String) (k : Known) (cs : List Change) → older (absorb_all a k cs) k ≡ false
unfolding absorb_all
absorb_all-newer a k [] = older_irrefl k
absorb_all-newer a k (c ∷ cs) =
    older_negtrans _ (absorb a k c) _ (absorb_all-newer a (absorb a k c) cs) (absorb_newer a k c).0

pub absorb_all-bound :
    (a : String) (k : Known) (cs : List Change) (c : Change)
    → In c cs
    → c.address ≡ a
    → older (absorb_all a k cs) (claim_of c) ≡ false
unfolding absorb_all
absorb_all-bound a k [] c h e = absurd h
absorb_all-bound a k (d ∷ cs) c (inl q) e =
    older_negtrans _ (absorb a k d) _ (absorb_all-newer a (absorb a k d) cs) (
      subst (λ x. older (absorb a k d) (claim_of x) ≡ false) (sym q)
        ((absorb_newer a k d).1 (ground (arith, q, e))))
absorb_all-bound a k (d ∷ cs) c (inr h) e = absorb_all-bound a (absorb a k d) cs c h e

-- The result is the knowledge at the start or one of the claims about the address.
absorb_all-source :
    (a : String) (k : Known) (cs : List Change)
    → (absorb_all a k cs ≡ k)
      ⊎ ((c : Change) × In c cs × (c.address ≡ a) × (absorb_all a k cs ≡ claim_of c))
unfolding absorb_all
absorb_all-source a k [] = inl refl
absorb_all-source a k (d ∷ cs) = elim (absorb_all-source a (absorb a k d) cs) [
  | inr (c, h, e, q) ↦ inr (c, inr h, e, q)
  | inl q ↦ elim (absorb_cases) [ inl s ↦ inl (q ∙ s) | inr (e, s) ↦ inr (d, inl refl, e, q ∙ s) ]
]
  where
    absorb_cases : (absorb a k d ≡ k) ⊎ ((d.address ≡ a) × (absorb a k d ≡ claim_of d))
    absorb_cases = unfold absorb in ground (arith, eq_iff d.address a)

absorb_all-le :
    (a : String) (k : Known) (xs ys : List Change)
    → ((c : Change) → In c xs → In c ys)
    → older (absorb_all a k ys) (absorb_all a k xs) ≡ false
absorb_all-le a k xs ys sub = elim (absorb_all-source a k xs) [
  | inl q ↦ subst (λ x. older (absorb_all a k ys) x ≡ false) (sym q) (absorb_all-newer a k ys)
  | inr (c, h, e, q) ↦
      subst (λ x. older (absorb_all a k ys) x ≡ false) (sym q)
        (absorb_all-bound a k ys c (sub c h) e)
]

module _ (whoami : String) (now : ℕ) (a : String) (foreign : a ≢ whoami) where
  -- What is known of another node's address never gets older, whatever changes are applied.
  pub apply_claims-newer :
      (cs : List Change) (v : View) (k : Known)
      → v a ≡ some k
      → (k' : Known) × (apply_claims whoami now cs v a ≡ some k') × (older k' k ≡ false)
  apply_claims-newer cs v k e =
      (absorb_all a k cs, apply_claims_known whoami now a foreign cs v k e, absorb_all-newer a k cs)

  -- For an address that is not known the order can matter: a tombstone that arrives first is
  -- dropped, and one that arrives after an older claim that is no tombstone is kept.
  pub apply_claims-tombstone_order :
      (c t : Change) (v : View)
      → v a ≡ none
      → c.address ≡ a
      → t.address ≡ a
      → is_tombstone c.status ≡ false
      → is_tombstone t.status ≡ true
      → older (claim_of c) (claim_of t) ≡ true
      → (apply_claims whoami now (t ∷ c ∷ []) v a ≡ some (claim_of c))
        × (apply_claims whoami now (c ∷ t ∷ []) v a ≡ some (claim_of t))
  unfolding apply_claims apply_claim accepts
  apply_claims-tombstone_order c t v e p q hc ht h =
      ground (arith, eq_iff c.address a, eq_iff t.address a, eq_iff a whoami)

-- Two nodes that know the same of the address of a third and get the same changes, in any order
-- and any number of times, end with the same incarnation number for it and with statuses of the
-- same precedence.
pub apply_claims-converge :
    (whoami whoami' : String) (now now' : ℕ) (a : String) (xs ys : List Change) (v w : View)
    (k : Known)
    → a ≢ whoami
    → a ≢ whoami'
    → v a ≡ some k
    → w a ≡ some k
    → ((c : Change) → In c xs ↔ In c ys)
    → (k₁ : Known) × (k₂ : Known) × (apply_claims whoami now xs v a ≡ some k₁)
      × (apply_claims whoami' now' ys w a ≡ some k₂)
      × (k₁.incarnation_number ≡ k₂.incarnation_number)
      × (status_precedence k₁.status ≡ status_precedence k₂.status)
apply_claims-converge whoami whoami' now now' a xs ys v w k n n' e f same =
    let (inc, prec) =
      eq_of_older (absorb_all a k xs) (absorb_all a k ys)
        (absorb_all-le a k ys xs (λ c. (same c).1)) (absorb_all-le a k xs ys (λ c. (same c).0)) in
    (
      absorb_all a k xs,
      absorb_all a k ys,
      apply_claims_known whoami now a n xs v k e,
      apply_claims_known whoami' now' a n' ys w k f,
      inc,
      prec,
    )
