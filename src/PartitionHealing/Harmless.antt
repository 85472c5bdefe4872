-- ===== src/PartitionHealing/Harmless.antt =====
-- Claims that leave a pingable member pingable.
use ringpop_node.Common.{
  ℕ, String, ◌≡◌, refl, ap, ◌∙◌, inl, inr, Bool, true, false, not, ◌&&◌, List, [], ◌∷◌, some, All,
  if◌then◌else◌, str_eq, eq_iff, Bool-cases, arith,
}
use ringpop_node.Member.{Change, is_status_pingable}
use ringpop_node.Member.Precedence.{
  Known, older, claim_of, older_irrefl, older_trans, older_negtrans,
}
use ringpop_node.Membership.View.{View, accepts, refute, apply_claim, apply_claims}
use ringpop_node.Membership.Convergence.{absorb, absorb_all, apply_claims_known}
use ringpop_node.PartitionHealing.{node_would_become_unpingable}

-- The test in terms of the order of claims.
pub node_would_become_unpingable_lem :
    (a b : Known)
    → node_would_become_unpingable a b
      ≡ (is_status_pingable a.status && (not (is_status_pingable b.status) && older a b))
unfolding node_would_become_unpingable older
node_would_become_unpingable_lem a b = ground arith

-- The claims about an address make no pingable member unpingable that is known like this.
abbrev pub AreHarmless : String → Known → List Change → Type 0
AreHarmless a k cs =
    All (λ c. c.address ≡ a → node_would_become_unpingable k (claim_of c) ≡ false) cs

abbrev pub PingableAt : View → String → Type 0
PingableAt v a = (k : Known) × (v a ≡ some k) × (is_status_pingable k.status ≡ true)

module _ (whoami : String) (now : ℕ) (a : String) where
  -- The local node keeps its status.
  apply_claims_local :
      (cs : List Change) (v : View)
      → a ≡ whoami
      → PingableAt v a
      → PingableAt (apply_claims whoami now cs v) a
  unfolding apply_claims apply_claim accepts
  apply_claims_local [] v own k = k
  apply_claims_local (c ∷ cs) v own (k, e, p) =
      apply_claims_local cs (apply_claim whoami now c v) own
        (go (accepts (v c.address) (claim_of c) && str_eq c.address a))
    where
      go :
          (taken : Bool)
          → PingableAt
              (λ b.
                if taken
                then (if str_eq a whoami then refute now (v a) else some (claim_of c))
                else v a)
              a
      go false = (k, e, p)
      go true = (
        record k { incarnation_number = now },
        rw ((eq_iff a whoami).1 own) (ap (refute now) e ∙ unfold refute in refl),
        p,
      )

absorb_pingable :
    (a : String) (first k : Known) (c : Change)
    → is_status_pingable first.status ≡ true
    → (c.address ≡ a → node_would_become_unpingable first (claim_of c) ≡ false)
    → is_status_pingable k.status ≡ true
    → older k first ≡ false
    → (is_status_pingable (absorb a k c).status ≡ true) × (older (absorb a k c) first ≡ false)
unfolding absorb
absorb_pingable a first k c p harmless q newer =
    go (older k (claim_of c)) (str_eq c.address a) refl refl
  where
    go :
        (new about : Bool)
        → older k (claim_of c) ≡ new
        → str_eq c.address a ≡ about
        → (is_status_pingable (if new && about then claim_of c else k).status ≡ true)
          × (older (if new && about then claim_of c else k) first ≡ false)
    go false about h e = (q, newer)
    go true false h e = (q, newer)
    go true true h e = (
      ground (
        arith,
        h,
        p,
        newer,
        node_would_become_unpingable_lem first (claim_of c),
        harmless ((eq_iff c.address a).0 e),
        older_negtrans k first (claim_of c) newer,
      ),
      ground (arith, h, newer, older_trans k (claim_of c) first h),
    )

absorb_all_pingable :
    (a : String) (first k : Known) (cs : List Change)
    → is_status_pingable first.status ≡ true
    → AreHarmless a first cs
    → is_status_pingable k.status ≡ true
    → older k first ≡ false
    → is_status_pingable (absorb_all a k cs).status ≡ true
unfolding absorb_all
absorb_all_pingable a first k [] p harmless q newer = q
absorb_all_pingable a first k (c ∷ cs) p (h, harmless) q newer =
    let (q', newer') = absorb_pingable a first k c p h q newer in
    absorb_all_pingable a first (absorb a k c) cs p harmless q' newer'

pub claims_pingable :
    (whoami : String) (now : ℕ) (a : String) (cs : List Change) (v : View) (k : Known)
    → v a ≡ some k
    → is_status_pingable k.status ≡ true
    → AreHarmless a k cs
    → PingableAt (apply_claims whoami now cs v) a
claims_pingable whoami now a cs v k e p harmless = elim (Bool-cases (str_eq a whoami)) [
  | inl own ↦ apply_claims_local whoami now a cs v ((eq_iff a whoami).0 own) (k, e, p)
  | inr foreign ↦ (
    absorb_all a k cs,
    apply_claims_known whoami now a (λ h. ground (arith, foreign, (eq_iff a whoami).1 h)) cs v k e,
    absorb_all_pingable a k k cs p harmless p (older_irrefl k),
  )
]
