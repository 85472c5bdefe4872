-- ===== src/Membership/Merge/Newest.antt =====
-- merge.js keeps, for each address but the node's own, one change of the newest incarnation.
use ringpop_node.Common.{
  ◌≤◌, ◌≡◌, ◌≢◌, refl, sym, subst, ap, ◌∙◌, ◌⊎◌, inl, inr, String, false, List, [], ◌∷◌, ◌++◌, map,
  some, arith, ltb, Dict, lookup, insert, keys, lookup-insert, Distinct-insert, lookup_of_value,
  value_of_lookup, map-values, str_eq, eq_iff, In, Distinct, Option-cases, Bool-cases,
}
use ringpop_node.Member.{Change}
use ringpop_node.Membership.Merge.{
  merge_change, merge_changes, merge_changesets, merge_membership_changesets,
}

-- All changes of the lists, in order.
abbrev pub all_changes : List (List Change) → List Change
all_changes [] = []
all_changes (cs ∷ css) = cs ++ all_changes css

-- What the loops keep true of `mergeIndex` once the changes `seen` are merged.
record IsMerged (whoami : String) (seen : Change → Type 0) (index : Dict Change) : Type 1 where
  keyed :
      (a : String) (c : Change) → lookup a index ≡ some c → (c.address ≡ a) × (a ≢ whoami) × seen c
  covers :
      (c : Change)
      → seen c
      → c.address ≢ whoami
      → (d : Change) × (lookup c.address index ≡ some d)
        × (c.incarnation_number ≤ d.incarnation_number)
  distinct : Distinct (keys index)

-- The changes seen, with one more.
abbrev Plus : (Change → Type 0) → Change → Change → Type 0
Plus seen c d = seen d ⊎ (d ≡ c)

merge_changes-append :
    (whoami : String) (xs ys : List Change) (index : Dict Change)
    → merge_changes whoami (xs ++ ys) index
      ≡ merge_changes whoami ys (merge_changes whoami xs index)
unfolding merge_changes
merge_changes-append whoami [] ys index = refl
merge_changes-append whoami (x ∷ xs) ys index =
    merge_changes-append whoami xs ys (merge_change whoami x index)

module _ (whoami : String) (seen : Change → Type 0) (c : Change) (index : Dict Change) where
  -- A change is passed over if it is about the node itself, or not newer than the one kept.
  PassedOver : Type 0
  PassedOver =
      (c.address ≡ whoami)
      ⊎ ((old : Change) × (lookup c.address index ≡ some old)
          × (c.incarnation_number ≤ old.incarnation_number))

  IsNewest : Type 0
  IsNewest =
      (c.address ≢ whoami)
      × ((old : Change)
          → lookup c.address index ≡ some old
          → old.incarnation_number ≤ c.incarnation_number)

  merge_change_cases :
      ((merge_change whoami c index ≡ index) × PassedOver)
      ⊎ ((merge_change whoami c index ≡ insert c.address c index) × IsNewest)
  unfolding merge_change PassedOver IsNewest
  merge_change_cases = elim (Bool-cases (str_eq c.address whoami)) [
    | inl own ↦ inl (rw own, inl ((eq_iff c.address whoami).0 own))
    | inr other ↦ elim (Option-cases (lookup c.address index)) [
      | inl e ↦
          inr (rw (other, e), (λ q. ground (arith, other, eq_iff c.address whoami), λ old h. cc))
      | inr (old, e) ↦ elim (Bool-cases (ltb old.incarnation_number c.incarnation_number)) [
        | inl newer ↦ inr (
          rw (other, e, newer),
          (
            λ q. ground (arith, other, eq_iff c.address whoami),
            λ old' h. ground (arith, e, h, newer),
          ),
        )
        | inr older ↦ inl (rw (other, e, older), inr (old, e, ground arith))
      ]
    ]
  ]

  kept-IsMerged : IsMerged whoami seen index → PassedOver → IsMerged whoami (Plus seen c) index
  unfolding PassedOver
  kept-IsMerged v passed = record {
    keyed = λ a d h. (let (p, n, s) = v.keyed a d h in (p, n, inl s));
    covers = λ d h n. covered d h n passed;
    distinct = v.distinct;
  }
    where
      covered :
          (d : Change)
          → Plus seen c d
          → d.address ≢ whoami
          → PassedOver
          → (k : Change) × (lookup d.address index ≡ some k)
            × (d.incarnation_number ≤ k.incarnation_number)
      covered d (inl s) n p = v.covers d s n
      covered d (inr e) n (inl own) = absurd (n (ap (λ x. x.address) e ∙ own))
      covered d (inr e) n (inr (old, q, le)) = (
        old,
        ap (λ x. lookup x.address index) e ∙ q,
        subst (λ x. x.incarnation_number ≤ old.incarnation_number) (sym e) le,
      )

  inserted-IsMerged :
      IsMerged whoami seen index
      → IsNewest
      → IsMerged whoami (Plus seen c) (insert c.address c index)
  unfolding IsNewest
  inserted-IsMerged v (foreign, newest) = record {
    keyed = λ a d h. elim (Bool-cases (str_eq c.address a)) [
      | inl same ↦
          (let e : d ≡ c = ground (arith, same, lookup-insert c.address a c index) in
            let q : c.address ≡ a = (eq_iff c.address a).0 same in
            (ap (λ x. x.address) e ∙ q, subst (λ x. x ≢ whoami) q foreign, inr e))
      | inr other ↦
          (let (p, n, s) = v.keyed a d (ground (arith, other, lookup-insert c.address a c index)) in
            (p, n, inl s))
    ];
    covers = λ d h n. elim (Bool-cases (str_eq c.address d.address)) [
      | inl same ↦ (
        c,
        ground (arith, same, lookup-insert c.address d.address c index),
        at_same d h n ((eq_iff c.address d.address).0 same),
      )
      | inr other ↦ at_other d h n other
    ];
    distinct = Distinct-insert c.address c index v.distinct;
  }
    where
      at_same :
          (d : Change)
          → Plus seen c d
          → d.address ≢ whoami
          → c.address ≡ d.address
          → d.incarnation_number ≤ c.incarnation_number
      at_same d (inl s) n q =
          let (k, e, le) = v.covers d s n in
          omega (arith, le, newest k (ap (λ a. lookup a index) q ∙ e))
      at_same d (inr e) n q = ground arith

      at_other :
          (d : Change)
          → Plus seen c d
          → d.address ≢ whoami
          → str_eq c.address d.address ≡ false
          → (k : Change) × (lookup d.address (insert c.address c index) ≡ some k)
            × (d.incarnation_number ≤ k.incarnation_number)
      at_other d (inl s) n other =
          let (k, e, le) = v.covers d s n in
          (k, ground (arith, other, e, lookup-insert c.address d.address c index), le)
      at_other d (inr e) n other = ground (arith, e, other, eq_iff c.address d.address)

  merge_change-IsMerged :
      IsMerged whoami seen index → IsMerged whoami (Plus seen c) (merge_change whoami c index)
  merge_change-IsMerged v = elim merge_change_cases [
    | inl (e, passed) ↦ subst (IsMerged whoami (Plus seen c)) (sym e) (kept-IsMerged v passed)
    | inr (e, newest) ↦ subst (IsMerged whoami (Plus seen c)) (sym e) (inserted-IsMerged v newest)
  ]

-- The changes seen before a list, and those of the list.
abbrev PlusAll : (Change → Type 0) → List Change → Change → Type 0
PlusAll seen [] d = seen d
PlusAll seen (c ∷ cs) d = PlusAll (Plus seen c) cs d

merge_changes-IsMerged :
    (whoami : String) (seen : Change → Type 0) (cs : List Change) (index : Dict Change)
    → IsMerged whoami seen index
    → IsMerged whoami (PlusAll seen cs) (merge_changes whoami cs index)
unfolding merge_changes
merge_changes-IsMerged whoami seen [] index v = v
merge_changes-IsMerged whoami seen (c ∷ cs) index v =
    merge_changes-IsMerged whoami (Plus seen c) cs (merge_change whoami c index)
      (merge_change-IsMerged whoami seen c index v)

merge_changesets_flat :
    (whoami : String) (css : List (List Change)) (index : Dict Change)
    → merge_changesets whoami css index ≡ merge_changes whoami (all_changes css) index
unfolding merge_changesets merge_changes
merge_changesets_flat whoami [] index = refl
merge_changesets_flat whoami (cs ∷ css) index =
    merge_changesets_flat whoami css (merge_changes whoami cs index)
    ∙ sym (merge_changes-append whoami cs (all_changes css) index)

In-of_PlusAll :
    (seen : Change → Type 0) (cs : List Change) (d : Change) → PlusAll seen cs d → seen d ⊎ In d cs
In-of_PlusAll seen [] d h = inl h
In-of_PlusAll seen (c ∷ cs) d h = elim (In-of_PlusAll (Plus seen c) cs d h) [
  | inl (inl s) ↦ inl s
  | inl (inr e) ↦ inr (inl e)
  | inr k ↦ inr (inr k)
]

PlusAll_of_In :
    (seen : Change → Type 0) (cs : List Change) (d : Change) → seen d ⊎ In d cs → PlusAll seen cs d
PlusAll_of_In seen [] d (inl s) = s
PlusAll_of_In seen [] d (inr k) = absurd k
PlusAll_of_In seen (c ∷ cs) d (inl s) = PlusAll_of_In (Plus seen c) cs d (inl (inl s))
PlusAll_of_In seen (c ∷ cs) d (inr (inl e)) = PlusAll_of_In (Plus seen c) cs d (inl (inr e))
PlusAll_of_In seen (c ∷ cs) d (inr (inr k)) = PlusAll_of_In (Plus seen c) cs d (inr k)

merged :
    (whoami : String) (css : List (List Change))
    → IsMerged whoami (PlusAll (λ _. ⊥) (all_changes css)) (merge_changesets whoami css [])
unfolding lookup keys
merged whoami css =
    subst (IsMerged whoami (PlusAll (λ _. ⊥) (all_changes css)))
      (sym (merge_changesets_flat whoami css []))
      (merge_changes-IsMerged whoami (λ _. ⊥) (all_changes css) []
        (record { keyed = λ a c h. cc; covers = λ c h n. absurd h; distinct = tt }))

-- What a list of changes holds after the merge.
pub record IsMergeOf (whoami : String) (css : List (List Change)) (merged : List Change)
    : Type 0 where
  pub sound : (c : Change) → In c merged → (c.address ≢ whoami) × In c (all_changes css)
  pub unique : Distinct (map (λ (c : Change). c.address) merged)
  pub newest :
      (c : Change)
      → In c (all_changes css)
      → c.address ≢ whoami
      → (d : Change) × In d merged
        × (d.address ≡ c.address)
        × (c.incarnation_number ≤ d.incarnation_number)

-- The merge keeps changes of the input alone, none about the node itself and at most one for an
-- address; and each change of the input about another address is met by a kept one about the same
-- address whose incarnation number is at least as high.
pub merge_membership_changesets-IsMergeOf :
    (whoami : String) (css : List (List Change))
    → IsMergeOf whoami css (merge_membership_changesets whoami css)
unfolding merge_membership_changesets
merge_membership_changesets-IsMergeOf whoami css = record {
  sound = λ c h.
      (let (k, e) = lookup_of_value c index v.distinct h in
        let (p, n, s) = v.keyed k c e in (subst (λ x. x ≢ whoami) (sym p) n, from_seen c s));
  unique =
      subst Distinct
        (sym (map-values (λ (c : Change). c.address) index v.distinct (λ k c e. (v.keyed k c e).0)))
        v.distinct;
  newest = λ c h n.
      (let (d, e, le) = v.covers c (PlusAll_of_In (λ _. ⊥) (all_changes css) c (inr h)) n in
        (d, value_of_lookup c.address d index e, (v.keyed c.address d e).0, le));
}
  where
    index : Dict Change
    index = merge_changesets whoami css []

    v : IsMerged whoami (PlusAll (λ _. ⊥) (all_changes css)) index
    v = merged whoami css

    from_seen : (c : Change) → PlusAll (λ _. ⊥) (all_changes css) c → In c (all_changes css)
    from_seen c s = elim (In-of_PlusAll (λ _. ⊥) (all_changes css) c s) [
      | inl no' ↦ absurd no'
      | inr k ↦ k
    ]
