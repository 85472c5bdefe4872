-- ===== src/Gossip/Dissemination/Counts.antt =====
-- How often a change is passed on.
use ringpop_node.Common.{
  ℕ, zero, suc, ◌+◌, ◌≡◌, refl, ◌∙◌, inl, inr, String, Bool, true, false, List, [], ◌∷◌, Option,
  none, some, Dict, lookup, delete, keys, lookup-insert, contains, contains-keys, contains_iff, leb,
  if◌then◌else◌, str_eq, eq_iff, arith, Distinct, Bool-cases, Option-cases, Distinct-delete,
  Distinct-insert,
}
use ringpop_node.Member.{Change}
use ringpop_node.Gossip.Dissemination.{
  Recorded, Dissemination, issued, issue_one, issue_loop, issue_as, issue_as_sender, on_issue, bump,
  bump_all, same_id,
}
use ringpop_node.Gossip.Dissemination.Issue.{is_live, issued_at, issue_as_lem}

-- Each change is recorded under its address.
abbrev pub IsFiled : Dict Recorded → Type 0
IsFiled changes = (a : String) (r : Recorded) → lookup a changes ≡ some r → r.change.address ≡ a

same_id_refl : (i : Option ℕ) → same_id i i ≡ true
same_id_refl none = refl
same_id_refl (some n) = ground arith

abbrev raised : Recorded → Recorded
raised r = record r { piggyback_count = suc r.piggyback_count }

abbrev bumped : Change → Option Recorded → Option Recorded
bumped c none = none
bumped c (some r) = if same_id r.change.id c.id then some (raised r) else some r

lookup-bump :
    (c : Change) (changes : Dict Recorded) (b : String)
    → lookup b (bump c changes)
      ≡ (if str_eq c.address b then bumped c (lookup b changes) else lookup b changes)
unfolding bump
lookup-bump c changes b = elim (Option-cases (lookup c.address changes)) [
  | inl e ↦ ground (arith, e, eq_iff c.address b)
  | inr (r, e) ↦ ground (arith, e, eq_iff c.address b, lookup-insert c.address b (raised r) changes)
]

-- What raising the counts of the issued changes does at an address, in another state `now`.
module _ (filter : Change → Bool) (limit : ℕ) (before : Dict Recorded)
    (filed : IsFiled before) where
  abbrev confirmed : String → Option Recorded → Option Recorded → Option Recorded
  confirmed b none later = later
  confirmed b (some r) later = if is_live filter limit r then bumped r.change later else later

  lookup-bump_issued :
      (ks : List String) (now : Dict Recorded) (b : String)
      → Distinct ks
      → lookup b (bump_all (issued_at filter limit ks before) now)
        ≡ (if contains b ks then confirmed b (lookup b before) (lookup b now) else lookup b now)
  unfolding bump_all issued_at contains issued
  lookup-bump_issued [] now b d = refl
  lookup-bump_issued (a ∷ as') now b d = elim (Option-cases (lookup a before)) [
    | inl e ↦ ground (arith, e, lookup-bump_issued as' now b d.1, eq_iff a b)
    | inr (r, e) ↦ ground (
      arith,
      e,
      filed a r,
      lookup-bump_issued as' now b d.1,
      lookup-bump_issued as' (bump (issued r.change) now) b d.1,
      lookup-bump (issued r.change) now b,
      eq_iff a b,
      contains_iff b as',
      d.0,
    )
  ]

Distinct-issue_loop :
    (filter : Change → Bool) (limit : ℕ) (ks : List String) (changes : Dict Recorded)
    → Distinct (keys changes)
    → Distinct (keys (issue_loop filter limit ks changes).0)
unfolding issue_loop issue_one
Distinct-issue_loop filter limit [] changes d = d
Distinct-issue_loop filter limit (a ∷ as') changes d = elim (Option-cases (lookup a changes)) [
  | inl e ↦ rw (e, issue_loop) (Distinct-issue_loop filter limit as' changes d)
  | inr (r, e) ↦
      rw (e, issue_loop)
        (elim (Bool-cases (filter r.change)) [
          | inl held ↦ rw (held, issue_one) (Distinct-issue_loop filter limit as' changes d)
          | inr free ↦ elim (Bool-cases (leb limit r.piggyback_count)) [
            | inl spent ↦
                rw (free, spent, issue_one)
                  (Distinct-issue_loop filter limit as' (delete a changes)
                    (Distinct-delete a changes d))
            | inr live ↦ rw (free, live, issue_one) (Distinct-issue_loop filter limit as' changes d)
          ]
        ])
]

Distinct-bump :
    (c : Change) (changes : Dict Recorded)
    → Distinct (keys changes)
    → Distinct (keys (bump c changes))
unfolding bump
Distinct-bump c changes d = elim (Option-cases (lookup c.address changes)) [
  | inl e ↦ rw (e, bump) d
  | inr (r, e) ↦ elim (Bool-cases (same_id r.change.id c.id)) [
    | inl q ↦ rw (e, q, bump) (Distinct-insert c.address (raised r) changes d)
    | inr q ↦ rw (e, q, bump) d
  ]
]

Distinct-bump_all :
    (cs : List Change) (changes : Dict Recorded)
    → Distinct (keys changes)
    → Distinct (keys (bump_all cs changes))
unfolding bump_all
Distinct-bump_all [] changes d = d
Distinct-bump_all (c ∷ cs) changes d =
    Distinct-bump_all cs (bump c changes) (Distinct-bump c changes d)

-- A ping that is confirmed: the changes are issued and their counts raised.
pub sender_round : Dissemination → Dissemination
sender_round d = on_issue false (issue_as_sender d).1 (issue_as_sender d).0

abbrev pub stepped : ℕ → Option Recorded → Option Recorded
stepped limit none = none
stepped limit (some r) = if leb limit r.piggyback_count then none else some (raised r)

-- The invariant of the recorded changes.
pub record IsRecorded (limit : ℕ) (d : Dissemination) : Type 0 where
  pub limited : d.max_piggyback_count ≡ limit
  pub filed : IsFiled d.changes
  pub distinct : Distinct (keys d.changes)

module _ (limit : ℕ) where
  lookup-sender_round :
      (d : Dissemination) (b : String)
      → IsRecorded limit d
      → lookup b (sender_round d).changes ≡ stepped limit (lookup b d.changes)
  unfolding sender_round on_issue issue_as_sender
  lookup-sender_round d b v =
      let (kept, out) = issue_as_lem (λ _. false) limit d v.limited v.distinct in
      rw out (
        lookup-bump_issued (λ _. false) limit d.changes v.filed (keys d.changes)
          (issue_as (λ _. false) d).0.changes b v.distinct
        ∙ elim (Option-cases (lookup b d.changes)) [
          | inl e ↦ ground (arith, e, kept b, contains-keys b d.changes)
          | inr (r, e) ↦
              ground (arith, e, kept b, contains-keys b d.changes, same_id_refl r.change.id)
        ])

  sender_round-IsRecorded :
      (d : Dissemination) → IsRecorded limit d → IsRecorded limit (sender_round d)
  unfolding sender_round on_issue issue_as_sender issue_as
  sender_round-IsRecorded d v = record {
    limited = v.limited;
    filed = λ a r h. filed a r h (lookup-sender_round d a v);
    distinct = Distinct-bump_all (issue_as_sender d).1 (issue_as_sender d).0.changes (
        Distinct-issue_loop (λ _. false) d.max_piggyback_count (keys d.changes) d.changes
          v.distinct);
  }
    where
      filed :
          (a : String) (r : Recorded)
          → lookup a (sender_round d).changes ≡ some r
          → lookup a (sender_round d).changes ≡ stepped limit (lookup a d.changes)
          → r.change.address ≡ a
      filed a r h q = elim (Option-cases (lookup a d.changes)) [
        | inl e ↦ ground (arith, h, q, e)
        | inr (x, e) ↦ ground (arith, h, q, e, v.filed a x e)
      ]

-- Several confirmed pings, with no change recorded in between.
pub sender_rounds : ℕ → Dissemination → Dissemination
sender_rounds zero d = d
sender_rounds (suc k) d = sender_rounds k (sender_round d)

abbrev pub after_rounds : ℕ → ℕ → Option Recorded → Option Recorded
after_rounds limit k none = none
after_rounds limit k (some r) =
    if leb (r.piggyback_count + k) limit
    then some (record r { piggyback_count = r.piggyback_count + k })
    else none

pub rounds_limited :
    (limit k : ℕ) (d : Dissemination) (a : String)
    → IsRecorded limit d
    → lookup a (sender_rounds (suc k) d).changes ≡ after_rounds limit (suc k) (lookup a d.changes)
unfolding sender_rounds
rounds_limited limit zero d a v = elim (Option-cases (lookup a d.changes)) [
  | inl e ↦ lookup-sender_round limit d a v ∙ ground (arith, e)
  | inr (r, e) ↦ lookup-sender_round limit d a v ∙ ground (arith, e)
]
rounds_limited limit (suc k) d a v =
    rounds_limited limit k (sender_round d) a (sender_round-IsRecorded limit d v)
    ∙ elim (Option-cases (lookup a d.changes)) [
      | inl e ↦ ground (arith, e, lookup-sender_round limit d a v)
      | inr (r, e) ↦ ground (arith, e, lookup-sender_round limit d a v)
    ]
