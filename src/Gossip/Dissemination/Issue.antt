-- ===== src/Gossip/Dissemination/Issue.antt =====
-- What `_issueAs` leaves recorded and what it issues.
use ringpop_node.Common.{
  subst, ◌⊎◌, true, Bool-cases, ℕ, ◌≡◌, refl, ◌∙◌, inl, inr, String, Bool, not, ◌&&◌, List, [], ◌∷◌,
  Option, none, some, Dict, lookup, delete, keys, lookup-delete, contains, contains-keys, leb,
  if◌then◌else◌, eq_iff, arith, In, Distinct, Option-cases,
}
use ringpop_node.Member.{Change}
use ringpop_node.Gossip.Dissemination.{
  Recorded, Dissemination, issued, issue_one, issue_loop, issue_as,
}

-- A recorded change that `_issueAs` drops, and one that it issues.
abbrev pub is_spent : (Change → Bool) → ℕ → Recorded → Bool
is_spent filter limit r = not (filter r.change) && leb limit r.piggyback_count

abbrev pub is_live : (Change → Bool) → ℕ → Recorded → Bool
is_live filter limit r = not (filter r.change) && not (leb limit r.piggyback_count)

abbrev pub unless_spent : (Change → Bool) → ℕ → Option Recorded → Option Recorded
unless_spent filter limit none = none
unless_spent filter limit (some r) = if is_spent filter limit r then none else some r

-- What is issued for the keys of a list.
unfoldable pub issued_at : (Change → Bool) → ℕ → List String → Dict Recorded → List Change
issued_at filter limit [] changes = []
issued_at filter limit (a ∷ as') changes =
    let rest = issued_at filter limit as' changes in
    elim (lookup a changes) [
      | none ↦ rest
      | some r ↦ (if is_live filter limit r then issued r.change ∷ rest else rest)
    ]

issued_at-delete :
    (filter : Change → Bool) (limit : ℕ) (as' : List String) (a : String) (changes : Dict Recorded)
    → ¬ In a as'
    → issued_at filter limit as' (delete a changes) ≡ issued_at filter limit as' changes
unfolding issued_at
issued_at-delete filter limit [] a changes n = refl
issued_at-delete filter limit (b ∷ bs) a changes n =
    let e : lookup b (delete a changes) ≡ lookup b changes =
      lookup-delete a b changes ∙ ground (arith, eq_iff a b, n) in
    ground (arith, e, issued_at-delete filter limit bs a changes (λ h. n (inr h)))

module _ (filter : Change → Bool) (limit : ℕ) where
  -- A key of the loop is dropped exactly if its change is spent; nothing else changes.
  lookup-issue_loop :
      (ks : List String) (changes : Dict Recorded) (b : String)
      → lookup b (issue_loop filter limit ks changes).0
        ≡ (if contains b ks then unless_spent filter limit (lookup b changes) else lookup b changes)
  unfolding issue_loop issue_one contains
  lookup-issue_loop [] changes b = refl
  lookup-issue_loop (a ∷ as') changes b = elim (Option-cases (lookup a changes)) [
    | inl e ↦ ground (arith, e, lookup-issue_loop as' changes b, eq_iff a b)
    | inr (r, e) ↦ ground (
      arith,
      e,
      lookup-issue_loop as' changes b,
      lookup-issue_loop as' (delete a changes) b,
      lookup-delete a b changes,
      eq_iff a b,
    )
  ]

  issue_loop-issued_at :
      (ks : List String) (changes : Dict Recorded)
      → Distinct ks
      → (issue_loop filter limit ks changes).1 ≡ issued_at filter limit ks changes
  unfolding issue_loop issue_one issued_at
  issue_loop-issued_at [] changes d = refl
  issue_loop-issued_at (a ∷ as') changes d = elim (Option-cases (lookup a changes)) [
    | inl e ↦ ground (arith, e, issue_loop-issued_at as' changes d.1)
    | inr (r, e) ↦ ground (
      arith,
      e,
      issue_loop-issued_at as' changes d.1,
      issue_loop-issued_at as' (delete a changes) d.1,
      issued_at-delete filter limit as' a changes d.0,
    )
  ]

  -- `_issueAs` keeps every recorded change but the spent ones, and issues, in the order of the
  -- keys, the changes that the filter lets through and that were issued less often than the limit.
  pub issue_as_lem :
      (d : Dissemination)
      → d.max_piggyback_count ≡ limit
      → Distinct (keys d.changes)
      → ((a : String)
          → lookup a (issue_as filter d).0.changes ≡ unless_spent filter limit (lookup a d.changes))
        × ((issue_as filter d).1 ≡ issued_at filter limit (keys d.changes) d.changes)
  unfolding issue_as
  issue_as_lem d l dist = (
    (λ a. rw l (
        lookup-issue_loop (keys d.changes) d.changes a
        ∙ ground (arith, contains-keys a d.changes))),
    rw l (issue_loop-issued_at (keys d.changes) d.changes dist),
  )

pub issued_at_sound :
    (filter : Change → Bool) (limit : ℕ) (ks : List String) (m : Dict Recorded) (c : Change)
    → In c (issued_at filter limit ks m)
    → (a : String) × (r : Recorded) × (lookup a m ≡ some r)
      × (is_live filter limit r ≡ true)
      × (c ≡ issued r.change)
unfolding issued_at
issued_at_sound filter limit [] m c h = absurd h
issued_at_sound filter limit (a ∷ ks) m c h =
    go (lookup a m) refl h (issued_at_sound filter limit ks m c)
  where
    Sound : Type 0
    Sound =
        (b : String) × (r : Recorded) × (lookup b m ≡ some r)
        × (is_live filter limit r ≡ true)
        × (c ≡ issued r.change)

    here :
        (r : Recorded)
        → lookup a m ≡ some r
        → In c (
            if is_live filter limit r
            then issued r.change ∷ issued_at filter limit ks m
            else issued_at filter limit ks m)
        → (In c (issued_at filter limit ks m) → Sound)
        → Sound
    here r e k rest = elim (Bool-cases (is_live filter limit r)) [
      | inr dead ↦ rest (rw dead at k)
      | inl live ↦
          (let q : (c ≡ issued r.change) ⊎ In c (issued_at filter limit ks m) = rw live at k in
            elim q [ inl same ↦ (a, r, e, live, same) | inr later ↦ rest later ])
    ]

    go :
        (found : Option Recorded)
        → lookup a m ≡ found
        → In c (elim found [
          | none ↦ issued_at filter limit ks m
          | some r ↦
              (if is_live filter limit r
                then issued r.change ∷ issued_at filter limit ks m
                else issued_at filter limit ks m)
        ])
        → (In c (issued_at filter limit ks m) → Sound)
        → Sound
    go none e k rest = rest k
    go (some r) e k rest = here r e k rest

pub issued_at_complete :
    (filter : Change → Bool) (limit : ℕ) (ks : List String) (m : Dict Recorded) (a : String)
    (r : Recorded)
    → In a ks
    → lookup a m ≡ some r
    → is_live filter limit r ≡ true
    → In (issued r.change) (issued_at filter limit ks m)
unfolding issued_at
issued_at_complete filter limit [] m a r h e live = absurd h
issued_at_complete filter limit (k ∷ ks) m a r (inl same) e live =
    here (lookup k m) (subst (λ x. lookup x m ≡ some r) same e)
  where
    here :
        (found : Option Recorded)
        → found ≡ some r
        → In (issued r.change) (elim found [
          | none ↦ issued_at filter limit ks m
          | some u ↦
              (if is_live filter limit u
                then issued u.change ∷ issued_at filter limit ks m
                else issued_at filter limit ks m)
        ])
    here found q = rw q (rw live (inl refl))
issued_at_complete filter limit (k ∷ ks) m a r (inr h) e live =
    go (lookup k m) (issued_at_complete filter limit ks m a r h e live)
  where
    go :
        (found : Option Recorded)
        → In (issued r.change) (issued_at filter limit ks m)
        → In (issued r.change) (elim found [
          | none ↦ issued_at filter limit ks m
          | some u ↦
              (if is_live filter limit u
                then issued u.change ∷ issued_at filter limit ks m
                else issued_at filter limit ks m)
        ])
    go none later = later
    go (some u) later = elim (Bool-cases (is_live filter limit u)) [
      | inl live_one ↦ rw live_one (inr later)
      | inr dead ↦ rw dead later
    ]
