-- ===== src/Gossip/Dissemination/Rounds.antt =====
-- The changes of a node run out, and what a receiver answers.
use ringpop_node.Common.{
  sym, key_of_lookup, ℕ, suc, ◌≤◌, ◌≡◌, refl, subst, ◌↔◌, ◌≢◌, ◌∙◌, inl, inr, String, Bool, true,
  false, List, [], ◌∷◌, Option, none, some, Dict, lookup, keys, ◌==◌, eq_iff, arith, In, Bool-cases,
  Option-cases, length,
}
use ringpop_node.Member.{Change}
use ringpop_node.Membership.State.{Membership}
use ringpop_node.Gossip.Dissemination.{
  Recorded, Dissemination, issued, issue_as, is_empty, filter_change, issue_as_receiver,
  full_sync_needed, membership_as_changes,
}
use ringpop_node.Gossip.Dissemination.Sources.{
  filter_issued, IsFrom, IsFrom-filter_change, filter_change-true,
}
use ringpop_node.Gossip.Dissemination.Issue.{
  issued_at_sound, issued_at_complete, issued_at, issue_as_lem,
}
use ringpop_node.Gossip.Dissemination.Counts.{
  IsRecorded, sender_rounds, after_rounds, rounds_limited,
}

nothing_recorded : (m : Dict Recorded) → ((a : String) → lookup a m ≡ none) → length m ≡ 0
unfolding lookup
nothing_recorded [] n = refl
nothing_recorded ((a, r) ∷ m) n = ground (arith, n a, eq_iff a a)

-- In `k + 1` confirmed pings between which nothing is recorded, a change that was issued `c` times
-- before is issued again in each, up to the limit; with more pings than the limit every change is
-- gone, and the node has nothing left to pass on.
pub sender_rounds-limited :
    (limit : ℕ) (d : Dissemination)
    → IsRecorded limit d
    → ((k : ℕ) (a : String)
        → lookup a (sender_rounds (suc k) d).changes
          ≡ after_rounds limit (suc k) (lookup a d.changes))
      × (is_empty (sender_rounds (suc limit) d) ≡ true)
unfolding is_empty
sender_rounds-limited limit d v = (
  (λ k a. rounds_limited limit k d a v),
  ground (arith, nothing_recorded (sender_rounds (suc limit) d).changes gone),
)
  where
    gone : (a : String) → lookup a (sender_rounds (suc limit) d).changes ≡ none
    gone a = rounds_limited limit limit d a v ∙ elim (Option-cases (lookup a d.changes)) [
      | inl e ↦ ground (arith, e)
      | inr (r, e) ↦ ground (arith, e)
    ]

-- Each issued change is a live recorded one.
full_sync_differs : (a b : ℕ) → some a ≢ some b → (a == b) ≡ false
full_sync_differs a b n = elim (Bool-cases (a == b)) [
  | inl e ↦ absurd (n (ground (arith, e)))
  | inr e ↦ e
]

full_sync_needed_iff :
    (out : List Change) (checksum : Option ℕ) (sender_checksum : ℕ)
    → (full_sync_needed out checksum sender_checksum ≡ true)
      ↔ ((out ≡ []) × (checksum ≢ some sender_checksum))
unfolding full_sync_needed
full_sync_needed_iff [] none n = ((λ h. (refl, λ q. cc)), λ h. refl)
full_sync_needed_iff [] (some k) n =
    ((λ h. (refl, λ q. ground (arith, h, q))), λ h. ground (arith, full_sync_differs k n h.1))
full_sync_needed_iff (c ∷ cs) checksum n = ((λ h. cc), λ h. cc (h.0))

-- Unless it answers with a full sync, a receiver issues exactly the recorded changes that were issued less often
-- than the limit and did not come from the sender's present incarnation.
pub issue_as_receiver-issued :
    (whoami : String) (m : Membership) (sender : Option String) (incarnation : Option ℕ)
    (checksum : ℕ) (d : Dissemination) (c : Change)
    → IsRecorded d.max_piggyback_count d
    → (issue_as_receiver whoami m sender incarnation checksum d).2 ≡ false
    → In c (issue_as_receiver whoami m sender incarnation checksum d).1 ↔ (
        (¬ IsFrom sender incarnation c)
        × ((a : String) × (r : Recorded) × (lookup a d.changes ≡ some r)
            × (suc r.piggyback_count ≤ d.max_piggyback_count)
            × (c ≡ issued r.change)))
unfolding issue_as_receiver
issue_as_receiver-issued whoami m sender incarnation checksum d c v no_sync =
    subst (λ (out : List Change). In c out ↔ Live) (sym (rw no_sync out_lem)) (sound, complete)
  where
    filter : Change → Bool
    filter = filter_change sender incarnation

    Live : Type 0
    Live =
        (¬ IsFrom sender incarnation c)
        × ((a : String) × (r : Recorded) × (lookup a d.changes ≡ some r)
            × (suc r.piggyback_count ≤ d.max_piggyback_count)
            × (c ≡ issued r.change))

    out_lem :
        (issue_as filter d).1 ≡ issued_at filter d.max_piggyback_count (keys d.changes) d.changes
    out_lem = (issue_as_lem filter d.max_piggyback_count d refl v.distinct).1

    sound : In c (issued_at filter d.max_piggyback_count (keys d.changes) d.changes) → Live
    sound h =
        let (a, r, e, live, same) =
          issued_at_sound filter d.max_piggyback_count (keys d.changes) d.changes c h in
        let kept : filter_change sender incarnation c ≡ false =
          ground (arith, live, same, filter_issued sender incarnation r.change) in
        (
          (λ from. ground (arith, kept, IsFrom-filter_change sender incarnation c from)),
          (a, r, e, ground (arith, live), same),
        )

    complete : Live → In c (issued_at filter d.max_piggyback_count (keys d.changes) d.changes)
    complete (other, (a, r, e, low, same)) =
        let kept : filter_change sender incarnation (issued r.change) ≡ false =
          elim (Bool-cases (filter_change sender incarnation (issued r.change))) [
            | inl from ↦ absurd (
                other (
                  subst (IsFrom sender incarnation) (sym same)
                    (filter_change-true sender incarnation (issued r.change) from)))
            | inr kept ↦ kept
          ] in
        subst (λ x. In x (issued_at filter d.max_piggyback_count (keys d.changes) d.changes))
          (sym same)
          (issued_at_complete filter d.max_piggyback_count (keys d.changes) d.changes a r
            (key_of_lookup a r d.changes e) e
            (ground (arith, low, kept, filter_issued sender incarnation r.change)))

-- A receiver answers with a full sync exactly if the filter and the limit leave nothing to issue and the
-- checksums differ; the answer of a full sync is the whole member list, and any other answer is what the filter
-- and the limit leave.
pub issue_as_receiver-full_sync :
    (whoami : String) (m : Membership) (sender : Option String) (incarnation : Option ℕ)
    (checksum : ℕ) (d : Dissemination)
    → IsRecorded d.max_piggyback_count d
    → (((issue_as_receiver whoami m sender incarnation checksum d).2 ≡ true) ↔ (
        (issued_at
            (filter_change sender incarnation)
            d.max_piggyback_count
            (keys d.changes)
            d.changes
          ≡ [])
        × (m.checksum ≢ some checksum)))
      × ((issue_as_receiver whoami m sender incarnation checksum d).2 ≡ true
          → (issue_as_receiver whoami m sender incarnation checksum d).1
            ≡ membership_as_changes whoami m)
      × ((issue_as_receiver whoami m sender incarnation checksum d).2 ≡ false
          → (issue_as_receiver whoami m sender incarnation checksum d).1
            ≡ issued_at
                (filter_change sender incarnation)
                d.max_piggyback_count
                (keys d.changes)
                d.changes)
unfolding issue_as_receiver issue_as
issue_as_receiver-full_sync whoami m sender incarnation checksum d v =
    let issued_lem =
      (issue_as_lem (filter_change sender incarnation) d.max_piggyback_count d refl v.distinct).1 in
    (
      subst
          (λ (out : List Change).
            (full_sync_needed (issue_as (filter_change sender incarnation) d).1 m.checksum checksum
              ≡ true)
            ↔ ((out ≡ []) × (m.checksum ≢ some checksum)))
          issued_lem
          (full_sync_needed_iff (issue_as (filter_change sender incarnation) d).1 m.checksum
            checksum),
      (λ h. rw h refl),
      (λ h. rw h issued_lem),
    )
