-- ===== src/Gossip/PingReq/Answers.antt =====
-- What one answer to a ping-req does to the verdict and the member list.
use ringpop_node.Common.{
  ℕ, suc, ◌+◌, ◌≡◌, refl, sym, subst, Bool, true, false, List, [], ◌∷◌, ◌++◌, Option, none, some,
  length, length-append, ltb, if◌then◌else◌, arith,
}
use ringpop_node.Config.{Env}
use ringpop_node.Member.{Change}
use ringpop_node.Membership.Events.{Event}
use ringpop_node.Membership.State.{Membership}
use ringpop_node.Membership.Local.{make_suspect, make_change}
use ringpop_node.Membership.Consistency.{IsConsistent}
use ringpop_node.Membership.Keeps.{Keeps, update-Keeps}
use ringpop_node.Gossip.PingReq.{
  Arrival, PingReqError, Verdict, reachable, unreachable, ping_req_inconclusive, PingReqs, error_of,
  changes_of, any_status_error, Target, apply_to, conclude, count_answer, handle_answer,
  on_ping_req, on_ping_reqs,
}

-- The first member that reached the target decides; with errors only, one about the status does.
abbrev pub verdict_of : List PingReqError → List Arrival → Verdict
verdict_of errors [] = if any_status_error errors then unreachable errors else ping_req_inconclusive
verdict_of errors (a ∷ as') = elim (error_of a.answer) [
  | none ↦ reachable a.member
  | some e ↦ verdict_of (errors ++ e ∷ []) as'
]

-- The member list is in order, and what else holds of the state.
abbrev pub Stays : Env → ℕ → (PingReqs → Type 0) → Option PingReqs → Type 0
Stays env l P none = ⊥
Stays env l P (some s) = IsConsistent env s.membership × (s.membership.local_member ≡ some l) × P s

-- The first answer decides, or the rest does.
abbrev pub After : List PingReqError → List Arrival → PingReqs → Type 0
After errors [] s = s.verdict ≡ some (verdict_of errors [])
After errors (a ∷ arrivals) s = (s.verdict ≡ none) × (s.errors ≡ errors)

abbrev pub AfterFound :
    List PingReqError → Arrival → Option PingReqError → List Arrival → PingReqs → Type 0
AfterFound errors a none arrivals s = s.verdict ≡ some (reachable a.member)
AfterFound errors a (some e) arrivals s = After (errors ++ e ∷ []) arrivals s

abbrev pub AfterAnswer : List PingReqError → Arrival → List Arrival → PingReqs → Type 0
AfterAnswer errors a arrivals s = AfterFound errors a (error_of a.answer) arrivals s

module _ (env : Env) (is_ready : Bool) (target : Target) (l size : ℕ) where
  apply_to-Stays :
      (P : PingReqs → Type 0) (r : Option (Membership × List Change × List Event)) (s : PingReqs)
      → Keeps env l r
      → ((m : Membership) (events : List Event) → P (record s { membership = m; events = events }))
      → Stays env l P (apply_to r s)
  unfolding apply_to
  apply_to-Stays P none s k h = absurd k
  apply_to-Stays P (some (m, changes, events)) s k h = (k.0, k.1, h m (s.events ++ events))

  pub Stays-bind :
      (P Q : PingReqs → Type 0) (f : PingReqs → Option PingReqs) (r : Option PingReqs)
      → Stays env l P r
      → ((s : PingReqs)
          → IsConsistent env s.membership
          → s.membership.local_member ≡ some l
          → P s
          → Stays env l Q (f s))
      → Stays env l Q (elim r [ none ↦ none | some s ↦ f s ])
  Stays-bind P Q f none k h = absurd k
  Stays-bind P Q f (some s) k h = h s k.0 k.1 k.2

  conclude-Stays :
      (a : Arrival) (errors : List PingReqError) (s : PingReqs)
      → IsConsistent env s.membership
      → s.membership.local_member ≡ some l
      → Stays env l
          (λ s'. s'.verdict ≡ some (verdict_of errors []))
          (conclude env is_ready target a (record s { errors = errors }))
  unfolding conclude make_suspect make_change
  conclude-Stays a errors s v e =
      go (any_status_error errors) _
        (update-Keeps env a.now l is_ready a.suspect_draws _ s.membership v e)
    where
      go :
          (b : Bool) (r : Option (Membership × List Change × List Event))
          → Keeps env l r
          → Stays env l
              (λ s'. s'.verdict ≡ some (if b then unreachable errors else ping_req_inconclusive))
              (if b
                then apply_to r (record s { errors = errors; verdict = some (unreachable errors) })
                else some (record s { errors = errors; verdict = some ping_req_inconclusive }))
      go true r k =
          apply_to-Stays (λ s'. s'.verdict ≡ some (unreachable errors)) r
            (record s { errors = errors; verdict = some (unreachable errors) }) k (λ m events. refl)
      go false r k = (v, e, refl)

  -- One more error, where `arrivals` are still to come.
  one_error-Stays :
      (a : Arrival) (x : PingReqError) (arrivals : List Arrival) (s : PingReqs)
      → IsConsistent env s.membership
      → s.membership.local_member ≡ some l
      → s.verdict ≡ none
      → length s.errors + suc (length arrivals) ≡ size
      → Stays env l (After (s.errors ++ x ∷ []) arrivals) (
          if ltb (length (s.errors ++ x ∷ [])) size
          then some (record s { errors = s.errors ++ x ∷ [] })
          else conclude env is_ready target a (record s { errors = s.errors ++ x ∷ [] }))
  one_error-Stays a x [] s v e waits all =
      let test : ltb (length (s.errors ++ x ∷ [])) size ≡ false =
        ground (arith, all, length-append s.errors (x ∷ [])) in
      rw test (conclude-Stays a (s.errors ++ x ∷ []) s v e)
  one_error-Stays a x (b ∷ arrivals) s v e waits all =
      let test : ltb (length (s.errors ++ x ∷ [])) size ≡ true =
        ground (arith, all, length-append s.errors (x ∷ [])) in
      rw test (v, e, (waits, refl))

  count_answer-Stays :
      (a : Arrival) (arrivals : List Arrival) (s : PingReqs)
      → IsConsistent env s.membership
      → s.membership.local_member ≡ some l
      → s.verdict ≡ none
      → length s.errors + suc (length arrivals) ≡ size
      → Stays env l (AfterAnswer s.errors a arrivals) (count_answer env is_ready target size a s)
  unfolding count_answer
  count_answer-Stays a arrivals s v e waits all = go (error_of a.answer)
    where
      go :
          (found : Option PingReqError)
          → Stays env l (AfterFound s.errors a found arrivals) (elim found [
            | none ↦ some (record s { verdict = some (reachable a.member) })
            | some x ↦
                if ltb (length (s.errors ++ x ∷ [])) size
                then some (record s { errors = s.errors ++ x ∷ [] })
                else conclude env is_ready target a (record s { errors = s.errors ++ x ∷ [] })
          ])
      go none = (v, e, refl)
      go (some x) = one_error-Stays a x arrivals s v e waits all

  -- The answer's changes are applied, and then it counts.
  pub on_ping_req-Stays :
      (a : Arrival) (arrivals : List Arrival) (s : PingReqs)
      → IsConsistent env s.membership
      → s.membership.local_member ≡ some l
      → s.verdict ≡ none
      → length s.errors + suc (length arrivals) ≡ size
      → Stays env l (AfterAnswer s.errors a arrivals) (on_ping_req env is_ready target size a s)
  unfolding on_ping_req handle_answer
  on_ping_req-Stays a arrivals s v e waits all =
      Stays-bind (λ s'. (s'.verdict ≡ none) × (s'.errors ≡ s.errors))
        (AfterAnswer s.errors a arrivals) (λ s'. handle_answer env is_ready target size a s') _
        (apply_to-Stays (λ s'. (s'.verdict ≡ none) × (s'.errors ≡ s.errors)) _ s
          (update-Keeps env a.now l is_ready a.draws (changes_of a.answer) s.membership v e)
          (λ m events. (waits, refl)))
        (λ s' v' e' (waits', same).
          subst
            (λ verdict. Stays env l (AfterAnswer s.errors a arrivals) (elim verdict [
              | some verdict' ↦ some s'
              | none ↦ count_answer env is_ready target size a s'
            ]))
            (sym waits')
            (subst
              (λ errors.
                Stays env l (AfterAnswer errors a arrivals)
                  (count_answer env is_ready target size a s'))
              same (count_answer-Stays a arrivals s' v' e' waits' (rw same all))))

  -- What was called back stays, whatever arrives later.
  pub decided-Stays :
      (arrivals : List Arrival) (verdict : Verdict) (s : PingReqs)
      → IsConsistent env s.membership
      → s.membership.local_member ≡ some l
      → s.verdict ≡ some verdict
      → Stays env l
          (λ s'. s'.verdict ≡ some verdict)
          (on_ping_reqs env is_ready target size arrivals s)
  unfolding on_ping_reqs on_ping_req handle_answer
  decided-Stays [] verdict s v e is = (v, e, is)
  decided-Stays (a ∷ arrivals) verdict s v e is =
      Stays-bind (λ s'. s'.verdict ≡ some verdict) (λ s'. s'.verdict ≡ some verdict)
        (λ s'. on_ping_reqs env is_ready target size arrivals s') _
        (Stays-bind (λ s'. s'.verdict ≡ some verdict) (λ s'. s'.verdict ≡ some verdict)
          (λ s'. handle_answer env is_ready target size a s') _
          (apply_to-Stays (λ s'. s'.verdict ≡ some verdict) _ s
            (update-Keeps env a.now l is_ready a.draws (changes_of a.answer) s.membership v e)
            (λ m events. is))
          (λ s' v' e' is'.
            subst
              (λ found.
                Stays env l (λ s''. s''.verdict ≡ some verdict)
                  (elim found [
                    | some verdict' ↦ some s'
                    | none ↦ count_answer env is_ready target size a s'
                  ]))
              (sym is') (v', e', is')))
        (λ s' v' e' is'. decided-Stays arrivals verdict s' v' e' is')
