-- ===== src/Gossip/PingReq/Decides.antt =====
-- The verdict of the answers, in whatever order they arrive.
use ringpop_node.Common.{
  ℕ, suc, ◌+◌, ◌≡◌, refl, sym, subst, Bool, List, [], ◌∷◌, ◌++◌, Option, none, some, length,
  length-append, arith,
}
use ringpop_node.Config.{Env}
use ringpop_node.Member.{Member}
use ringpop_node.Membership.State.{Membership}
use ringpop_node.Membership.Consistency.{IsConsistent}
use ringpop_node.Gossip.PingReq.{
  Arrival, PingReqError, reachable, PingReqs, error_of, Target, on_ping_reqs, random_members,
  ask_members, send_ping_reqs,
}
use ringpop_node.Gossip.PingReq.Answers.{
  verdict_of, Stays, Stays-bind, AfterFound, AfterAnswer, on_ping_req-Stays, decided-Stays,
}

module _ (env : Env) (is_ready : Bool) (target : Target) (l size : ℕ) where
  -- What is left to be shown once the first answer has been handled.
  abbrev Rest : List Arrival → Type 0
  Rest [] = Unit
  Rest (a ∷ arrivals) =
      (s : PingReqs)
      → IsConsistent env s.membership
      → s.membership.local_member ≡ some l
      → s.verdict ≡ none
      → length s.errors + suc (length arrivals) ≡ size
      → Stays env l (λ s'. s'.verdict ≡ some (verdict_of s.errors (a ∷ arrivals)))
          (on_ping_reqs env is_ready target size (a ∷ arrivals) s)

  Rest-Stays :
      (a : Arrival) (arrivals : List Arrival) (errors : List PingReqError) (s : PingReqs)
      → length errors + suc (length arrivals) ≡ size
      → IsConsistent env s.membership
      → s.membership.local_member ≡ some l
      → AfterAnswer errors a arrivals s
      → Rest arrivals
      → Stays env l
          (λ s'. s'.verdict ≡ some (verdict_of errors (a ∷ arrivals)))
          (on_ping_reqs env is_ready target size arrivals s)
  Rest-Stays a arrivals errors s all v e after rest = go (error_of a.answer) arrivals all after rest
    where
      go :
          (found : Option PingReqError) (as' : List Arrival)
          → length errors + suc (length as') ≡ size
          → AfterFound errors a found as' s
          → Rest as'
          → Stays env l
              (λ s'.
                s'.verdict
                ≡ some (elim found [
                  | none ↦ reachable a.member
                  | some x ↦ verdict_of (errors ++ x ∷ []) as'
                ]))
              (on_ping_reqs env is_ready target size as' s)
      go none as' all' is rest' =
          decided-Stays env is_ready target l size as' (reachable a.member) s v e is
      go (some x) [] all' is rest' =
          decided-Stays env is_ready target l size [] (verdict_of (errors ++ x ∷ []) []) s v e is
      go (some x) (b ∷ bs) all' (waits, same) rest' =
          subst
            (λ es.
              Stays env l (λ s'. s'.verdict ≡ some (verdict_of es (b ∷ bs)))
                (on_ping_reqs env is_ready target size (b ∷ bs) s))
            same (rest' s v e waits (rw same (omega (arith, all', length-append errors (x ∷ [])))))

  all-Rest : (arrivals : List Arrival) → Rest arrivals
  unfolding on_ping_reqs
  all-Rest [] = tt
  all-Rest (a ∷ arrivals) = λ s v e waits all.
      Stays-bind env is_ready target l size (AfterAnswer s.errors a arrivals)
        (λ s'. s'.verdict ≡ some (verdict_of s.errors (a ∷ arrivals)))
        (λ s'. on_ping_reqs env is_ready target size arrivals s') _
        (on_ping_req-Stays env is_ready target l size a arrivals s v e waits all)
        (λ s' v' e' after. Rest-Stays a arrivals s.errors s' all v' e' after (all-Rest arrivals))

-- Where all of the members that were asked have answered, in whatever order, `sendPingReqs` has called
-- back with the verdict of the answers in that order, and the member list is in order.
pub send_ping_reqs-verdict_of :
    (sample : List Member → ℕ → List Member) (env : Env) (is_ready : Bool) (target : Target)
    (ping_req_size : ℕ) (first a : Arrival) (arrivals : List Arrival) (m : Membership) (l : ℕ)
    → IsConsistent env m
    → m.local_member ≡ some l
    → length (random_members sample env ping_req_size target m) ≡ suc (length arrivals)
    → Stays env l
        (λ s. s.verdict ≡ some (verdict_of [] (a ∷ arrivals)))
        (send_ping_reqs sample env is_ready target ping_req_size first (a ∷ arrivals) m)
unfolding send_ping_reqs ask_members
send_ping_reqs-verdict_of sample env is_ready target ping_req_size first a arrivals m l v e all =
    go (random_members sample env ping_req_size target m) all
  where
    go :
        (members : List Member)
        → length members ≡ suc (length arrivals)
        → Stays env l
            (λ s. s.verdict ≡ some (verdict_of [] (a ∷ arrivals)))
            (elim (ask_members env is_ready target first m members) [
              | none ↦ none
              | some s ↦ on_ping_reqs env is_ready target (length members) (a ∷ arrivals) s
            ])
    go [] e' = absurd (omega (arith, e'))
    go (x ∷ xs) e' =
        subst
          (λ size.
            Stays env l (λ s. s.verdict ≡ some (verdict_of [] (a ∷ arrivals)))
              (on_ping_reqs env is_ready target size (a ∷ arrivals)
                (record { membership = m; events = []; errors = []; verdict = none })))
          (sym e')
          (all-Rest env is_ready target l (suc (length arrivals)) (a ∷ arrivals)
            (record { membership = m; events = []; errors = []; verdict = none }) v e refl
            (omega arith))
