-- ===== src/Gossip/StateTransitions/Pending.antt =====
-- What is pending after an update, after `disable`, and a transition that cannot take effect.
use ringpop_node.Common.{
  ℕ, ◌≡◌, ◌≢◌, refl, subst, ◌⊎◌, inl, inr, String, false, not, List, [], ◌∷◌, some, Dict, lookup,
  ◌==◌, str_eq, eq_iff, arith, In, Bool-cases, In-keep_inv,
}
use ringpop_node.Member.{Change, alive, leave, suspect}
use ringpop_node.Gossip.StateTransitions.{
  suspect_to_faulty, Timeout, Timer, StateTransitions, clear_timeout, handle_status, cancel,
  schedule, handle_update, clear_timers, disable, schedule_suspect_to_faulty,
}
use ringpop_node.Gossip.StateTransitions.Timers.{address_of, IsTimed, lookup-cancel, cancel-IsTimed}

not_cleared :
    (m : Dict Timer) (ts : List Timeout) (t : Timeout) → In t (clear_timers m ts) → In t ts
unfolding clear_timers
not_cleared [] ts t h = h
not_cleared ((a, timer) ∷ m) ts t h =
    (In-keep_inv (λ x. not (x.handle == timer.handle)) ts t
      (not_cleared m (clear_timeout timer.handle ts) t h)).0

cleared :
    (m : Dict Timer) (ts : List Timeout) (t : Timeout) (a : String) (timer : Timer)
    → lookup a m ≡ some timer
    → timer.handle ≡ t.handle
    → ¬ In t (clear_timers m ts)
unfolding clear_timers lookup
cleared [] ts t a timer e q h = cc
cleared ((b, other) ∷ m) ts t a timer e q h = elim (Bool-cases (str_eq b a)) [
  | inl same ↦
      (let k =
          In-keep_inv (λ x. not (x.handle == other.handle)) ts t
            (not_cleared m (clear_timeout other.handle ts) t h) in
        ground (arith, same, e, q, k))
  | inr differs ↦
      cleared m (clear_timeout other.handle ts) t a timer (ground (arith, differs, e)) q h
]

nothing-In : {A : Type 0} (xs : List A) → ((a : A) → ¬ In a xs) → xs ≡ []
nothing-In [] n = refl
nothing-In (x ∷ xs) n = absurd (n x (inl refl))

-- `disable` leaves no timeout pending and no entry in `timers`, and the protocol disabled.
pub disable_lem :
    (whoami : String) (s : StateTransitions)
    → IsTimed whoami s
    → ((disable s).timeouts ≡ []) × ((disable s).timers ≡ []) × ((disable s).enabled ≡ false)
unfolding disable
disable_lem whoami s v = (
  nothing-In (clear_timers s.timers s.timeouts) (λ t h.
      cleared s.timers s.timeouts t (address_of t.transition) _
        (v.registered t (not_cleared s.timers s.timeouts t h)) refl h),
  refl,
  refl,
)

cancelled :
    (whoami a : String) (s : StateTransitions)
    → IsTimed whoami s
    → (t : Timeout) → In t (cancel a s).timeouts
    → address_of t.transition ≢ a
cancelled whoami a s v t h q = ground (
  arith,
  (cancel-IsTimed whoami s v a).registered t h,
  lookup-cancel a (address_of t.transition) s,
  eq_iff a (address_of t.transition),
  q,
)

-- After an update that a member is alive or left, no transition of it is pending.
pub handle_update_cancels :
    (whoami : String) (update : Change) (s : StateTransitions)
    → IsTimed whoami s
    → (update.status ≡ alive) ⊎ (update.status ≡ leave)
    → (t : Timeout) → In t (handle_update whoami update s).timeouts
    → address_of t.transition ≢ update.address
unfolding handle_update
handle_update_cancels whoami update s v st t h = cancelled whoami update.address s v t (go st h)
  where
    go :
        (update.status ≡ alive) ⊎ (update.status ≡ leave)
        → In t (handle_status whoami update.status update s).timeouts
        → In t (cancel update.address s).timeouts
    go (inl e) k = subst (λ st. In t (handle_status whoami st update s).timeouts) e k
    go (inr e) k = subst (λ st. In t (handle_status whoami st update s).timeouts) e k

-- While the transition of a suspect at incarnation `i` is pending, an update that it is suspect at
-- another incarnation changes nothing.
pub suspect_kept :
    (whoami : String) (s : StateTransitions) (t : Timeout) (a : String) (i : ℕ) (update : Change)
    → IsTimed whoami s
    → In t s.timeouts
    → t.transition ≡ suspect_to_faulty a i
    → update.address ≡ a
    → update.status ≡ suspect
    → handle_update whoami update s ≡ s
unfolding handle_update schedule_suspect_to_faulty schedule
suspect_kept whoami s t a i update v h e q st =
    ground (arith, st, q, v.registered t h, v.foreign t h, e, eq_iff update.address whoami)
