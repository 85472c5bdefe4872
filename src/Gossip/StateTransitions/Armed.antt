-- ===== src/Gossip/StateTransitions/Armed.antt =====
-- Each entry of `timers` has its timeout pending.
use ringpop_node.Common.{
  ℕ, ◌≡◌, sym, subst, inl, inr, String, not, some, lookup, lookup-insert, lookup-delete, ◌==◌,
  str_eq, eq_iff, arith, In, Bool-cases, Option-cases, In-keep, ap, refl, false, true,
}
use ringpop_node.Member.{Change, Status, alive, faulty, leave, suspect, tombstone, unknown}
use ringpop_node.Gossip.StateTransitions.{
  Transition, suspect_to_faulty, faulty_to_tombstone, tombstone_to_evict, Timeout, Timer,
  StateTransitions, handle_status, cancel, start_timer, schedule, handle_update,
  schedule_suspect_to_faulty, schedule_faulty_to_tombstone, schedule_tombstone_to_evict,
}
use ringpop_node.Gossip.StateTransitions.Timers.{
  address_of, status_of, IsTimed, schedule_cases, handle_update-IsTimed,
}

-- The entry of `timers` for an address, if there is one, has its timeout still pending, for that address and
-- with the transition out of the entry's state.
abbrev pub IsArmed : String → StateTransitions → Type 0
IsArmed a s =
    (timer : Timer)
    → lookup a s.timers ≡ some timer
    → (t : Timeout) × In t s.timeouts
      × (t.handle ≡ timer.handle)
      × (address_of t.transition ≡ a)
      × (status_of t.transition ≡ timer.state)

start_timer-IsArmed :
    (delay : ℕ) (move : Transition) (b : String) (s : StateTransitions)
    → IsArmed b s
    → IsArmed b (start_timer (address_of move) (status_of move) delay move s)
unfolding start_timer
start_timer-IsArmed delay move b s armed timer h =
    let started : Timer = record { handle = s.next_handle; state = status_of move } in
    let found = lookup-insert (address_of move) b started s.timers in
    elim (Bool-cases (str_eq (address_of move) b)) [
      | inl same ↦
          (let made : started ≡ timer = ground (arith, h, same, found) in
            (
              record { handle = s.next_handle; delay = delay; transition = move },
              inl refl,
              ap (λ (t : Timer). t.handle) made,
              (eq_iff (address_of move) b).0 same,
              ap (λ (t : Timer). t.state) made,
            ))
      | inr other ↦
          (let (t, pending, handle, address, state) =
              armed timer (ground (arith, h, other, found)) in
            (t, inr pending, handle, address, state))
    ]

module _ (whoami : String) (s : StateTransitions) (v : IsTimed whoami s) where
  cancel-IsArmed : (a b : String) → IsArmed b s → IsArmed b (cancel a s)
  unfolding cancel
  cancel-IsArmed a b armed = elim (Option-cases (lookup a s.timers)) [
    | inl e ↦ rw (e, cancel) armed
    | inr (cleared, e) ↦
        rw (e, cancel)
          (λ timer h.
            let other : str_eq a b ≡ false = ground (arith, h, lookup-delete a b s.timers) in
            let there : lookup b s.timers ≡ some timer =
              ground (arith, h, other, lookup-delete a b s.timers) in
            let (t, pending, handle, address, state) = armed timer there in
            let kept : not (t.handle == cleared.handle) ≡ true =
              ground (arith, handle, other, v.separate a b cleared timer e there, eq_iff a b) in
            (
              t,
              In-keep (λ u. not (u.handle == cleared.handle)) s.timeouts t pending kept,
              handle,
              address,
              state,
            ))
  ]

  schedule-IsArmed :
      (delay : ℕ) (move : Transition) (b : String)
      → IsArmed b s
      → IsArmed b (schedule whoami (address_of move) (status_of move) delay move s)
  schedule-IsArmed delay move b armed = elim (schedule_cases whoami s delay move) [
    | inl same ↦ subst (IsArmed b) (sym same) armed
    | inr (n, inl (e, started)) ↦
        subst (IsArmed b) (sym started) (start_timer-IsArmed delay move b s armed)
    | inr (n, inr restarted) ↦ subst (IsArmed b) (sym restarted) (
        start_timer-IsArmed delay move b (cancel (address_of move) s)
          (cancel-IsArmed (address_of move) b armed))
  ]

  -- Whatever update is handled, the pending timeouts and the entries of `timers` still agree in both
  -- directions, if they did before. Each pending timeout is the one that `timers` names for its address, so that there is at most
  -- one for an address; none is for the node itself, and each has its own handle. Each entry of `timers`
  -- has its timeout pending, with the transition out of the entry's status, if each had before.
  pub handle_update-IsArmed :
      (update : Change)
      → ((a : String) → IsArmed a s)
      → IsTimed whoami (handle_update whoami update s)
        × ((a : String) → IsArmed a (handle_update whoami update s))
  unfolding handle_update schedule_suspect_to_faulty schedule_faulty_to_tombstone
      schedule_tombstone_to_evict
  handle_update-IsArmed update armed =
      (handle_update-IsTimed whoami s v update, λ a. go a update.status)
    where
      go : (a : String) (st : Status) → IsArmed a (handle_status whoami st update s)
      go a alive = cancel-IsArmed update.address a (armed a)
      go a leave = cancel-IsArmed update.address a (armed a)
      go a suspect =
          schedule-IsArmed s.suspect_timeout
            (suspect_to_faulty update.address update.incarnation_number) a (armed a)
      go a faulty =
          schedule-IsArmed s.faulty_timeout
            (faulty_to_tombstone update.address update.incarnation_number) a (armed a)
      go a tombstone =
          schedule-IsArmed s.tombstone_timeout (tombstone_to_evict update.address) a (armed a)
      go a (unknown t) = armed a
