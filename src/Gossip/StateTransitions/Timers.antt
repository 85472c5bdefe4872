-- ===== src/Gossip/StateTransitions/Timers.antt =====
-- The timeouts that are pending and the entries of `timers` agree.
use ringpop_node.Common.{
  ℕ, ◌<◌, ◌≡◌, ◌≢◌, sym, subst, ◌⊎◌, inl, inr, String, not, none, some, lookup, lookup-insert,
  lookup-delete, ◌==◌, if◌then◌else◌, str_eq, eq_iff, arith, In, Bool-cases, Option-cases,
  In-keep_inv,
}
use ringpop_node.Member.{Change, Status, alive, faulty, leave, suspect, tombstone, unknown}
use ringpop_node.Gossip.StateTransitions.{
  Transition, suspect_to_faulty, faulty_to_tombstone, tombstone_to_evict, Timeout, Timer,
  StateTransitions, same_status, handle_status, cancel, start_timer, schedule, handle_update, fire,
  schedule_suspect_to_faulty, schedule_faulty_to_tombstone, schedule_tombstone_to_evict,
}

-- The address that a transition is about, and the status that it leaves.
abbrev pub address_of : Transition → String
address_of (suspect_to_faulty a i) = a
address_of (faulty_to_tombstone a i) = a
address_of (tombstone_to_evict a) = a

abbrev pub status_of : Transition → Status
status_of (suspect_to_faulty a i) = suspect
status_of (faulty_to_tombstone a i) = faulty
status_of (tombstone_to_evict a) = tombstone

-- Each pending timeout is the one that `timers` names for its address, no one is about the node
-- itself, and handles are handed out once.
pub record IsTimed (whoami : String) (s : StateTransitions) : Type 0 where
  pub registered :
      (t : Timeout)
      → In t s.timeouts
      → lookup (address_of t.transition) s.timers
        ≡ some (record { handle = t.handle; state = status_of t.transition })
  pub foreign : (t : Timeout) → In t s.timeouts → address_of t.transition ≢ whoami
  pub fresh : (a : String) (t : Timer) → lookup a s.timers ≡ some t → t.handle < s.next_handle
  pub separate :
      (a b : String) (t u : Timer)
      → lookup a s.timers ≡ some t
      → lookup b s.timers ≡ some u
      → t.handle ≡ u.handle
      → a ≡ b

module _ (whoami : String) (s : StateTransitions) (v : IsTimed whoami s) where
  pub cancel-IsTimed : (a : String) → IsTimed whoami (cancel a s)
  unfolding cancel
  cancel-IsTimed a = elim (Option-cases (lookup a s.timers)) [
    | inl e ↦ rw (e, cancel) v
    | inr (timer, e) ↦
        rw (e, cancel)
          (record {
            registered = λ t h.
                (let (k, q) = In-keep_inv (λ t. not (t.handle == timer.handle)) s.timeouts t h in
                  ground (
                    arith,
                    v.registered t k,
                    lookup-delete a (address_of t.transition) s.timers,
                    q,
                    e,
                    eq_iff a (address_of t.transition),
                  ));
            foreign = λ t h.
                v.foreign t (In-keep_inv (λ t. not (t.handle == timer.handle)) s.timeouts t h).0;
            fresh = λ b t h. ground (arith, h, lookup-delete a b s.timers, v.fresh b t);
            separate = λ b c t u h k q. ground (
              arith,
              h,
              k,
              lookup-delete a b s.timers,
              lookup-delete a c s.timers,
              v.separate b c t u,
              q,
            );
          })
  ]

  start_timer-IsTimed :
      (delay : ℕ) (move : Transition)
      → lookup (address_of move) s.timers ≡ none
      → address_of move ≢ whoami
      → IsTimed whoami (start_timer (address_of move) (status_of move) delay move s)
  unfolding start_timer
  start_timer-IsTimed delay move free other = record {
    registered = λ t h. elim h [
      | inl q ↦ ground (
        arith,
        q,
        lookup-insert (address_of move) (address_of move)
            (record { handle = s.next_handle; state = status_of move }) s.timers,
        eq_iff (address_of move) (address_of move),
      )
      | inr k ↦ ground (
        arith,
        v.registered t k,
        free,
        lookup-insert (address_of move) (address_of t.transition)
            (record { handle = s.next_handle; state = status_of move }) s.timers,
        eq_iff (address_of move) (address_of t.transition),
      )
    ];
    foreign = λ t h. elim h [
      | inl q ↦ subst (λ (x : Timeout). address_of x.transition ≢ whoami) (sym q) other
      | inr k ↦ v.foreign t k
    ];
    fresh = λ b t h. ground (
      arith,
      h,
      v.fresh b t,
      lookup-insert (address_of move) b (record { handle = s.next_handle; state = status_of move })
          s.timers,
    );
    separate = λ b c t u h k q. ground (
      arith,
      h,
      k,
      q,
      v.separate b c t u,
      v.fresh b t,
      v.fresh c u,
      lookup-insert (address_of move) b (record { handle = s.next_handle; state = status_of move })
          s.timers,
      lookup-insert (address_of move) c (record { handle = s.next_handle; state = status_of move })
          s.timers,
      eq_iff (address_of move) b,
      eq_iff (address_of move) c,
    );
  }

pub lookup-cancel :
    (a b : String) (s : StateTransitions)
    → lookup b (cancel a s).timers ≡ (if str_eq a b then none else lookup b s.timers)
unfolding cancel
lookup-cancel a b s = elim (Option-cases (lookup a s.timers)) [
  | inl e ↦ rw (e, cancel) (ground (arith, e, eq_iff a b))
  | inr (t, e) ↦ rw (e, cancel) (lookup-delete a b s.timers)
]

module _ (whoami : String) (s : StateTransitions) where
  -- `schedule` does nothing, starts a timer, or replaces one.
  pub schedule_cases :
      (delay : ℕ) (move : Transition)
      → (schedule whoami (address_of move) (status_of move) delay move s ≡ s)
        ⊎ ((address_of move ≢ whoami)
            × (((lookup (address_of move) s.timers ≡ none)
                  × (schedule whoami (address_of move) (status_of move) delay move s
                      ≡ start_timer (address_of move) (status_of move) delay move s))
                ⊎ (schedule whoami (address_of move) (status_of move) delay move s
                    ≡ start_timer
                        (address_of move)
                        (status_of move)
                        delay
                        move
                        (cancel (address_of move) s))))
  unfolding schedule
  schedule_cases delay move = elim (Bool-cases s.enabled) [
    | inr off ↦ inl (ground (arith, off))
    | inl on ↦ elim (Bool-cases (str_eq (address_of move) whoami)) [
      | inl own ↦ inl (ground (arith, on, own))
      | inr other ↦
          (let n : address_of move ≢ whoami =
              λ q. ground (arith, other, eq_iff (address_of move) whoami) in
            elim (Option-cases (lookup (address_of move) s.timers)) [
              | inl e ↦ inr (n, inl (e, ground (arith, on, other, e)))
              | inr (t, e) ↦ elim (Bool-cases (same_status t.state (status_of move))) [
                | inl same ↦ inl (ground (arith, on, other, e, same))
                | inr differs ↦ inr (n, inr (ground (arith, on, other, e, differs)))
              ]
            ])
    ]
  ]

module _ (whoami : String) (s : StateTransitions) (v : IsTimed whoami s) where
  schedule-IsTimed :
      (delay : ℕ) (move : Transition)
      → IsTimed whoami (schedule whoami (address_of move) (status_of move) delay move s)
  schedule-IsTimed delay move = elim (schedule_cases whoami s delay move) [
    | inl same ↦ subst (IsTimed whoami) (sym same) v
    | inr (n, inl (e, started)) ↦
        subst (IsTimed whoami) (sym started) (start_timer-IsTimed whoami s v delay move e n)
    | inr (n, inr restarted) ↦ subst (IsTimed whoami) (sym restarted) (
        start_timer-IsTimed whoami (cancel (address_of move) s)
          (cancel-IsTimed whoami s v (address_of move)) delay move
          (ground (
            arith,
            lookup-cancel (address_of move) (address_of move) s,
            eq_iff (address_of move) (address_of move),
          ))
          n)
  ]

  -- Whatever update is handled, the pending timeouts stay the ones that `timers` names: at most
  -- one for an address, none for the node itself, and each with its own handle.
  pub handle_update-IsTimed : (update : Change) → IsTimed whoami (handle_update whoami update s)
  unfolding handle_update schedule_suspect_to_faulty schedule_faulty_to_tombstone
      schedule_tombstone_to_evict
  handle_update-IsTimed update = go update.status
    where
      go : (st : Status) → IsTimed whoami (handle_status whoami st update s)
      go alive = cancel-IsTimed whoami s v update.address
      go leave = cancel-IsTimed whoami s v update.address
      go suspect =
          schedule-IsTimed s.suspect_timeout
            (suspect_to_faulty update.address update.incarnation_number)
      go faulty =
          schedule-IsTimed s.faulty_timeout
            (faulty_to_tombstone update.address update.incarnation_number)
      go tombstone = schedule-IsTimed s.tombstone_timeout (tombstone_to_evict update.address)
      go (unknown t) = v

  fire-IsTimed : (t : Timeout) → IsTimed whoami (fire t s)
  unfolding fire
  fire-IsTimed t = record {
    registered =
        λ u h. v.registered u (In-keep_inv (λ x. not (x.handle == t.handle)) s.timeouts u h).0;
    foreign = λ u h. v.foreign u (In-keep_inv (λ x. not (x.handle == t.handle)) s.timeouts u h).0;
    fresh = v.fresh;
    separate = v.separate;
  }
