-- ===== src/Gossip/Damper/Timers.antt =====
-- The invariant of the damper: who is damped is no flapper, and each timer runs exactly while its
-- collection holds someone.
use ringpop_node.Common.{
  ℕ, ◌+◌, ◌-◌, ◌*◌, ◌<◌, ◌≡◌, refl, sym, subst, String, Bool, true, false, not, ◌&&◌, List, [], ◌∷◌,
  Option, none, some, Dict, lookup, delete, keys, lookup-insert, lookup-delete, length-insert,
  length-delete-le, length_pos_of_lookup, length, ◌⊎◌, inl, inr, ◌==◌, leb, eq_iff, is_some, arith,
  Bool-cases, Option-cases,
}
use ringpop_node.Config.{Env}
use ringpop_node.Gossip.Damper.{
  Damper, new_damper, start_expiration_timer, add_damped_member, add_flapper, remove_flapper,
  on_fanout, damp_member, damp_members, expire_loop, finish_expiry, expire_damped_members,
  validate_damped_cluster_limits, has_flapper,
}

pub record IsDamping (d : Damper) : Type 0 where
  pub apart :
      (a : String) → is_some (lookup a d.flappers) && is_some (lookup a d.damped_members) ≡ false
  pub damp_timed : d.damp_timer ≡ not (length d.flappers == 0)
  pub expiration_timed : d.expiration_timer ≡ not (length d.damped_members == 0)

new_damper-IsDamping : IsDamping new_damper
unfolding new_damper lookup
new_damper-IsDamping = record { apart = λ a. refl; damp_timed = refl; expiration_timed = refl }

-- Adding an address to the flappers, damped or not, flapping or not, keeps the damper in order.
pub add_flapper-IsDamping : (a : String) (d : Damper) → IsDamping d → IsDamping (add_flapper a d).0
unfolding add_flapper
add_flapper-IsDamping a d v = elim (Bool-cases (is_some (lookup a d.damped_members))) [
  | inl damped ↦ rw (damped, add_flapper) v
  | inr free ↦ elim (Bool-cases (is_some (lookup a d.flappers))) [
    | inl flaps ↦ rw (free, flaps, add_flapper) v
    | inr new ↦
        rw (free, new, add_flapper)
          (record {
            apart =
                λ b. ground (arith, v.apart b, lookup-insert a b a d.flappers, free, eq_iff a b);
            damp_timed = ground (arith, v.damp_timed, length-insert a a d.flappers, new);
            expiration_timed = ground (arith, v.expiration_timed);
          })
  ]
]

pub remove_flapper-IsDamping :
    (a : String) (d : Damper) → IsDamping d → IsDamping (remove_flapper a d).0
unfolding remove_flapper
remove_flapper-IsDamping a d v = elim (Bool-cases (is_some (lookup a d.flappers))) [
  | inr absent ↦ rw (absent, remove_flapper) v
  | inl flaps ↦
      rw (flaps, remove_flapper)
        (record {
          apart = λ b. ground (arith, v.apart b, lookup-delete a b d.flappers, eq_iff a b);
          damp_timed = ground (arith, v.damp_timed, length-delete-le a d.flappers);
          expiration_timed = ground (arith, v.expiration_timed);
        })
]

lookup-remove_flapper : (a : String) (d : Damper) → lookup a (remove_flapper a d).0.flappers ≡ none
unfolding remove_flapper
lookup-remove_flapper a d = elim (Option-cases (lookup a d.flappers)) [
  | inl e ↦ ground (arith, e)
  | inr (x, e) ↦ ground (arith, e, lookup-delete a a d.flappers, eq_iff a a)
]

damped-IsDamping :
    (now : ℕ) (a : String) (d : Damper)
    → lookup a d.flappers ≡ none
    → IsDamping d
    → IsDamping (start_expiration_timer (add_damped_member now a d))
unfolding start_expiration_timer add_damped_member
damped-IsDamping now a d free v = record {
  apart = λ b. ground (arith, v.apart b, lookup-insert a b now d.damped_members, eq_iff a b, free);
  damp_timed = ground (arith, v.damp_timed);
  expiration_timed = elim (Option-cases (lookup a d.damped_members)) [
    | inl e ↦ ground (arith, e, v.expiration_timed, length-insert a now d.damped_members)
    | inr (x, e) ↦ ground (
      arith,
      e,
      v.expiration_timed,
      length-insert a now d.damped_members,
      length_pos_of_lookup a x d.damped_members,
    )
  ];
}

-- `dampMember` moves a flapper to the damped members, or changes nothing.
damp_member_cases :
    (env : Env) (now n : ℕ) (known : Bool) (a : String) (d : Damper)
    → ((damp_member env now n known a d).0 ≡ d)
      ⊎ ((validate_damped_cluster_limits env n d ≡ true)
          × ((damp_member env now n known a d).0
              ≡ start_expiration_timer (add_damped_member now a (remove_flapper a d).0)))
unfolding damp_member
damp_member_cases env now n known a d = elim (Bool-cases (known && has_flapper a d)) [
  | inr refused ↦ inl (ground (arith, refused))
  | inl flaps ↦ elim (Bool-cases (validate_damped_cluster_limits env n d)) [
    | inr full ↦ inl (ground (arith, flaps, full))
    | inl room ↦ inr (room, ground (arith, flaps, room))
  ]
]

-- The damped members are fewer than one more than the share of the cluster that may be damped.
abbrev pub IsOneOverAtMost : Env → ℕ → Damper → Type 0
IsOneOverAtMost env n d = length d.damped_members * 100 < env.damped_max_percentage * n + 100

remove_flapper-damped_members :
    (a : String) (d : Damper) → (remove_flapper a d).0.damped_members ≡ d.damped_members
unfolding remove_flapper
remove_flapper-damped_members a d = ground arith

damp_member-IsDamping :
    (env : Env) (now n : ℕ) (known : Bool) (a : String) (d : Damper)
    → IsDamping d
    → IsOneOverAtMost env n d
    → IsDamping (damp_member env now n known a d).0
      × IsOneOverAtMost env n (damp_member env now n known a d).0
damp_member-IsDamping env now n known a d v w = elim (damp_member_cases env now n known a d) [
  | inl e ↦ subst (λ x. IsDamping x × IsOneOverAtMost env n x) (sym e) (v, w)
  | inr (room, e) ↦
      subst (λ x. IsDamping x × IsOneOverAtMost env n x) (sym e)
        (
          damped-IsDamping now a (remove_flapper a d).0 (lookup-remove_flapper a d)
              (remove_flapper-IsDamping a d v),
          bound room,
        )
]
  where
    bound :
        validate_damped_cluster_limits env n d ≡ true
        → IsOneOverAtMost env n
            (start_expiration_timer (add_damped_member now a (remove_flapper a d).0))
    bound room =
        unfold validate_damped_cluster_limits start_expiration_timer add_damped_member in
        ground (
          arith,
          room,
          length-insert a now (remove_flapper a d).0.damped_members,
          remove_flapper-damped_members a d,
        )

damp_members-IsDamping :
    (env : Env) (now n : ℕ) (known : String → Bool) (as' : List String) (d : Damper)
    → IsDamping d
    → IsOneOverAtMost env n d
    → IsDamping (damp_members env now n known as' d).0
      × IsOneOverAtMost env n (damp_members env now n known as' d).0
unfolding damp_members
damp_members-IsDamping env now n known [] d v w = (v, w)
damp_members-IsDamping env now n known (a ∷ as') d v w =
    let (v₁, w₁) = damp_member-IsDamping env now n (known a) a d v w in
    damp_members-IsDamping env now n known as' (damp_member env now n (known a) a d).0 v₁ w₁

-- However a fan-out ends, if it was so before, who is damped is no flapper, each timer runs exactly while its
-- collection holds someone, and the damped members are fewer than one more than the configured share of the
-- members.
pub on_fanout-IsDamping :
    (env : Env) (now n : ℕ) (known : String → Bool) (outcome : Option (List String)) (d : Damper)
    → IsDamping d
    → IsOneOverAtMost env n d
    → IsDamping (on_fanout env now n known outcome d).0
      × IsOneOverAtMost env n (on_fanout env now n known outcome d).0
unfolding on_fanout
on_fanout-IsDamping env now n known none d v w = (v, w)
on_fanout-IsDamping env now n known (some []) d v w = (v, w)
on_fanout-IsDamping env now n known (some (a ∷ as')) d v w =
    damp_members-IsDamping env now n known (a ∷ as') d v w

expire_loop_keeps :
    (env : Env) (now : ℕ) (ks : List String) (ms : Dict ℕ) (b : String)
    → is_some (lookup b ms) ≡ false
    → is_some (lookup b (expire_loop env now ks ms).0) ≡ false
unfolding expire_loop
expire_loop_keeps env now [] ms b h = h
expire_loop_keeps env now (a ∷ as') ms b h = elim (Option-cases (lookup a ms)) [
  | inl e ↦ ground (arith, e, expire_loop_keeps env now as' ms b h)
  | inr (s, e) ↦ ground (
    arith,
    e,
    expire_loop_keeps env now as' ms b h,
    expire_loop_keeps env now as' (delete a ms) b (ground (arith, h, lookup-delete a b ms)),
  )
]

expire_loop_cases :
    (env : Env) (now : ℕ) (ks : List String) (ms : Dict ℕ)
    → (((expire_loop env now ks ms).1 ≡ []) × ((expire_loop env now ks ms).0 ≡ ms))
      ⊎ ((u : String × ℕ) × (us : List (String × ℕ)) × ((expire_loop env now ks ms).1 ≡ u ∷ us)
          × (0 < length ms))
unfolding expire_loop
expire_loop_cases env now [] ms = inl (refl, refl)
expire_loop_cases env now (a ∷ as') ms = elim (Option-cases (lookup a ms)) [
  | inl e ↦ rw (e, expire_loop) (expire_loop_cases env now as' ms)
  | inr (s, e) ↦ elim (Bool-cases (leb env.damp_scoring_suppress_duration (now - s))) [
    | inr early ↦ rw (e, early, expire_loop) (expire_loop_cases env now as' ms)
    | inl due ↦ inr (
      (a, now - s),
      (expire_loop env now as' (delete a ms)).1,
      ground (arith, e, due),
      length_pos_of_lookup a s ms e,
    )
  ]
]

-- Expiring damped members keeps the invariant: the expiration timer is stopped exactly if no one is
-- left.
pub expire_damped_members-IsDamping :
    (env : Env) (now : ℕ) (d : Damper) → IsDamping d → IsDamping (expire_damped_members env now d).0
unfolding expire_damped_members
expire_damped_members-IsDamping env now d v =
    elim (expire_loop_cases env now (keys d.damped_members) d.damped_members) [
      | inl (e, same) ↦ rw (e, same, expire_damped_members, finish_expiry) v
      | inr (u, us, e, pos) ↦
          rw (e, expire_damped_members, finish_expiry)
            (record {
              apart = λ b. ground (
                arith,
                v.apart b,
                expire_loop_keeps env now (keys d.damped_members) d.damped_members b,
              );
              damp_timed = ground (arith, v.damp_timed);
              expiration_timed = ground (arith, v.expiration_timed, pos);
            })
    ]
