-- ===== src/Gossip/Damper.antt =====
-- lib/gossip/damper.js: flapping members are collected, their damp scores asked of other members,
-- and those that enough members find flapping are damped for a time. A timer is `true` while it
-- is scheduled. `null` results of timers and log lines are left out.
pub mod Fanout
pub mod Scores
pub mod Timers
use ringpop_node.Common.{
  ℕ, suc, ◌+◌, ◌-◌, ◌*◌, ◌≡◌, String, Bool, true, false, not, ◌&&◌, List, [], ◌∷◌, ◌++◌, Option,
  none, some, Dict, lookup, insert, delete, keys, length, ◌==◌, ltb, leb, if◌then◌else◌, is_some,
  min,
}
use ringpop_node.Config.{Env}

pub record Damper : Type 0 where
  pub flappers : Dict String
  pub damped_members : Dict ℕ
  pub damp_timer : Bool
  pub expiration_timer : Bool

-- What the damper emits.
pub data DamperEvent : Type 0 where
  damped_limit_exceeded : DamperEvent
  damped_member_expiration : List (String × ℕ) → DamperEvent
  damper_started damp_req_unsatisfied damp_req_failed damping_inconclusive damped : DamperEvent

unfoldable pub new_damper : Damper
new_damper = record {
  flappers = [];
  damped_members = [];
  damp_timer = false;
  expiration_timer = false;
}

unfoldable pub get_flapper_addrs : Damper → List String
get_flapper_addrs d = keys d.flappers

unfoldable pub get_flapper_count : Damper → ℕ
get_flapper_count d = length d.flappers

unfoldable pub has_flapper : String → Damper → Bool
has_flapper address d = is_some (lookup address d.flappers)

unfoldable pub is_damped : String → Damper → Bool
is_damped address d = is_some (lookup address d.damped_members)

-- `_startDampTimer`, `_stopDampTimer`, `_startExpirationTimer` and `_stopExpirationTimer`.
unfoldable pub start_damp_timer : Damper → Damper
start_damp_timer d = if d.damp_timer then d else record d { damp_timer = true }

unfoldable pub stop_damp_timer : Damper → Damper
stop_damp_timer d = if d.damp_timer then record d { damp_timer = false } else d

unfoldable pub start_expiration_timer : Damper → Damper
start_expiration_timer d = if d.expiration_timer then d else record d { expiration_timer = true }

unfoldable pub stop_expiration_timer : Damper → Damper
stop_expiration_timer d = if d.expiration_timer then record d { expiration_timer = false } else d

unfoldable pub destroy : Damper → Damper
unfolding stop_damp_timer stop_expiration_timer
destroy d = stop_expiration_timer (stop_damp_timer d)

unfoldable pub add_damped_member : ℕ → String → Damper → Damper
add_damped_member now address d = record d { damped_members = insert address now d.damped_members }

unfoldable pub add_flapper : String → Damper → Damper × Bool
unfolding start_damp_timer
add_flapper address d =
    if is_some (lookup address d.damped_members)
    then (d, false)
    else if is_some (lookup address d.flappers)
    then (d, false)
    else (let added = record d { flappers = insert address address d.flappers } in
        ((if length added.flappers == 1 then start_damp_timer added else added), true))

unfoldable pub remove_flapper : String → Damper → Damper × Bool
unfolding stop_damp_timer
remove_flapper address d =
    if is_some (lookup address d.flappers)
    then (let removed = record d { flappers = delete address d.flappers } in
        ((if length removed.flappers == 0 then stop_damp_timer removed else removed), true))
    else (d, false)

-- `_validateDampedClusterLimits`: `dampedCount * 100 / memberCount < dampedMax`; a division by no
-- members is never below the limit.
unfoldable pub validate_damped_cluster_limits : Env → ℕ → Damper → Bool
validate_damped_cluster_limits env member_count d =
    if member_count == 0
    then false
    else ltb (length d.damped_members * 100) (env.damped_max_percentage * member_count)

-- `dampMember`, with `known` for what `findMemberByAddress` returns and the number of members. The
-- result is `none` where the function returns `undefined`. (`makeDamped` only counts and logs.)
unfoldable pub damp_member :
    Env → ℕ → ℕ → Bool → String → Damper → Damper × Option Bool × List DamperEvent
unfolding has_flapper validate_damped_cluster_limits add_damped_member start_expiration_timer
damp_member env now member_count known address d =
    if not known
    then (d, some false, [])
    else if not (has_flapper address d)
    then (d, some false, [])
    else if not (validate_damped_cluster_limits env member_count d)
    then (d, none, damped_limit_exceeded ∷ [])
    else (
      start_expiration_timer (add_damped_member now address (remove_flapper address d).0),
      some true,
      [],
    )

-- The loop of `expireDampedMembers` over the keys; `-` stands where the clock may not run backwards.
unfoldable pub expire_loop : Env → ℕ → List String → Dict ℕ → Dict ℕ × List (String × ℕ)
expire_loop env now [] ms = (ms, [])
expire_loop env now (a ∷ as') ms = elim (lookup a ms) [
  | none ↦ expire_loop env now as' ms
  | some timestamp ↦ elim (leb env.damp_scoring_suppress_duration (now - timestamp)) [
    | false ↦ expire_loop env now as' ms
    | true ↦
        (let (left, undamped) = expire_loop env now as' (delete a ms) in
          (left, (a, now - timestamp) ∷ undamped))
  ]
]

unfoldable pub finish_expiry :
    Damper → List (String × ℕ) → Damper × List (String × ℕ) × List DamperEvent
finish_expiry d [] = (d, [], [])
finish_expiry d (u ∷ us) = (
  (if length d.damped_members == 0 then stop_expiration_timer d else d),
  u ∷ us,
  damped_member_expiration (u ∷ us) ∷ [],
)

unfoldable pub expire_damped_members :
    Env → ℕ → Damper → Damper × List (String × ℕ) × List DamperEvent
unfolding finish_expiry expire_loop stop_expiration_timer
expire_damped_members env now d =
    let (left, undamped) = expire_loop env now (keys d.damped_members) d.damped_members in
    finish_expiry (record d { damped_members = left }) undamped

-- `initiateSubprotocol` up to the fan-out: `none` if it calls back at once, or the addresses to
-- ask about and the number of responses wanted of the selected members.
unfoldable pub initiate_subprotocol :
    Env → ℕ → ℕ → Damper → Option (List String × ℕ) × List DamperEvent
unfolding validate_damped_cluster_limits get_flapper_addrs
initiate_subprotocol env member_count selected d =
    if not (validate_damped_cluster_limits env member_count d)
    then (none, damped_limit_exceeded ∷ [])
    else (let r_val = min env.damp_req_r_val selected in
        if r_val == 0
        then (none, damper_started ∷ damp_req_unsatisfied ∷ [])
        else (some (get_flapper_addrs d, r_val), damper_started ∷ []))

-- The loop of `onFanout` over the members to damp.
unfoldable pub damp_members :
    Env → ℕ → ℕ → (String → Bool) → List String → Damper → Damper × List DamperEvent
damp_members env now member_count known [] d = (d, [])
damp_members env now member_count known (a ∷ as') d =
    let (d₁, r, events) = damp_member env now member_count (known a) a d in
    let (d₂, events') = damp_members env now member_count known as' d₁ in (d₂, events ++ events')

-- `onFanout`, with `getMembersToDamp` of the responses, or `none` for an error.
unfoldable pub on_fanout :
    Env → ℕ → ℕ → (String → Bool) → Option (List String) → Damper → Damper × List DamperEvent
unfolding damp_members
on_fanout env now member_count known none d = (d, damp_req_failed ∷ [])
on_fanout env now member_count known (some []) d = (d, damping_inconclusive ∷ [])
on_fanout env now member_count known (some (a ∷ as')) d =
    let (d', events) = damp_members env now member_count known (a ∷ as') d in
    (d', events ++ damped ∷ [])
