-- ===== src/Member/Damping.antt =====
-- lib/membership/member.js: how an update is applied to a member, and its damp score. The events
-- that the methods emit are returned in their order; one call reads the clock once, as `now`.
use ringpop_node.Common.{
  ℕ, ◌+◌, ◌≤◌, ◌≡◌, String, not, ◌&&◌, List, [], ◌∷◌, ◌++◌, Option, none, some, arith, ltb, leb,
  min, max, if◌then◌else◌, str_eq, get_or, ◌⊎◌,
}
use ringpop_node.Config.{Env, Decays}
use ringpop_node.Member.{Member, Change, new_member}

-- What a member emits, itself or through the membership.
pub data MemberEvent : Type 0 where
  member_reusable : String → ℕ → MemberEvent
  member_suppress_limit_exceeded : String → MemberEvent
  damp_score_decayed : ℕ → ℕ → MemberEvent
  member_updated : Change → MemberEvent

-- The score that `decayDampScore` computes.
unfoldable pub decayed_score : Env → ℕ → Member → ℕ
decayed_score env now m =
    max
      (env.round_decayed (get_or m.last_update_damp_score 0) now (get_or m.last_update_timestamp 0)
        env.damp_scoring_half_life)
      env.damp_scoring_min

decay_from : Env → ℕ → Member → ℕ → Member × List MemberEvent
decay_from env now m old =
    let score = decayed_score env now m in
    (
      record m { damp_score = some score },
      (if ltb env.damp_scoring_reuse_limit old && leb score env.damp_scoring_reuse_limit
            then member_reusable m.address old ∷ []
            else [])
          ++ damp_score_decayed score old ∷ [],
    )

unfoldable pub decay_damp_score : Env → ℕ → Member → Member × List MemberEvent
unfolding decay_from decayed_score
decay_damp_score env now m = elim m.damp_score [
  | none ↦ (record m { damp_score = some env.damp_scoring_initial }, [])
  | some old ↦ decay_from env now m old
]

-- After the decay there is a score, so that `this.dampScore + penalty` adds numbers.
unfoldable pub apply_update_penalty : Env → ℕ → Member → Member × List MemberEvent
unfolding decay_damp_score
apply_update_penalty env now m =
    let (decayed, events) = decay_damp_score env now m in
    let old : ℕ = get_or decayed.damp_score 0 in
    let score : ℕ = min (old + env.damp_scoring_penalty) env.damp_scoring_max in
    (
      record decayed { damp_score = some score },
      events
          ++ (if ltb old env.damp_scoring_suppress_limit
                && leb env.damp_scoring_suppress_limit score
              then member_suppress_limit_exceeded m.address ∷ []
              else []),
    )

penalize : Env → ℕ → String → Member → Member × List MemberEvent
penalize env now address m =
    if env.damp_scoring_enabled && not (str_eq address env.whoami)
    then (let (m', events) = apply_update_penalty env now m in
        (record m' { last_update_damp_score = m'.damp_score }, events))
    else (m, [])

unfoldable pub apply_update : Env → ℕ → Change → Member → Member × List MemberEvent
unfolding penalize
apply_update env now update m =
    let m₁ = record m { status = update.status; incarnation_number = update.incarnation_number } in
    let (m₂, events) = penalize env now update.address m₁ in
    (record m₂ { last_update_timestamp = some now }, events ++ member_updated update ∷ [])

-- Applying an update sets the status and the incarnation number to the update's, and keeps the
-- address.
pub apply_update_claim :
    (env : Env) (now : ℕ) (update : Change) (m : Member)
    → ((apply_update env now update m).0.address ≡ m.address)
      × ((apply_update env now update m).0.status ≡ update.status)
      × ((apply_update env now update m).0.incarnation_number ≡ update.incarnation_number)
unfolding apply_update apply_update_penalty
apply_update_claim env now update m = ground arith

pub decay_damp_score-address :
    (env : Env) (now : ℕ) (m : Member)
    → ((decay_damp_score env now m).0.address ≡ m.address)
      × ((decay_damp_score env now m).0.status ≡ m.status)
      × ((decay_damp_score env now m).0.incarnation_number ≡ m.incarnation_number)
unfolding decay_damp_score
decay_damp_score-address env now m = ground arith

-- There is a score, in the range of the configuration.
abbrev pub InRange : Env → Option ℕ → Type 0
InRange env none = ⊥
InRange env (some s) = (env.damp_scoring_min ≤ s) × (s ≤ env.damp_scoring_max)

-- What the damping keeps true of a member: both scores lie in the range of the configuration.
pub record IsScored (env : Env) (m : Member) : Type 0 where
  pub current : InRange env m.damp_score
  pub last : InRange env m.last_update_damp_score

-- The range of the configuration is not empty and the initial score lies in it (config.js asks
-- for this in a TODO and does not check it).
pub record IsConfigured (env : Env) : Type 0 where
  pub ordered : env.damp_scoring_min ≤ env.damp_scoring_max
  pub initial_min : env.damp_scoring_min ≤ env.damp_scoring_initial
  pub initial_max : env.damp_scoring_initial ≤ env.damp_scoring_max

module _ (env : Env) (decays : Decays env) (configured : IsConfigured env) (now : ℕ) where
  decayed_score_range :
      (m : Member)
      → get_or m.last_update_timestamp 0 ≤ now
      → IsScored env m
      → (env.damp_scoring_min ≤ decayed_score env now m)
        × (decayed_score env now m ≤ env.damp_scoring_max)
  unfolding decayed_score
  decayed_score_range m h s = ground (
    arith,
    decays (get_or m.last_update_damp_score 0) now (get_or m.last_update_timestamp 0)
        env.damp_scoring_half_life h,
  )

  decay_damp_score-IsScored :
      (m : Member)
      → get_or m.last_update_timestamp 0 ≤ now
      → IsScored env m
      → IsScored env (decay_damp_score env now m).0
  unfolding decay_damp_score
  decay_damp_score-IsScored m h s = ground (arith, decayed_score_range m h s)

  -- If the clock does not run backwards and the configured range holds the initial score, decaying
  -- a member and applying any update to it keep its scores within the configured minimum and
  -- maximum.
  pub apply_update-IsScored :
      (update : Change) (m : Member)
      → get_or m.last_update_timestamp 0 ≤ now
      → IsScored env m
      → IsScored env (decay_damp_score env now m).0 × IsScored env (apply_update env now update m).0
  unfolding apply_update apply_update_penalty
  apply_update-IsScored update m h s = (
    decay_damp_score-IsScored m h s,
    ground (
      arith,
      decay_damp_score-IsScored
          (record m { status = update.status; incarnation_number = update.incarnation_number }) h
          (record { current = s.current; last = s.last }),
    ),
  )

  -- A new member has such scores too, if the update carries none or one in the range.
  pub new_member-IsScored :
      (update : Change)
      → (update.damp_score ≡ none) ⊎ InRange env update.damp_score
      → IsScored env (new_member env update)
  unfolding new_member
  new_member-IsScored update h = ground arith
