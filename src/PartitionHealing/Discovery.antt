-- ===== src/PartitionHealing/Discovery.antt =====
-- lib/partition_healing/discover_provider_healer.js: healing with hosts from the discover provider.
--
-- The hosts, the shuffle, whether a heal is due by chance, and the results of the attempts are arguments.
pub mod Ends
pub mod Targets
use ringpop_node.Common.{
  ℕ, zero, suc, ◌+◌, String, Bool, true, false, not, ◌&&◌, List, [], ◌∷◌, ◌++◌, Option, none, some,
  keep, length, leb, ltb, max, contains, ltb_int, if◌then◌else◌, str_eq,
}
use ringpop_node.Config.{Env}
use ringpop_node.Member.{Member, Status, faulty, status_precedence}
use ringpop_node.Membership.State.{Membership, find_member_by_address, member_list, is_pingable}

-- A timer is there or not.
pub record DiscoverProviderHealer : Type 0 where
  pub max_number_of_failures : ℕ
  pub heal_period : ℕ
  pub previous_host_list_size : ℕ
  pub heal_timer : Bool
  pub is_stopped : Bool

unfoldable pub new_healer : ℕ → ℕ → DiscoverProviderHealer
new_healer max_number_of_failures heal_period = record {
  max_number_of_failures = max_number_of_failures;
  heal_period = heal_period;
  previous_host_list_size = 0;
  heal_timer = false;
  is_stopped = true;
}

-- `_run`: whether a heal starts, which schedules the next run when it is done, or the healer with the next
-- run scheduled. `by_chance` is the test of `Math.random()`.
unfoldable pub run : Bool → DiscoverProviderHealer → DiscoverProviderHealer × Bool
run by_chance h =
    if h.is_stopped
    then (h, false)
    else if h.heal_timer && by_chance
    then (h, true)
    else (record h { heal_timer = true }, false)

-- `scheduleNext`.
unfoldable pub schedule_next : DiscoverProviderHealer → DiscoverProviderHealer
schedule_next h = record h { heal_timer = true }

unfoldable pub start : DiscoverProviderHealer → DiscoverProviderHealer × Bool
unfolding run
start h = if h.heal_timer then (h, false) else run false (record h { is_stopped = false })

unfoldable pub stop : DiscoverProviderHealer → DiscoverProviderHealer
stop h = record h { is_stopped = true; heal_timer = false }

-- The divisor of the probability.
unfoldable pub probability_divisor : Env → Membership → DiscoverProviderHealer → ℕ
probability_divisor env m h =
    max 1 (max (length (keep (is_pingable env) (member_list m))) h.previous_host_list_size)

unfoldable pub is_faulty_or_above : Status → Bool
is_faulty_or_above status = not (ltb_int (status_precedence status) (status_precedence faulty))

abbrev pub is_lost : Option Member → Bool
is_lost none = true
is_lost (some member) = is_faulty_or_above member.status

unfoldable pub is_host_a_valid_target : Env → Membership → String → Bool
unfolding is_faulty_or_above
is_host_a_valid_target env m host =
    if str_eq host env.whoami then false else is_lost (find_member_by_address m host)

-- `_getTargets`, with underscore's shuffle.
unfoldable pub get_targets :
    (List String → List String) → Env → Membership → List String → List String
unfolding is_host_a_valid_target
get_targets shuffle env m hosts = shuffle (keep (is_host_a_valid_target env m) hosts)

-- `_.difference`.
unfoldable pub difference : List String → List String → List String
difference xs ys = keep (λ x. not (contains x ys)) xs

-- What the loop of `heal` holds; the potential targets are in the order in which `pop` takes them.
pub record Healing : Type 0 where
  pub potential_targets : List String
  pub targets : List String
  pub number_of_failures : ℕ
  pub attempted : List String

unfoldable pub after_attempt : String → List String → Option (List String) → Healing → Healing
unfolding difference
after_attempt target rest none h = record h {
  potential_targets = rest;
  number_of_failures = suc h.number_of_failures;
  attempted = target ∷ h.attempted;
}
after_attempt target rest (some reachable_nodes) h = record h {
  potential_targets = difference rest reachable_nodes;
  targets = h.targets ++ target ∷ [];
  attempted = target ∷ h.attempted;
}

-- `healNext` and `healTarget`, for so many rounds: `attempt` is the result of an attempt at a target, the
-- reachable nodes or an error. `attempted` is kept for the theorems.
unfoldable pub heal_next : ℕ → (String → Option (List String)) → ℕ → Healing → Option Healing
unfolding after_attempt
heal_next max_failures attempt zero h = none
heal_next max_failures attempt (suc fuel) h = elim h.potential_targets [
  | [] ↦ some h
  | target ∷ rest ↦ elim (ltb h.number_of_failures max_failures) [
    | false ↦ some h
    | true ↦ heal_next max_failures attempt fuel (after_attempt target rest (attempt target) h)
  ]
]

pub data HealError : Type 0 where
  ringpop_is_not_ready : HealError
  discover_provider_not_available : HealError
  discovery_failed : HealError

pub data HealResult : Type 0 where
  failed : HealError → HealResult
  healed : Healing → HealResult

-- `onHostsDiscovered`, from the hosts on.
unfoldable pub heal_hosts :
    (List String → List String)
    → Env
    → Membership
    → (String → Option (List String))
    → List String
    → DiscoverProviderHealer
    → Option (DiscoverProviderHealer × HealResult)
unfolding get_targets heal_next
heal_hosts shuffle env m attempt hosts h =
    let targets = get_targets shuffle env m hosts in
    elim (heal_next h.max_number_of_failures attempt (suc (length targets)) (record {
      potential_targets = targets;
      targets = [];
      number_of_failures = 0;
      attempted = [];
    })) [
      | none ↦ none
      | some healing ↦ some (record h { previous_host_list_size = length hosts }, healed healing)
    ]

-- `heal`: the provider is absent, fails or gives hosts.
unfoldable pub heal :
    (List String → List String)
    → Env
    → Bool
    → Membership
    → (String → Option (List String))
    → Option (Option (List String))
    → DiscoverProviderHealer
    → Option (DiscoverProviderHealer × HealResult)
unfolding heal_hosts
heal shuffle env is_ready m attempt provider h =
    if not is_ready then some (h, failed ringpop_is_not_ready) else elim provider [
      | none ↦ some (h, failed discover_provider_not_available)
      | some none ↦ some (h, failed discovery_failed)
      | some (some hosts) ↦ heal_hosts shuffle env m attempt hosts h
    ]
