-- ===== src/PartitionHealing/Discovery/Ends.antt =====
-- The loop of `heal` ends, and what it has then done.
use ringpop_node.Common.{ℕ, ◌≤◌, ◌≡◌, ◌⊎◌, String, List, [], Option, some, In, Distinct}
use ringpop_node.PartitionHealing.Discovery.Targets.{IsTarget}
use ringpop_node.Config.{Env}
use ringpop_node.Membership.State.{Membership}
use ringpop_node.PartitionHealing.Discovery.{Healing}

module _ (max_failures : ℕ) (attempt : String → Option (List String)) (all : List String) where
  -- A target that need not be tried any more: it was, or one that was tried can reach it.
  abbrev pub IsDone : String → List String → Type 0
  IsDone t attempted =
      In t attempted
      ⊎ ((s : String) × (nodes : List String) × In s attempted
          × (attempt s ≡ some nodes)
          × In t nodes)

  -- What holds between the rounds.
  pub record IsHealing (h : Healing) : Type 0 where
    pub covered : (t : String) → In t all → IsDone t h.attempted ⊎ In t h.potential_targets
    pub distinct : Distinct h.potential_targets
    pub once : Distinct h.attempted
    pub apart : (t : String) → In t h.attempted → ¬ In t h.potential_targets
    pub from : (t : String) → In t h.attempted ⊎ In t h.potential_targets → In t all
    pub few : h.number_of_failures ≤ max_failures

  -- The loop returns: nothing is left to try, or the failures are as many as are allowed.
  abbrev pub HasEnded : Healing → Type 0
  HasEnded h = IsHealing h × ((h.potential_targets ≡ []) ⊎ (h.number_of_failures ≡ max_failures))

-- The end of a heal with these hosts.
pub record HasHealed (env : Env) (m : Membership) (attempt : String → Option (List String))
    (hosts : List String) (max_failures : ℕ) (healing : Healing) : Type 0 where
  pub tried : (t : String) → In t healing.attempted → In t hosts × IsTarget env m t
  pub once : Distinct healing.attempted
  pub covered :
      (t : String)
      → In t hosts
      → IsTarget env m t
      → In t healing.attempted
        ⊎ (((s : String) × (nodes : List String) × In s healing.attempted
              × (attempt s ≡ some nodes)
              × In t nodes)
            ⊎ In t healing.potential_targets)
  pub ended : (healing.potential_targets ≡ []) ⊎ (healing.number_of_failures ≡ max_failures)
