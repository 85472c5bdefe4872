-- ===== src/Examples/Healing.antt =====
-- Tests of partition healing: the node `a:1` and targets.
use ringpop_node.Common.{ℕ, ◌≡◌, refl, true, String, List, [], ◌∷◌, Option, some, lookup, insert}
use ringpop_node.Member.{Change, alive, faulty, is_status_pingable}
use ringpop_node.Member.Precedence.{Known}
use ringpop_node.Membership.Update.{Draw}
use ringpop_node.Membership.View.{view}
use ringpop_node.Gossip.Dissemination.{membership_as_changes}
use ringpop_node.PartitionHealing.{Attempt, heal_with, index_by_address, generate_changes}
use ringpop_node.PartitionHealing.Merge.{IsMerged, heal_with_pingable}
use ringpop_node.PartitionHealing.Discovery.{DiscoverProviderHealer, new_healer}
use ringpop_node.Examples.Data.{env, change, members, members-IsConsistent}

abbrev draws : ℕ → Draw
draws i = record { random = i; id = i }

-- The target knows `b:1` as alive, later than this node.
abbrev membership_b : List Change
membership_b = change "b:1" 4 alive ∷ change "d:1" 1 faulty ∷ []

heal_with_pingable_example :
    (attempt : Attempt) × (heal_with env true 50 draws membership_b members ≡ some attempt)
    × IsMerged env 50 membership_b members attempt
    × ((a : String) (k : Known)
        → view members a ≡ some k
        → is_status_pingable k.status ≡ true
        → (k' : Known) × (view attempt.membership a ≡ some k')
          × (is_status_pingable k'.status ≡ true))
unfolding index_by_address generate_changes membership_as_changes view lookup insert
    is_status_pingable
heal_with_pingable_example =
    heal_with_pingable env 50 0 draws membership_b members members-IsConsistent refl refl

abbrev healer : DiscoverProviderHealer
healer = new_healer 2 30000

-- `c:1` answers and reaches `d:1`.
abbrev attempts : String → Option (List String)
attempts _ = some ("d:1" ∷ [])
