-- ===== src/Membership/Merge.antt =====
-- lib/membership/merge.js and lib/gossip/join-response-merge.js: several lists of changes become
-- one, with one change for an address.
pub mod Newest
use ringpop_node.Common.{
  ℕ, ◌≡◌, String, Bool, true, false, not, ◌&&◌, ◌||◌, List, [], ◌∷◌, ◌++◌, map, Option, none, some,
  length, Dict, lookup, insert, values, if◌then◌else◌, str_eq, ltb, ◌==◌,
}
use ringpop_node.Member.{Change}

-- One round of the inner loop.
unfoldable pub merge_change : String → Change → Dict Change → Dict Change
merge_change whoami change index =
    if str_eq change.address whoami then index else elim (lookup change.address index) [
      | none ↦ insert change.address change index
      | some old ↦
          if ltb old.incarnation_number change.incarnation_number
          then insert change.address change index
          else index
    ]

unfoldable pub merge_changes : String → List Change → Dict Change → Dict Change
merge_changes whoami [] index = index
merge_changes whoami (c ∷ cs) index = merge_changes whoami cs (merge_change whoami c index)

unfoldable pub merge_changesets : String → List (List Change) → Dict Change → Dict Change
merge_changesets whoami [] index = index
merge_changesets whoami (cs ∷ css) index =
    merge_changesets whoami css (merge_changes whoami cs index)

unfoldable pub merge_membership_changesets : String → List (List Change) → List Change
unfolding merge_changesets values
merge_membership_changesets whoami changesets = values (merge_changesets whoami changesets [])

-- A response to a join, with its checksum if there is one (0 is as good as none).
pub record JoinResponse : Type 0 where
  pub checksum : Option ℕ
  pub members : List Change

-- `lastChecksum` starts as -1, which is no checksum.
same_from : Option ℕ → List JoinResponse → Bool
same_from last [] = true
same_from last (r ∷ rs) = elim r.checksum [
  | none ↦ false
  | some c ↦
      let rest = same_from (some c) rs in
      if c == 0
      then false
      else elim last [ none ↦ rest | some l ↦ (if l == c then rest else false) ]
]

unfoldable pub has_same_checksums : List JoinResponse → Bool
unfolding same_from
has_same_checksums rs = same_from none rs

join_members : List JoinResponse → List (List Change)
join_members rs = map (λ r. r.members) rs

unfoldable pub merge_join_responses : String → List JoinResponse → List Change
unfolding join_members
merge_join_responses whoami [] = []
merge_join_responses whoami (r ∷ rs) =
    if has_same_checksums (r ∷ rs)
    then r.members
    else merge_membership_changesets whoami (join_members (r ∷ rs))
