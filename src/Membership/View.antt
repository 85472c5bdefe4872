-- ===== src/Membership/View.antt =====
-- The abstract member list: what a node knows of each address, as a function, and the rule by
-- which a change moves it. The heap, the order of members, damping and events are forgotten.
use ringpop_node.Common.{
  ℕ, String, Bool, not, ◌&&◌, List, [], ◌∷◌, Option, none, some, lookup, if◌then◌else◌, str_eq,
}
use ringpop_node.Member.{Change, is_tombstone}
use ringpop_node.Member.Precedence.{Known, older, known_of, claim_of}
use ringpop_node.Membership.State.{Membership}

abbrev pub View : Type 0
View = String → Option Known

known_at : Membership → Option ℕ → Option Known
known_at m none = none
known_at m (some r) = some (known_of (m.heap r))

unfoldable pub view : Membership → View
unfolding known_at
view m a = known_at m (lookup a m.members_by_address)

-- A claim is accepted if it is newer, or about an unknown address and no tombstone.
unfoldable pub accepts : Option Known → Known → Bool
accepts none claim = not (is_tombstone claim.status)
accepts (some known) claim = older known claim

-- The local node keeps its status and takes the time as its incarnation number.
unfoldable pub refute : ℕ → Option Known → Option Known
refute now none = none
refute now (some known) = some (record known { incarnation_number = now })

unfoldable pub apply_claim : String → ℕ → Change → View → View
unfolding refute
apply_claim whoami now c v a =
    if accepts (v c.address) (claim_of c) && str_eq c.address a
    then (if str_eq a whoami then refute now (v a) else some (claim_of c))
    else v a

unfoldable pub apply_claims : String → ℕ → List Change → View → View
apply_claims whoami now [] v = v
apply_claims whoami now (c ∷ cs) v = apply_claims whoami now cs (apply_claim whoami now c v)
