-- ===== src/Membership/State.antt =====
-- lib/membership/index.js: the fields of `Membership` and its queries. The array `members`, the
-- index `membersByAddress` and `localMember` hold the same objects, so members live on a heap and
-- these three hold references.
use ringpop_node.Common.{
  ℕ, ◌*◌, ◌/◌, ◌^◌, String, Bool, not, ◌&&◌, List, [], ◌∷◌, map, Option, none, some, length,
  get_elem?, keep, Dict, lookup, ◌==◌, if◌then◌else◌, str_eq, is_some, contains,
}
use ringpop_node.Config.{Env}
use ringpop_node.Member.{Member, Change, is_status_pingable}

pub record Membership : Type 0 where
  pub heap : ℕ → Member
  pub next : ℕ
  pub members : List ℕ
  pub members_by_address : Dict ℕ
  pub checksum : Option ℕ
  pub stashed_updates : Option (List (List Change))
  pub local_member : Option ℕ

-- The heap with another object at a reference.
abbrev pub write : (ℕ → Member) → ℕ → Member → ℕ → Member
write heap r m q = if q == r then m else heap q

-- The constructor `Membership`; `blank` fills the heap where there is no object yet.
unfoldable pub init : Member → Membership
init blank = record {
  heap = λ _. blank;
  next = 0;
  members = [];
  members_by_address = [];
  checksum = none;
  stashed_updates = some [];
  local_member = none;
}

-- `members`, with the references followed.
abbrev pub member_list : Membership → List Member
member_list m = map m.heap m.members

abbrev deref : Membership → Option ℕ → Option Member
deref m none = none
deref m (some r) = some (m.heap r)

unfoldable pub find_member_by_address : Membership → String → Option Member
find_member_by_address m address = deref m (lookup address m.members_by_address)

unfoldable pub has_member : Membership → String → Bool
unfolding find_member_by_address
has_member m address = is_some (find_member_by_address m address)

unfoldable pub get_incarnation_number : Membership → Option ℕ
get_incarnation_number m = elim m.local_member [
  | none ↦ none
  | some r ↦ some (m.heap r).incarnation_number
]

unfoldable pub get_member_count : Membership → ℕ
get_member_count m = length m.members

unfoldable pub get_member_at : Membership → ℕ → Option Member
get_member_at m index = deref m (get_elem? m.members index)

-- `Math.floor(Math.random() * length)`, where `Math.random()` is `random / 2 ^ 53`.
unfoldable pub get_join_position : ℕ → Membership → ℕ
get_join_position random m = random * length m.members / 2 ^ 53

unfoldable pub is_pingable : Env → Member → Bool
is_pingable env m = not (str_eq m.address env.whoami) && is_status_pingable m.status

-- The members that `getRandomPingableMembers` draws from; underscore's `sample` picks of them.
unfoldable pub pingable_members : Env → List String → Membership → List Member
unfolding is_pingable contains
pingable_members env excluding m =
    keep (is_pingable env) (keep (λ x. not (contains x.address excluding)) (member_list m))

-- `sample` stands for underscore's.
unfoldable pub get_random_pingable_members :
    (List Member → ℕ → List Member) → Env → ℕ → List String → Membership → List Member
get_random_pingable_members sample env n excluding m = sample (pingable_members env excluding m) n

-- `collectDampScores`: the known addresses of a list with their scores.
unfoldable pub collect_damp_scores : Membership → List String → List (String × Option ℕ)
unfolding find_member_by_address
collect_damp_scores m [] = []
collect_damp_scores m (a ∷ as') =
    let rest = collect_damp_scores m as' in
    elim (find_member_by_address m a) [ none ↦ rest | some x ↦ (x.address, x.damp_score) ∷ rest ]
