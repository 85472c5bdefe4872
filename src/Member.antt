-- ===== src/Member.antt =====
-- lib/membership/member.js and update.js: a member, its statuses, an update about it, and the rule
-- by which an update is accepted.
pub mod Precedence
pub mod Damping
use ringpop_node.Common.{
  ℕ, String, ◌≡◌, Bool, true, false, ◌&&◌, ◌||◌, Option, none, some, arith, ltb, if◌then◌else◌, ℤ,
  pos, negsuc, ltb_int, get_or,
}
use ringpop_node.Config.{Env}

-- `Member.Status`; an update from another node may carry any other string.
pub data Status : Type 0 where
  alive faulty leave suspect tombstone : Status
  unknown : String → Status

-- An update: the fields of `Update`, those that other code adds to it, and the optional damping
-- fields that the constructor of `Member` reads. `id` stands for the uuid, which the changes of a full sync lack.
pub record Change : Type 0 where
  pub id : Option ℕ
  pub timestamp : ℕ
  pub address : String
  pub incarnation_number : ℕ
  pub status : Status
  pub source : Option String
  pub source_incarnation_number : Option ℕ
  pub damp_score : Option ℕ
  pub damped_timestamp : Option ℕ

-- `null` and `undefined` are `none`.
pub record Member : Type 0 where
  pub address : String
  pub status : Status
  pub incarnation_number : ℕ
  pub damp_score : Option ℕ
  pub damped_timestamp : Option ℕ
  pub last_update_timestamp : Option ℕ
  pub last_update_damp_score : Option ℕ

-- The constructor `Member`.
unfoldable pub new_member : Env → Change → Member
new_member env update = record {
  address = update.address;
  status = update.status;
  incarnation_number = update.incarnation_number;
  damp_score = some score;
  damped_timestamp = update.damped_timestamp;
  last_update_timestamp = none;
  last_update_damp_score = some score;
}
  where
    score : ℕ
    score = get_or update.damp_score env.damp_scoring_initial

-- The constructor `Update`: the three fields of its subject, and its source, if there is one.
unfoldable pub new_update : ℕ → ℕ → String → ℕ → Status → Option Member → Change
new_update id now address incarnation_number status source = record {
  id = some id;
  timestamp = now;
  address = address;
  incarnation_number = incarnation_number;
  status = status;
  source = elim source [ none ↦ none | some m ↦ some m.address ];
  source_incarnation_number = elim source [ none ↦ none | some m ↦ some m.incarnation_number ];
  damp_score = none;
  damped_timestamp = none;
}

unfoldable pub is_status_pingable : Status → Bool
is_status_pingable alive = true
is_status_pingable suspect = true
is_status_pingable _ = false

unfoldable pub status_precedence : Status → ℤ
status_precedence alive = pos 0
status_precedence suspect = pos 1
status_precedence faulty = pos 2
status_precedence leave = pos 3
status_precedence tombstone = pos 4
status_precedence (unknown s) = negsuc 0

-- `status === Member.Status.tombstone`, and so on for the others.
abbrev pub is_tombstone : Status → Bool
is_tombstone tombstone = true
is_tombstone _ = false

abbrev pub is_leave : Status → Bool
is_leave leave = true
is_leave _ = false

unfoldable pub should_process_gossip : Option Member → Change → Bool
should_process_gossip none gossip = if is_tombstone gossip.status then false else true
should_process_gossip (some member) gossip =
    if ltb gossip.incarnation_number member.incarnation_number
    then false
    else if ltb member.incarnation_number gossip.incarnation_number
    then true
    else if ltb_int (status_precedence member.status) (status_precedence gossip.status)
    then true
    else false
