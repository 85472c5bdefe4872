-- ===== src/Membership/Events.antt =====
-- lib/membership/index.js and events.js: what a membership emits.
use ringpop_node.Common.{ℕ, List, Option}
use ringpop_node.Member.{Change, Status}
use ringpop_node.Member.Damping.{MemberEvent}

-- `membershipStatusCounts`. A status outside `Member.Status` adds a property that is not a number,
-- and is not counted here.
pub record Counts : Type 0 where
  pub alives : ℕ
  pub faulties : ℕ
  pub leaves : ℕ
  pub suspects : ℕ
  pub tombstones : ℕ

-- `member_event` is an event of a member, or one that a member emits on the membership.
pub data Event : Type 0 where
  checksum_computed : ℕ → Option ℕ → Event
  checksum_update : ℕ → Counts → Event
  updated : List Change → Event
  set_updates : List Change → Event
  local_member_leave : Status → Event
  member_event : MemberEvent → Event
