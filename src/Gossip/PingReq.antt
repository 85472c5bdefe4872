-- ===== src/Gossip/PingReq.antt =====
-- lib/gossip/ping-req-sender.js: asking other members to ping a member that did not answer.
--
-- The answers arrive one after another, each with the time and what its updates draw.
pub mod Answers
pub mod Decides
use ringpop_node.Common.{
  ℕ, suc, String, Bool, true, false, ◌||◌, List, [], ◌∷◌, ◌++◌, Option, none, some, length, ltb,
  if◌then◌else◌, is_some,
}
use ringpop_node.Config.{Env}
use ringpop_node.Member.{Change, Member}
use ringpop_node.Membership.Events.{Event}
use ringpop_node.Membership.State.{Membership, get_random_pingable_members}
use ringpop_node.Membership.Update.{Draw, update}
use ringpop_node.Membership.Local.{make_suspect}

pub data PingReqError : Type 0 where
  ping_req_ping : PingReqError
  bad_ping_req_resp_body : PingReqError
  bad_ping_req_ping_status : PingReqError

-- What the request gives: an error, or a body with the changes, if it has any, and the status.
pub data PingReqAnswer : Type 0 where
  request_failed : PingReqAnswer
  responded : Option (List Change) → Bool → PingReqAnswer

pub record Arrival : Type 0 where
  pub member : String
  pub answer : PingReqAnswer
  pub now : ℕ
  pub id : ℕ
  pub draws : ℕ → Draw
  pub suspect_draws : ℕ → Draw

-- What `sendPingReqs` calls back with.
pub data Verdict : Type 0 where
  alone : Verdict
  reachable : String → Verdict
  unreachable : List PingReqError → Verdict
  ping_req_inconclusive : Verdict

-- `verdict` is there once it has called back.
pub record PingReqs : Type 0 where
  pub membership : Membership
  pub events : List Event
  pub errors : List PingReqError
  pub verdict : Option Verdict

abbrev pub error_of : PingReqAnswer → Option PingReqError
error_of request_failed = some ping_req_ping
error_of (responded none ping_status) = some bad_ping_req_resp_body
error_of (responded (some changes) true) = none
error_of (responded (some changes) false) = some bad_ping_req_ping_status

-- The changes that `PingReqSender.onPingReq` applies.
abbrev pub changes_of : PingReqAnswer → List Change
changes_of request_failed = []
changes_of (responded none ping_status) = []
changes_of (responded (some changes) ping_status) = changes

abbrev pub is_status_error : PingReqError → Bool
is_status_error ping_req_ping = false
is_status_error bad_ping_req_resp_body = false
is_status_error bad_ping_req_ping_status = true

abbrev pub any_status_error : List PingReqError → Bool
any_status_error [] = false
any_status_error (e ∷ es) = is_status_error e || any_status_error es

-- The member that was asked about.
pub record Target : Type 0 where
  pub address : String
  pub incarnation_number : ℕ

unfoldable pub apply_to :
    Option (Membership × List Change × List Event) → PingReqs → Option PingReqs
apply_to none s = none
apply_to (some (m, changes, events)) s =
    some (record s { membership = m; events = s.events ++ events })

-- All members have answered with errors.
unfoldable pub conclude : Env → Bool → Target → Arrival → PingReqs → Option PingReqs
unfolding apply_to
conclude env is_ready target arrival s =
    if any_status_error s.errors
    then apply_to
        (make_suspect env is_ready arrival.id arrival.now arrival.suspect_draws target.address
          target.incarnation_number s.membership)
        (record s { verdict = some (unreachable s.errors) })
    else some (record s { verdict = some ping_req_inconclusive })

-- An answer before the verdict, where `size` members were asked.
unfoldable pub count_answer : Env → Bool → Target → ℕ → Arrival → PingReqs → Option PingReqs
unfolding conclude
count_answer env is_ready target size arrival s = elim (error_of arrival.answer) [
  | none ↦ some (record s { verdict = some (reachable arrival.member) })
  | some e ↦
      if ltb (length (s.errors ++ e ∷ [])) size
      then some (record s { errors = s.errors ++ e ∷ [] })
      else conclude env is_ready target arrival (record s { errors = s.errors ++ e ∷ [] })
]

-- `onPingReqHandler`.
unfoldable pub handle_answer : Env → Bool → Target → ℕ → Arrival → PingReqs → Option PingReqs
unfolding count_answer
handle_answer env is_ready target size arrival s = elim s.verdict [
  | some verdict ↦ some s
  | none ↦ count_answer env is_ready target size arrival s
]

-- `PingReqSender.onPingReq`: the changes of the answer are applied also after a verdict.
unfoldable pub on_ping_req : Env → Bool → Target → ℕ → Arrival → PingReqs → Option PingReqs
unfolding apply_to handle_answer
on_ping_req env is_ready target size arrival s =
    elim (apply_to
      (update env is_ready arrival.now arrival.draws (changes_of arrival.answer) s.membership) s) [
        | none ↦ none
        | some s' ↦ handle_answer env is_ready target size arrival s'
      ]

unfoldable pub on_ping_reqs : Env → Bool → Target → ℕ → List Arrival → PingReqs → Option PingReqs
unfolding on_ping_req
on_ping_reqs env is_ready target size [] s = some s
on_ping_reqs env is_ready target size (arrival ∷ arrivals) s =
    elim (on_ping_req env is_ready target size arrival s) [
      | none ↦ none
      | some s' ↦ on_ping_reqs env is_ready target size arrivals s'
    ]

-- With nobody to ask, which allows a cluster of two nodes, the target is a suspect at once; else
-- the members are asked. `first` has the time and what is drawn.
unfoldable pub ask_members :
    Env → Bool → Target → Arrival → Membership → List Member → Option PingReqs
unfolding apply_to
ask_members env is_ready target first m [] =
    apply_to
      (make_suspect env is_ready first.id first.now first.suspect_draws target.address
        target.incarnation_number m)
      (record { membership = m; events = []; errors = []; verdict = some alone })
ask_members env is_ready target first m (x ∷ xs) =
    some (record { membership = m; events = []; errors = []; verdict = none })

unfoldable pub random_members :
    (List Member → ℕ → List Member) → Env → ℕ → Target → Membership → List Member
random_members sample env ping_req_size target m =
    get_random_pingable_members sample env ping_req_size (target.address ∷ []) m

-- `sendPingReqs`, with the arrivals of the answers of the members that were asked.
unfoldable pub send_ping_reqs :
    (List Member → ℕ → List Member)
    → Env
    → Bool
    → Target
    → ℕ
    → Arrival
    → List Arrival
    → Membership
    → Option PingReqs
unfolding ask_members random_members on_ping_reqs
send_ping_reqs sample env is_ready target ping_req_size first arrivals m =
    let members = random_members sample env ping_req_size target m in
    elim (ask_members env is_ready target first m members) [
      | none ↦ none
      | some s ↦ on_ping_reqs env is_ready target (length members) arrivals s
    ]
