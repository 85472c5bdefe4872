-- ===== src/Protocol.antt =====
-- server/protocol/ping.js and lib/gossip/ping-sender.js: a ping, at the node that receives it and at the
-- node that sends it, with the handlers of lib/on_membership_event.js and lib/on_ring_event.js that run
-- while the changes of the ping are applied.
--
-- `none` is a call that throws or does not return: there is no local member, or the tree of the ring has
-- an unusable reference.
pub mod Delivery
pub mod Pings
pub mod CatchUp
pub mod Relay
use ringpop_node.Common.{
  ℕ, String, Bool, true, false, not, ◌||◌, List, [], ◌∷◌, Option, none, some, ◌==◌, if◌then◌else◌,
  str_eq,
}
use ringpop_node.Config.{Env}
use ringpop_node.Member.{Change}
use ringpop_node.Membership.Events.{Event}
use ringpop_node.Membership.State.{Membership, get_incarnation_number}
use ringpop_node.Membership.Update.{Draw, update}
use ringpop_node.Gossip.Dissemination.{
  Dissemination, adjust_max_piggyback_count, issue_as_sender, issue_as_receiver, on_issue,
  try_start_reverse_full_sync,
}
use ringpop_node.Ring.HashRing.{
  HashRing, RingEvent, ring_changed, add_remove_servers, get_server_count,
}
use ringpop_node.Handlers.{Parts, on_event}

-- What the protocol reads and changes of `Ringpop`. The calls of the ring that a handler makes are in
-- `parts.ring_calls` until they are run, at the end of the handler.
pub record Ringpop : Type 0 where
  pub membership : Membership
  pub parts : Parts
  pub ring : HashRing
  pub is_ready : Bool
  pub app : String
  pub requires_app_in_ping : Bool
  pub max_reverse_full_sync_jobs : ℕ

-- `ringChanged` of the ring is passed on to `Dissemination.onRingChanged`; the other handlers of
-- lib/on_ring_event.js count and log.
unfoldable pub on_ring_events : Env → ℕ → List RingEvent → Dissemination → Dissemination
on_ring_events env server_count [] d = d
on_ring_events env server_count (ring_changed to_add to_remove ∷ events) d =
    on_ring_events env server_count events (adjust_max_piggyback_count env server_count d).0
on_ring_events env server_count (_ ∷ events) d = on_ring_events env server_count events d

unfoldable pub call_ring : Env → List String → List String → Ringpop → Option Ringpop
unfolding on_ring_events
call_ring env to_add to_remove node = elim (add_remove_servers env to_add to_remove node.ring) [
  | none ↦ none
  | some (ring, events, changed) ↦ some (record node {
    ring = ring;
    parts = record node.parts {
      dissemination = on_ring_events env (get_server_count ring) events node.parts.dissemination;
    };
  })
]

unfoldable pub call_ring_all : Env → List (List String × List String) → Ringpop → Option Ringpop
unfolding call_ring
call_ring_all env [] node = some node
call_ring_all env ((to_add, to_remove) ∷ calls) node = elim (call_ring env to_add to_remove node) [
  | none ↦ none
  | some node' ↦ call_ring_all env calls node'
]

-- The handlers of one event of the membership.
unfoldable pub deliver : Env → Event → Ringpop → Option Ringpop
unfolding call_ring_all
deliver env event node =
    let parts = on_event env.whoami event (record node.parts { ring_calls = [] }) in
    call_ring_all env parts.ring_calls (record node { parts = record parts { ring_calls = [] } })

unfoldable pub deliver_all : Env → List Event → Ringpop → Option Ringpop
unfolding deliver
deliver_all env [] node = some node
deliver_all env (event ∷ events) node = elim (deliver env event node) [
  | none ↦ none
  | some node' ↦ deliver_all env events node'
]

-- `ringpop.membership.update(changes)`, with the handlers of its events.
unfoldable pub update_node : Env → ℕ → (ℕ → Draw) → List Change → Ringpop → Option Ringpop
unfolding deliver_all
update_node env now draws changes node =
    elim (update env node.is_ready now draws changes node.membership) [
      | none ↦ none
      | some (m, applied, events) ↦ deliver_all env events (record node { membership = m })
    ]

-- The body of a ping; a field that it does not have is `none`.
pub record PingBody : Type 0 where
  pub source : Option String
  pub source_incarnation_number : Option ℕ
  pub changes : Option (List Change)
  pub checksum : Option ℕ
  pub app : Option String

pub data PingError : Type 0 where
  not_ready bad_ping_body different_app app_required : PingError

-- What `handlePing` calls back with; the flag tells whether a reverse full sync was started.
pub data PingAnswer : Type 0 where
  refused : PingError → PingAnswer
  ping_reply : List Change → Bool → PingAnswer

-- What the handler reads of a body that it accepts.
pub record Ping : Type 0 where
  pub source : String
  pub source_incarnation_number : Option ℕ
  pub changes : List Change
  pub checksum : ℕ

pub data Checked : Type 0 where
  bad : PingError → Checked
  good : Ping → Checked

-- An empty source and a checksum of zero are false in JavaScript, an empty list of changes is true.
unfoldable pub check_fields : Option String → Option ℕ → Option (List Change) → Option ℕ → Checked
check_fields (some source) number (some changes) (some checksum) =
    if str_eq source "" || checksum == 0
    then bad bad_ping_body
    else good (record {
      source = source;
      source_incarnation_number = number;
      changes = changes;
      checksum = checksum;
    })
check_fields _ number _ _ = bad bad_ping_body

unfoldable pub check_app : Ringpop → Option String → Checked → Checked
check_app node app (bad e) = bad e
check_app node (some app) (good ping) =
    if not (str_eq app node.app) then bad different_app else good ping
check_app node none (good ping) = if node.requires_app_in_ping then bad app_required else good ping

unfoldable pub check_ping : Ringpop → Option PingBody → Checked
unfolding check_fields check_app
check_ping node none = bad bad_ping_body
check_ping node (some body) =
    check_app node body.app
      (check_fields body.source body.source_incarnation_number body.changes body.checksum)

unfoldable pub answer_ping : Env → Ping → Ringpop → Ringpop × PingAnswer
answer_ping env ping node =
    let (d, changes, full_sync) =
      issue_as_receiver env.whoami node.membership (some ping.source) ping.source_incarnation_number
        ping.checksum node.parts.dissemination in
    let (d', started) =
      if full_sync
      then try_start_reverse_full_sync node.max_reverse_full_sync_jobs d
      else (d, false) in
    (record node { parts = record node.parts { dissemination = d' } }, ping_reply changes started)

unfoldable pub accept_ping : Env → ℕ → (ℕ → Draw) → Ping → Ringpop → Option (Ringpop × PingAnswer)
unfolding update_node answer_ping
accept_ping env now draws ping node = elim (update_node env now draws ping.changes node) [
  | none ↦ none
  | some node' ↦ some (answer_ping env ping node')
]

-- `handlePing`.
unfoldable pub handle_ping :
    Env → ℕ → (ℕ → Draw) → Option PingBody → Ringpop → Option (Ringpop × PingAnswer)
unfolding check_ping accept_ping
handle_ping env now draws body node = elim node.is_ready [
  | false ↦ some (node, refused not_ready)
  | true ↦ elim (check_ping node body) [
    | bad e ↦ some (node, refused e)
    | good ping ↦ accept_ping env now draws ping node
  ]
]

-- `PingSender.send` up to the request, with the body that is sent.
unfoldable pub send_ping : Env → Ringpop → Ringpop × PingBody
send_ping env node =
    let (d, changes, exhausted) = issue_as_sender node.parts.dissemination in
    (
      record node { parts = record node.parts { dissemination = d } },
      record {
        source = some env.whoami;
        source_incarnation_number = get_incarnation_number node.membership;
        changes = some changes;
        checksum = node.membership.checksum;
        app = some node.app;
      },
    )

-- What the request gives: an error, or a body with the changes, if it has any.
pub data PingResponse : Type 0 where
  ping_failed : PingResponse
  ping_response : Option (List Change) → PingResponse

pub data PingOutcome : Type 0 where
  ping_ok ping_error no_response : PingOutcome

unfoldable pub issued_of : Bool → List Change → Ringpop → Ringpop
issued_of err changes node = record node {
  parts = record node.parts { dissemination = on_issue err changes node.parts.dissemination };
}

-- `changesSent`: `onIssue`, and then `onPing` with its callback.
unfoldable pub changes_sent :
    Env → ℕ → (ℕ → Draw) → List Change → PingResponse → Ringpop → Option (Ringpop × PingOutcome)
unfolding issued_of update_node
changes_sent env now draws issued ping_failed node = some (issued_of true issued node, ping_error)
changes_sent env now draws issued (ping_response none) node =
    some (issued_of false issued node, no_response)
changes_sent env now draws issued (ping_response (some changes)) node =
    elim (update_node env now draws changes (issued_of false issued node)) [
      | none ↦ none
      | some node' ↦ some (node', ping_ok)
    ]
