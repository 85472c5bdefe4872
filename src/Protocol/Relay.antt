-- ===== src/Protocol/Relay.antt =====
-- server/protocol/ping-req.js and server/protocol/damp_req.js: a node pings another one for the sender of a
-- ping-req, and gives the damp scores of members.
use ringpop_node.Common.{
  ℕ, ◌≡◌, refl, String, Bool, true, false, ◌||◌, List, [], Option, none, some, ◌==◌, if◌then◌else◌,
  str_eq,
}
use ringpop_node.Config.{Env}
use ringpop_node.Member.{Change}
use ringpop_node.Membership.State.{Membership, collect_damp_scores}
use ringpop_node.Membership.Update.{Draw}
use ringpop_node.Membership.View.{view, apply_claims}
use ringpop_node.Gossip.Dissemination.{issue_as_receiver}
use ringpop_node.Protocol.{
  Ringpop, Ping, PingBody, PingResponse, ping_failed, ping_response, PingOutcome, ping_ok,
  ping_error, no_response, issued_of, update_node, send_ping, changes_sent,
}
use ringpop_node.Protocol.Delivery.{IsNode, update_node-Applies}

-- The body of a ping-req; a field that it does not have is `none`.
pub record PingReqBody : Type 0 where
  pub source : Option String
  pub source_incarnation_number : Option ℕ
  pub target : Option String
  pub changes : Option (List Change)
  pub checksum : Option ℕ

-- What is kept for the answer until the target has answered: the ping-req, the target and the body of
-- the ping that is sent to it.
pub data PingReqStart : Type 0 where
  ping_req_not_ready : PingReqStart
  bad_ping_req_body : PingReqStart
  relayed : Ping → String → PingBody → PingReqStart

pub record PingReqReply : Type 0 where
  pub changes : List Change
  pub ping_status : Bool
  pub target : String

-- The fields that have to be there; an empty address and a checksum of zero are false in JavaScript.
unfoldable pub check_ping_req : Option PingReqBody → Option (Ping × String)
check_ping_req none = none
check_ping_req (some body) = go body.source body.target body.changes body.checksum
  where
    go : Option String → Option String → Option (List Change) → Option ℕ → Option (Ping × String)
    go (some source) (some target) (some changes) (some checksum) =
        if str_eq source "" || str_eq target "" || checksum == 0
        then none
        else some (
          record {
            source = source;
            source_incarnation_number = body.source_incarnation_number;
            changes = changes;
            checksum = checksum;
          },
          target,
        )
    go _ _ _ _ = none

-- A ping-req that is accepted, up to the ping of the target.
unfoldable pub relay_ping :
    Env → ℕ → (ℕ → Draw) → Ping → String → Ringpop → Option (Ringpop × PingReqStart)
unfolding update_node send_ping
relay_ping env now draws ping target node = elim (update_node env now draws ping.changes node) [
  | none ↦ none
  | some node' ↦
      (let (node'', body) = send_ping env node' in some (node'', relayed ping target body))
]

-- `handlePingReq` up to the ping of the target.
unfoldable pub handle_ping_req :
    Env → ℕ → (ℕ → Draw) → Option PingReqBody → Ringpop → Option (Ringpop × PingReqStart)
unfolding check_ping_req relay_ping
handle_ping_req env now draws body node = elim node.is_ready [
  | false ↦ some (node, ping_req_not_ready)
  | true ↦ elim (check_ping_req body) [
    | none ↦ some (node, bad_ping_req_body)
    | some (ping, target) ↦ relay_ping env now draws ping target node
  ]
]

unfoldable pub is_ok : PingOutcome → Bool
is_ok ping_ok = true
is_ok ping_error = false
is_ok no_response = false

-- The callback of `sendPing`: the answer to the sender of the ping-req.
unfoldable pub answer_ping_req :
    Env → Ping → String → PingOutcome → Ringpop → Ringpop × PingReqReply
unfolding is_ok
answer_ping_req env ping target outcome node =
    let (d, changes, full_sync) =
      issue_as_receiver env.whoami node.membership (some ping.source) ping.source_incarnation_number
        ping.checksum node.parts.dissemination in
    (
      record node { parts = record node.parts { dissemination = d } },
      record { changes = changes; ping_status = is_ok outcome; target = target },
    )

-- The target's answer to the ping, and then the answer to the ping-req.
unfoldable pub on_relayed :
    Env
    → ℕ
    → (ℕ → Draw)
    → Ping
    → String
    → List Change
    → PingResponse
    → Ringpop
    → Option (Ringpop × PingReqReply)
unfolding changes_sent answer_ping_req
on_relayed env now draws ping target issued response node =
    elim (changes_sent env now draws issued response node) [
      | none ↦ none
      | some (node', outcome) ↦ some (answer_ping_req env ping target outcome node')
    ]

-- The changes of the target's answer.
abbrev pub answered_changes : PingResponse → List Change
answered_changes ping_failed = []
answered_changes (ping_response none) = []
answered_changes (ping_response (some changes)) = changes

abbrev pub has_answered : PingResponse → Bool
has_answered ping_failed = false
has_answered (ping_response none) = false
has_answered (ping_response (some changes)) = true

-- On a node that is ready, the answer to the relayed ping leads to a reply: its status tells whether the
-- target answered with changes, its target is the one that was asked about, and what the node then knows of
-- each address is what the rule for claims gives for those changes.
pub on_relayed-answers :
    (env : Env) (now l : ℕ) (draws : ℕ → Draw) (ping : Ping) (target : String)
    (issued : List Change) (response : PingResponse) (node : Ringpop)
    → node.is_ready ≡ true
    → IsNode env l node
    → (node' : Ringpop) × (reply : PingReqReply) × (on_relayed env now draws ping target issued
          response node
        ≡ some (node', reply))
      × (reply.ping_status ≡ has_answered response)
      × (reply.target ≡ target)
      × IsNode env l node'
      × ((a : String)
          → view node'.membership a
            ≡ apply_claims env.whoami now (answered_changes response) (view node.membership) a)
unfolding on_relayed changes_sent issued_of answer_ping_req is_ok apply_claims
on_relayed-answers env now l draws ping target issued ping_failed node ready v = (
  _,
  _,
  refl,
  refl,
  refl,
  record { consistent = v.consistent; local = v.local; ring = v.ring },
  (λ a. refl),
)
on_relayed-answers env now l draws ping target issued (ping_response none) node ready v = (
  _,
  _,
  refl,
  refl,
  refl,
  record { consistent = v.consistent; local = v.local; ring = v.ring },
  (λ a. refl),
)
on_relayed-answers env now l draws ping target issued (ping_response (some changes)) node ready v =
    let (node', r, applied) =
      update_node-Applies env now l draws changes (issued_of false issued node) ready
        (record { consistent = v.consistent; local = v.local; ring = v.ring }) in
    let answer = answer_ping_req env ping target ping_ok node' in
    (
      answer.0,
      answer.1,
      rw (r, on_relayed) refl,
      refl,
      refl,
      record {
        consistent = applied.valid.consistent;
        local = applied.valid.local;
        ring = applied.valid.ring;
      },
      applied.known,
    )

pub data DampReqAnswer : Type 0 where
  flappers_required : DampReqAnswer
  flappers_array : DampReqAnswer
  damp_scores : List (String × Option ℕ) → DampReqAnswer

-- The flappers of a body: absent, no array, or addresses.
pub data Flappers : Type 0 where
  no_flappers : Flappers
  other_flappers : Flappers
  flapper_list : List String → Flappers

-- `handleDampReq`.
unfoldable pub handle_damp_req : Flappers → Membership → DampReqAnswer
unfolding collect_damp_scores
handle_damp_req no_flappers m = flappers_required
handle_damp_req other_flappers m = flappers_array
handle_damp_req (flapper_list flappers) m = damp_scores (collect_damp_scores m flappers)
