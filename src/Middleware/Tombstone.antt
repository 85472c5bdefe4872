-- ===== src/Middleware/Tombstone.antt =====
-- lib/middleware/tombstone.js: a change on the wire carries, besides its fields, the flag
-- `tombstone`. A tombstone is sent as a flagged faulty, and a flagged faulty read as a tombstone.
-- A body without the array to patch is `none`.
use ringpop_node.Common.{
  ◌≡◌, refl, ap, ◌∙◌, Bool, true, false, ◌&&◌, List, [], ◌∷◌, map, Option, none, some,
  if◌then◌else◌, arith, All,
}
use ringpop_node.Member.{Change, Status, is_tombstone, faulty, tombstone}

pub record WireChange : Type 0 where
  pub change : Change
  pub tombstone_flag : Bool

pub data Endpoint : Type 0 where
  protocol_ping protocol_ping_req protocol_join other_endpoint : Endpoint

abbrev pub is_faulty : Status → Bool
is_faulty faulty = true
is_faulty _ = false

abbrev with_status : Status → Bool → WireChange → WireChange
with_status status flag w = record w {
  change = record (w.change) { status = status };
  tombstone_flag = flag;
}

unfoldable pub faulty_as_tombstone : WireChange → WireChange
faulty_as_tombstone w =
    if is_faulty w.change.status && w.tombstone_flag then with_status tombstone false w else w

unfoldable pub tombstone_as_faulty : WireChange → WireChange
tombstone_as_faulty w = if is_tombstone w.change.status then with_status faulty true w else w

-- `forEach` of a patcher over the array, if there is one.
patch : (WireChange → WireChange) → Option (List WireChange) → Option (List WireChange)
patch patcher none = none
patch patcher (some changes) = some (map patcher changes)

-- The array to patch is `changes` of a ping or a ping-req.
unfoldable pub request_patcher :
    Endpoint → (WireChange → WireChange) → Option (List WireChange) → Option (List WireChange)
unfolding patch
request_patcher protocol_ping patcher changes = patch patcher changes
request_patcher protocol_ping_req patcher changes = patch patcher changes
request_patcher _ patcher changes = changes

-- The array to patch is `changes` too, or `membership` of a join.
unfoldable pub response_patcher :
    Endpoint → (WireChange → WireChange) → Option (List WireChange) → Option (List WireChange)
unfolding patch
response_patcher protocol_ping patcher changes = patch patcher changes
response_patcher protocol_ping_req patcher changes = patch patcher changes
response_patcher protocol_join patcher membership = patch patcher membership
response_patcher other_endpoint patcher changes = changes

-- The methods of `tombstonePatchServerMiddleware` and `tombstonePatchClientMiddleware`.
unfoldable pub server_request : Endpoint → Option (List WireChange) → Option (List WireChange)
unfolding request_patcher faulty_as_tombstone
server_request endpoint body = request_patcher endpoint faulty_as_tombstone body

unfoldable pub server_response : Endpoint → Option (List WireChange) → Option (List WireChange)
unfolding response_patcher tombstone_as_faulty
server_response endpoint body = response_patcher endpoint tombstone_as_faulty body

unfoldable pub client_request : Endpoint → Option (List WireChange) → Option (List WireChange)
unfolding request_patcher tombstone_as_faulty
client_request endpoint body = request_patcher endpoint tombstone_as_faulty body

unfoldable pub client_response : Endpoint → Option (List WireChange) → Option (List WireChange)
unfolding response_patcher faulty_as_tombstone
client_response endpoint body = response_patcher endpoint faulty_as_tombstone body

-- No change of the array has the flag, as in the messages that the nodes make.
abbrev pub IsUnflagged : Option (List WireChange) → Type 0
IsUnflagged none = Unit
IsUnflagged (some changes) = All (λ (w : WireChange). w.tombstone_flag ≡ false) changes

-- No change of the array is a tombstone.
abbrev pub IsPatched : Option (List WireChange) → Type 0
IsPatched none = Unit
IsPatched (some changes) = All (λ (w : WireChange). is_tombstone w.change.status ≡ false) changes

round_trip :
    (w : WireChange) → w.tombstone_flag ≡ false → faulty_as_tombstone (tombstone_as_faulty w) ≡ w
unfolding faulty_as_tombstone tombstone_as_faulty
round_trip w e = ground (arith, e)

hidden : (w : WireChange) → is_tombstone (tombstone_as_faulty w).change.status ≡ false
unfolding tombstone_as_faulty
hidden w = ground arith

round_trips :
    (ws : List WireChange)
    → All (λ (w : WireChange). w.tombstone_flag ≡ false) ws
    → map faulty_as_tombstone (map tombstone_as_faulty ws) ≡ ws
round_trips [] h = refl
round_trips (w ∷ ws) h =
    ap (λ x. x ∷ map faulty_as_tombstone (map tombstone_as_faulty ws)) (round_trip w h.0)
    ∙ ap (λ xs. w ∷ xs) (round_trips ws h.1)

All-hidden :
    (ws : List WireChange)
    → All (λ (w : WireChange). is_tombstone w.change.status ≡ false) (map tombstone_as_faulty ws)
All-hidden [] = tt
All-hidden (w ∷ ws) = (hidden w, All-hidden ws)

-- What a client sends of a request and the server reads is the body that the client made, if none of
-- its changes has the flag; in between, a ping and a ping-req carry no tombstone.
pub server_request-client_request :
    (endpoint : Endpoint) (body : Option (List WireChange))
    → IsUnflagged body
    → (server_request endpoint (client_request endpoint body) ≡ body)
      × IsPatched (client_request protocol_ping body)
      × IsPatched (client_request protocol_ping_req body)
unfolding server_request client_request request_patcher patch
server_request-client_request protocol_ping none h = (refl, tt, tt)
server_request-client_request protocol_ping (some ws) h =
    (ap some (round_trips ws h), All-hidden ws, All-hidden ws)
server_request-client_request protocol_ping_req none h = (refl, tt, tt)
server_request-client_request protocol_ping_req (some ws) h =
    (ap some (round_trips ws h), All-hidden ws, All-hidden ws)
server_request-client_request protocol_join none h = (refl, tt, tt)
server_request-client_request protocol_join (some ws) h = (refl, All-hidden ws, All-hidden ws)
server_request-client_request other_endpoint none h = (refl, tt, tt)
server_request-client_request other_endpoint (some ws) h = (refl, All-hidden ws, All-hidden ws)

-- What a server sends back of a response and the client reads is the body that the server made, if
-- none of its changes has the flag; in between, the answers to a ping, a ping-req and a join carry no
-- tombstone.
pub client_response-server_response :
    (endpoint : Endpoint) (body : Option (List WireChange))
    → IsUnflagged body
    → (client_response endpoint (server_response endpoint body) ≡ body)
      × IsPatched (server_response protocol_ping body)
      × IsPatched (server_response protocol_ping_req body)
      × IsPatched (server_response protocol_join body)
unfolding server_response client_response response_patcher patch
client_response-server_response protocol_ping none h = (refl, tt, tt, tt)
client_response-server_response protocol_ping (some ws) h =
    (ap some (round_trips ws h), All-hidden ws, All-hidden ws, All-hidden ws)
client_response-server_response protocol_ping_req none h = (refl, tt, tt, tt)
client_response-server_response protocol_ping_req (some ws) h =
    (ap some (round_trips ws h), All-hidden ws, All-hidden ws, All-hidden ws)
client_response-server_response protocol_join none h = (refl, tt, tt, tt)
client_response-server_response protocol_join (some ws) h =
    (ap some (round_trips ws h), All-hidden ws, All-hidden ws, All-hidden ws)
client_response-server_response other_endpoint none h = (refl, tt, tt, tt)
client_response-server_response other_endpoint (some ws) h =
    (refl, All-hidden ws, All-hidden ws, All-hidden ws)
