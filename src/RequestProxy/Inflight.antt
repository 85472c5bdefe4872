-- ===== src/RequestProxy/Inflight.antt =====
-- lib/request-proxy/index.js: requests that are forwarded to another node, or were forwarded to this one, and
-- how many of them are in flight.
--
-- The lag of the event loop, the checksum of the ring and its lookup are arguments, as they are at the call.
pub mod Bounds
pub mod Owners
use ringpop_node.Common.{
  ℕ, zero, suc, ◌+◌, ◌-◌, String, Bool, true, false, not, ◌&&◌, List, [], ◌∷◌, ◌++◌, Option, none,
  some, ltb, ◌==◌, if◌then◌else◌, str_eq,
}

pub record ProxyConfig : Type 0 where
  pub backpressure_enabled : Bool
  pub max_inflight_requests : ℕ
  pub max_event_loop_lag : ℕ

-- The proxy, with the requests whose body is being read, and those that the application answers.
pub record RequestProxy : Type 0 where
  pub enforce_consistency : Bool
  pub enforce_key_consistency : Bool
  pub sends : List ℕ
  pub num_inflight_requests : ℕ
  pub next_send : ℕ
  pub reading : ℕ
  pub answering : ℕ

-- What `TooManyRequestsError` names as its metric.
pub data TooManyRequests : Type 0 where
  inflight eventloop : TooManyRequests

-- The result of `handleRequest` before the response: an error, the answer that there are too many requests, or
-- the request is passed to the application.
pub data Handled : Type 0 where
  invalid_checksum : Handled
  invalid_key : Option String → Handled
  backpressure : TooManyRequests → Handled
  emitted : Handled

-- The constructor, with the options `enforceConsistency` and `enforceKeyConsistency` where they are given.
unfoldable pub new_request_proxy : Option Bool → Option Bool → RequestProxy
new_request_proxy consistency key_consistency = record {
  enforce_consistency = elim consistency [ none ↦ true | some b ↦ b ];
  enforce_key_consistency = elim key_consistency [ none ↦ false | some b ↦ b ];
  sends = [];
  num_inflight_requests = 0;
  next_send = 0;
  reading = 0;
  answering = 0;
}

-- Below zero the counter is set to zero, as `-` on natural numbers does.
unfoldable pub decrement_inflight_requests : RequestProxy → RequestProxy
decrement_inflight_requests p = record p { num_inflight_requests = p.num_inflight_requests - 1 }

unfoldable pub increment_inflight_requests : ProxyConfig → RequestProxy → RequestProxy
increment_inflight_requests config p = record p {
  num_inflight_requests =
      if ltb config.max_inflight_requests (suc p.num_inflight_requests)
      then config.max_inflight_requests
      else suc p.num_inflight_requests;
}

unfoldable pub has_exceeded_max_inflight_requests : ProxyConfig → RequestProxy → Bool
has_exceeded_max_inflight_requests config p =
    config.backpressure_enabled && ltb config.max_inflight_requests (p.num_inflight_requests + 1)

unfoldable pub has_exceeded_max_event_loop_lag : ProxyConfig → ℕ → Bool
has_exceeded_max_event_loop_lag config lag =
    config.backpressure_enabled && ltb config.max_event_loop_lag lag

unfoldable pub should_respond_with_too_many_reqs :
    ProxyConfig → ℕ → RequestProxy → Option TooManyRequests
unfolding has_exceeded_max_inflight_requests has_exceeded_max_event_loop_lag
should_respond_with_too_many_reqs config lag p =
    if has_exceeded_max_inflight_requests config p
    then some inflight
    else if has_exceeded_max_event_loop_lag config lag
    then some eventloop
    else none

-- `checksum !== ringpop.ring.checksum`: the head's is `none` where it is undefined, `some none` where it is null;
-- the ring's is null before the first one is computed.
abbrev pub checksum_differs : Option (Option ℕ) → Option ℕ → Bool
checksum_differs none _ = true
checksum_differs (some none) none = false
checksum_differs (some none) (some b) = true
checksum_differs (some (some a)) none = true
checksum_differs (some (some a)) (some b) = not (a == b)

abbrev pub is_owner : String → Option String → Bool
is_owner whoami none = false
is_owner whoami (some target) = str_eq target whoami

-- The target of the first key that this node does not own.
unfoldable pub first_invalid_key :
    String → (String → Option String) → List String → Option (Option String)
first_invalid_key whoami lookup [] = none
first_invalid_key whoami lookup (key ∷ keys) =
    let rest = first_invalid_key whoami lookup keys in
    if is_owner whoami (lookup key) then rest else some (lookup key)

-- The two checks of `handleRequest`, with the error that it calls back with.
unfoldable pub check_request :
    String
    → Option ℕ
    → (String → Option String)
    → Option (Option ℕ)
    → List String
    → RequestProxy
    → Option Handled
unfolding first_invalid_key
check_request whoami ring_checksum lookup checksum keys p =
    if checksum_differs checksum ring_checksum && p.enforce_consistency
    then some invalid_checksum
    else elim (first_invalid_key whoami lookup keys) [
      | none ↦ none
      | some target ↦ if p.enforce_key_consistency then some (invalid_key target) else none
    ]

unfoldable pub admit_request : ProxyConfig → ℕ → RequestProxy → RequestProxy × Handled
unfolding should_respond_with_too_many_reqs increment_inflight_requests
admit_request config lag p = elim (should_respond_with_too_many_reqs config lag p) [
  | some metric ↦ (p, backpressure metric)
  | none ↦
      (let p' = increment_inflight_requests config p in
        (record p' { answering = suc p'.answering }, emitted))
]

-- `handleRequest`; keys that are missing are no keys.
unfoldable pub handle_request :
    ProxyConfig
    → ℕ
    → String
    → Option ℕ
    → (String → Option String)
    → Option (Option ℕ)
    → List String
    → RequestProxy
    → RequestProxy × Handled
unfolding check_request admit_request
handle_request config lag whoami ring_checksum lookup checksum keys p =
    elim (check_request whoami ring_checksum lookup checksum keys p) [
      | some result ↦ (p, result)
      | none ↦ admit_request config lag p
    ]

-- `onResponse`.
unfoldable pub on_response : RequestProxy → RequestProxy
unfolding decrement_inflight_requests
on_response p = decrement_inflight_requests p

-- `proxyReq` up to the body; the option is the error that is sent.
unfoldable pub proxy_req : ProxyConfig → ℕ → RequestProxy → RequestProxy × Option TooManyRequests
unfolding should_respond_with_too_many_reqs increment_inflight_requests
proxy_req config lag p = elim (should_respond_with_too_many_reqs config lag p) [
  | some metric ↦ (p, some metric)
  | none ↦
      (let p' = increment_inflight_requests config p in
        (record p' { reading = suc p'.reading }, none))
]

-- `onBody`.
unfoldable pub on_body : Bool → RequestProxy → RequestProxy
unfolding decrement_inflight_requests
on_body true p = decrement_inflight_requests p
on_body false p = record p { sends = p.sends ++ p.next_send ∷ []; next_send = suc p.next_send }

-- `indexOf` and `splice`.
unfoldable pub remove_first : ℕ → List ℕ → List ℕ
remove_first x [] = []
remove_first x (y ∷ ys) = let rest = remove_first x ys in if y == x then ys else y ∷ rest

unfoldable pub remove_send : ℕ → RequestProxy → RequestProxy
unfolding remove_first
remove_send send p = record p { sends = remove_first send p.sends }

-- `onProxy`.
unfoldable pub on_proxy : ℕ → RequestProxy → RequestProxy
unfolding remove_send decrement_inflight_requests
on_proxy send p = decrement_inflight_requests (remove_send send p)
