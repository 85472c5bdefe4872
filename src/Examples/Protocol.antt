-- ===== src/Examples/Protocol.antt =====
-- Tests of the messages: the middlewares, the join handler and the backoff.
use ringpop_node.RequestProxy.Inflight.{
  ProxyConfig, RequestProxy, new_request_proxy, handle_request, check_request, first_invalid_key,
  admit_request, should_respond_with_too_many_reqs, has_exceeded_max_inflight_requests,
  has_exceeded_max_event_loop_lag,
}
use ringpop_node.RequestProxy.Inflight.Bounds.{
  IsCounted, at_first, proxies, ingress, Proxies-IsCounted,
}
use ringpop_node.RequestProxy.Inflight.Owners.{IsOwned, handle_request-IsOwned}
use ringpop_node.RequestProxy.{Attempted, request_error, response, RetryOptions}
use ringpop_node.Common.{
  ℕ, suc, ◌≡◌, ◌↔◌, refl, false, List, [], ◌∷◌, Option, none, some, ◌+◌, ◌*◌, str_eq, String, zero,
  true,
}
use ringpop_node.Member.{tombstone, faulty}
use ringpop_node.Middleware.Stack.{Middleware, run, nest, run-nest}
use ringpop_node.Middleware.Tombstone.{
  WireChange, protocol_ping, protocol_ping_req, client_request, server_request, IsPatched,
  server_request-client_request,
}
use ringpop_node.Server.Join.{Node, handle_join, is_accepted, MayJoin, handle_join-accepts}
use ringpop_node.Backoff.{Backoff, IsLimited, retry_loop, retry_loop-IsLimited}
use ringpop_node.Examples.Data.{env, change, members}

-- One middleware doubles the argument and the result, the other adds to them.
abbrev doubling : Middleware ℕ ℕ ℕ
doubling = record {
  request = some (λ req n. (req, n * 2));
  response = some (λ req n. (suc req, n * 2));
}

abbrev adding : Middleware ℕ ℕ ℕ
adding = record { request = some (λ req n. (req, n + 1)); response = none }

run-nest_example :
    run (doubling ∷ adding ∷ []) (λ req n. (req, n + 10)) 0 5
    ≡ nest (doubling ∷ adding ∷ []) (λ req n. (req, n + 10)) 0 5
run-nest_example = run-nest (doubling ∷ adding ∷ []) (λ req n. (req, n + 10)) 0 5

abbrev body : Option (List WireChange)
body = some (
    record { change = change "b:1" 2 tombstone; tombstone_flag = false }
    ∷ record { change = change "c:1" 2 faulty; tombstone_flag = false }
    ∷ [])

server_request-client_request_example :
    (server_request protocol_ping (client_request protocol_ping body) ≡ body)
    × IsPatched (client_request protocol_ping body)
    × IsPatched (client_request protocol_ping_req body)
server_request-client_request_example =
    server_request-client_request protocol_ping body (refl, (refl, tt))

abbrev node : Node
node = record {
  env = env;
  app = "rides";
  is_denying_joins = false;
  member_blacklist = some ((λ joiner. str_eq joiner "x:1") ∷ []);
  membership = members;
}

handle_join-accepts_example :
    (is_accepted (
        handle_join node
          (some (record { app = some "rides"; source = some "b:1"; incarnation_number = some 3 })))
      ≡ true)
    ↔ MayJoin node "rides" "b:1"
handle_join-accepts_example = handle_join-accepts node "rides" "b:1" 3

-- Two retries, the second of which would be later than the maximal delay.
abbrev patient : Backoff
patient = record {
  min_delay = 1000;
  max_delay = 1500;
  retries = some 2;
  timeout = none;
  attempt = 0;
  first_try = none;
}

retry_loop-IsLimited_example : IsLimited 2 2 1500 (retry_loop 3 (λ i. 100 + i) (λ i. i) patient)
retry_loop-IsLimited_example =
    retry_loop-IsLimited 2 2 (λ i. 100 + i) (λ i. i) patient refl refl refl

-- A request whose first attempt fails, and whose keys have then moved to `c:1`, which answers.
abbrev attempts : ℕ → Option String → Attempted
attempts zero dest = request_error
attempts (suc n) dest = response true

abbrev no_options : RetryOptions
no_options = record { schedule = none; max_retries = none; skip_lookup = false }

abbrev proxy_config : ProxyConfig
proxy_config = record {
  backpressure_enabled = true;
  max_inflight_requests = 1;
  max_event_loop_lag = 50;
}

abbrev owned_by : String → Option String
owned_by key = some "a:1"

-- A request came in for its owner; a second one is refused.
abbrev busy : RequestProxy
busy =
    (handle_request proxy_config 0 "a:1" (some 7) owned_by (some (some 7)) ("key" ∷ [])
      (new_request_proxy none none)).0

abbrev refusing : RequestProxy
refusing = (handle_request proxy_config 0 "a:1" (some 7) owned_by (some (some 7)) [] busy).0

Proxies-IsCounted_example : IsCounted proxy_config refusing
Proxies-IsCounted_example = Proxies-IsCounted proxy_config refl none none refusing (
    proxies (proxies at_first (ingress 0 "a:1" (some 7) owned_by (some (some 7)) ("key" ∷ [])))
      (ingress 0 "a:1" (some 7) owned_by (some (some 7)) []))

handle_request-IsOwned_example :
    IsOwned "a:1"
      (some 7)
      owned_by
      (some (some 7))
      ("key" ∷ [])
      (new_request_proxy none (some true))
unfolding new_request_proxy handle_request check_request first_invalid_key admit_request
    should_respond_with_too_many_reqs has_exceeded_max_inflight_requests
    has_exceeded_max_event_loop_lag
handle_request-IsOwned_example =
    handle_request-IsOwned "a:1" (some 7) owned_by (some (some 7)) ("key" ∷ [])
      (new_request_proxy none (some true)) proxy_config 0 refl
