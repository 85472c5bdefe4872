-- ===== src/RequestProxy/Inflight/Bounds.antt =====
-- The count of the requests in flight, over all orders in which requests come and are answered.
use ringpop_node.Common.{
  ℕ, suc, ◌+◌, ◌≤◌, ◌≡◌, refl, inl, inr, String, Bool, true, false, List, [], ◌∷◌, Option, none,
  some, length, length-append, In, arith,
}
use ringpop_node.RequestProxy.Inflight.{
  ProxyConfig, RequestProxy, TooManyRequests, Handled, new_request_proxy,
  decrement_inflight_requests, increment_inflight_requests, has_exceeded_max_inflight_requests,
  should_respond_with_too_many_reqs, check_request, admit_request, handle_request, on_response,
  proxy_req, on_body, remove_first, remove_send, on_proxy, emitted, backpressure,
}

-- What can happen next: a request comes in, or is to be forwarded, or one of those that are open goes on.
pub data ProxyStep (config : ProxyConfig) : RequestProxy → RequestProxy → Type 0 where
  ingress :
      {p : RequestProxy} (lag : ℕ) (whoami : String) (ring_checksum : Option ℕ)
      (lookup : String → Option String) (checksum : Option (Option ℕ)) (keys : List String)
      → ProxyStep config p (handle_request config lag whoami ring_checksum lookup checksum keys p).0
  answered :
      {p : RequestProxy} (n : ℕ)
      → p.answering ≡ suc n
      → ProxyStep config p (on_response (record p { answering = n }))
  egress : {p : RequestProxy} (lag : ℕ) → ProxyStep config p (proxy_req config lag p).0
  read :
      {p : RequestProxy} (n : ℕ) (err : Bool)
      → p.reading ≡ suc n
      → ProxyStep config p (on_body err (record p { reading = n }))
  proxied : {p : RequestProxy} (send : ℕ) → In send p.sends → ProxyStep config p (on_proxy send p)

pub data Proxies (config : ProxyConfig) : RequestProxy → RequestProxy → Type 0 where
  at_first : {p : RequestProxy} → Proxies config p p
  proxies : {p q r : RequestProxy} → Proxies config p q → ProxyStep config q r → Proxies config p r

-- The counter is the number of open requests, and within the limit.
pub record IsCounted (config : ProxyConfig) (p : RequestProxy) : Type 0 where
  pub count : p.num_inflight_requests ≡ p.reading + length p.sends + p.answering
  pub within : p.num_inflight_requests ≤ config.max_inflight_requests

length-remove_first : (x : ℕ) (ys : List ℕ) → In x ys → length ys ≡ suc (length (remove_first x ys))
unfolding remove_first
length-remove_first x [] h = absurd h
length-remove_first x (y ∷ ys) (inl e) = ground (arith, e)
length-remove_first x (y ∷ ys) (inr h) = ground (arith, length-remove_first x ys h)

module _ (config : ProxyConfig) (enabled : config.backpressure_enabled ≡ true) where
  room :
      (lag : ℕ) (p : RequestProxy)
      → should_respond_with_too_many_reqs config lag p ≡ none
      → suc p.num_inflight_requests ≤ config.max_inflight_requests
  unfolding should_respond_with_too_many_reqs has_exceeded_max_inflight_requests
  room lag p h = ground (arith, h, enabled)

  incremented :
      (p : RequestProxy)
      → suc p.num_inflight_requests ≤ config.max_inflight_requests
      → (increment_inflight_requests config p).num_inflight_requests ≡ suc p.num_inflight_requests
  unfolding increment_inflight_requests
  incremented p h = ground (arith, h)

  abbrev AfterRequest : {A : Type 0} → RequestProxy × A → Type 0
  AfterRequest r = IsCounted config r.0

  admit_request-IsCounted :
      (lag : ℕ) (p : RequestProxy)
      → IsCounted config p
      → IsCounted config (admit_request config lag p).0
  unfolding admit_request increment_inflight_requests
  admit_request-IsCounted lag p v = go (should_respond_with_too_many_reqs config lag p) refl
    where
      admitted : RequestProxy
      admitted = record (increment_inflight_requests config p) { answering = suc p.answering }

      go :
          (r : Option TooManyRequests)
          → should_respond_with_too_many_reqs config lag p ≡ r
          → AfterRequest {A = Handled}
              (elim r [ some metric ↦ (p, backpressure metric) | none ↦ (admitted, emitted) ])
      go (some metric) h = v
      go none h =
          let more = incremented p (room lag p h) in
          record {
            count = ground (arith, more, v.count);
            within = ground (arith, more, room lag p h);
          }

  handle_request-IsCounted :
      (lag : ℕ) (whoami : String) (ring_checksum : Option ℕ) (lookup : String → Option String)
      (checksum : Option (Option ℕ)) (keys : List String) (p : RequestProxy)
      → IsCounted config p
      → IsCounted config (handle_request config lag whoami ring_checksum lookup checksum keys p).0
  unfolding handle_request
  handle_request-IsCounted lag whoami ring_checksum lookup checksum keys p v =
      go (check_request whoami ring_checksum lookup checksum keys p)
    where
      go :
          (r : Option Handled)
          → AfterRequest {A = Handled}
              (elim r [ some result ↦ (p, result) | none ↦ admit_request config lag p ])
      go (some result) = v
      go none = admit_request-IsCounted lag p v

  proxy_req-IsCounted :
      (lag : ℕ) (p : RequestProxy)
      → IsCounted config p
      → IsCounted config (proxy_req config lag p).0
  unfolding proxy_req increment_inflight_requests
  proxy_req-IsCounted lag p v = go (should_respond_with_too_many_reqs config lag p) refl
    where
      admitted : RequestProxy
      admitted = record (increment_inflight_requests config p) { reading = suc p.reading }

      go :
          (r : Option TooManyRequests)
          → should_respond_with_too_many_reqs config lag p ≡ r
          → AfterRequest {A = Option TooManyRequests}
              (elim r [ some metric ↦ (p, some metric) | none ↦ (admitted, none) ])
      go (some metric) h = v
      go none h =
          let more = incremented p (room lag p h) in
          record {
            count = ground (arith, more, v.count);
            within = ground (arith, more, room lag p h);
          }

  on_body-IsCounted :
      (err : Bool) (n : ℕ) (p : RequestProxy)
      → p.reading ≡ suc n
      → IsCounted config p
      → IsCounted config (on_body err (record p { reading = n }))
  unfolding on_body decrement_inflight_requests
  on_body-IsCounted true n p h v = record {
    count = ground (arith, h, v.count);
    within = ground (arith, v.within);
  }
  on_body-IsCounted false n p h v = record {
    count = ground (arith, h, v.count, length-append p.sends (p.next_send ∷ []));
    within = v.within;
  }

  step-IsCounted :
      (p q : RequestProxy) → ProxyStep config p q → IsCounted config p → IsCounted config q
  unfolding on_response on_proxy decrement_inflight_requests remove_send
  step-IsCounted p _ (ingress lag whoami ring_checksum lookup checksum keys) v =
      handle_request-IsCounted lag whoami ring_checksum lookup checksum keys p v
  step-IsCounted p _ (answered n h) v = record {
    count = ground (arith, h, v.count);
    within = ground (arith, v.within);
  }
  step-IsCounted p _ (egress lag) v = proxy_req-IsCounted lag p v
  step-IsCounted p _ (read n err h) v = on_body-IsCounted err n p h v
  step-IsCounted p _ (proxied send h) v = record {
    count = ground (arith, v.count, length-remove_first send p.sends h);
    within = ground (arith, v.within);
  }

  runs-IsCounted :
      (p q : RequestProxy) → IsCounted config p → Proxies config p q → IsCounted config q
  runs-IsCounted p _ v at_first = v
  runs-IsCounted p q v (proxies before step) = step-IsCounted _ q step (runs-IsCounted p _ v before)

  -- With backpressure enabled, whatever comes and is answered in whatever order, the number of requests in
  -- flight is exactly that of the requests that are being read, forwarded or answered, and within the limit.
  pub Proxies-IsCounted :
      (consistency key_consistency : Option Bool) (p : RequestProxy)
      → Proxies config (new_request_proxy consistency key_consistency) p
      → IsCounted config p
  unfolding new_request_proxy
  Proxies-IsCounted consistency key_consistency p runs =
      runs-IsCounted (new_request_proxy consistency key_consistency) p
        (record { count = refl; within = omega arith }) runs
