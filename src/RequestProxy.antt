-- ===== src/RequestProxy.antt =====
-- lib/request-proxy/send.js: forwarding a request to the node that owns its keys, with retries.
--
-- The answers of the attempts and the lookups of the keys at each retry are arguments: the ring may change
-- in between. Times of the schedule are in milliseconds.
pub mod Retries
pub mod Inflight
use ringpop_node.Common.{
  ℕ, zero, suc, ◌+◌, String, Bool, true, false, List, [], ◌∷◌, ◌++◌, Option, none, some, Dict,
  insert, keys, length, get_elem?, ltb, leb, ◌==◌, if◌then◌else◌, str_eq,
}

-- `RETRY_SCHEDULE`.
abbrev pub default_schedule : List ℕ
default_schedule = 0 ∷ 1000 ∷ 3500 ∷ []

-- The retries of the options: `schedule`, `max` and `skipLookup`.
pub record RetryOptions : Type 0 where
  pub schedule : Option (List ℕ)
  pub max_retries : Option ℕ
  pub skip_lookup : Bool

-- A destination is `none` where there are no keys to look up.
pub record RequestProxySend : Type 0 where
  pub host : String
  pub request_keys : List String
  pub retry_schedule : List ℕ
  pub max_retries : ℕ
  pub skip_lookup_on_retry : Bool
  pub destinations : List (Option String)
  pub errors : ℕ
  pub num_retries : ℕ

abbrev pub given_or : {A : Type 0} → Option A → A → A
given_or none x = x
given_or (some y) x = y

unfoldable pub new_send : String → List String → RetryOptions → RequestProxySend
new_send host request_keys retries =
    let schedule = given_or retries.schedule default_schedule in
    record {
      host = host;
      request_keys = request_keys;
      retry_schedule = schedule;
      max_retries = given_or retries.max_retries (length schedule);
      skip_lookup_on_retry = retries.skip_lookup;
      destinations = some host ∷ [];
      errors = 0;
      num_retries = 0;
    }

-- What an attempt meets: the channel is destroyed, the host cannot be identified, the request fails, or there
-- is a response, which is `ok` or not.
pub data Attempted : Type 0 where
  destroyed unidentified request_error : Attempted
  response : Bool → Attempted

-- What the callback is called with, or that the request is handled by this node.
pub data SendResult : Type 0 where
  channel_destroyed identify_error sent send_error max_retries_exceeded handled_here : SendResult
  keys_diverged : List String → SendResult

-- What follows an attempt, and what follows the timer of a retry.
pub data AfterAttempt : Type 0 where
  called_back : SendResult → AfterAttempt
  retry_in : Option ℕ → AfterAttempt

pub data AfterTimer : Type 0 where
  ended : SendResult → AfterTimer
  sends_to : Option String → AfterTimer

unfoldable pub is_sent : Attempted → Bool
is_sent (response ok) = ok
is_sent _ = false

-- The last delay of the schedule, `maxRetryTimeout`; a schedule without delays gives none.
unfoldable pub last_delay : List ℕ → Option ℕ
last_delay [] = none
last_delay (d ∷ []) = some d
last_delay (d ∷ e ∷ ds) = last_delay (e ∷ ds)

-- `scheduleRetry`: past the end of the schedule its last delay.
unfoldable pub schedule_delay : RequestProxySend → Option ℕ
unfolding last_delay
schedule_delay s = elim (get_elem? s.retry_schedule s.num_retries) [
  | some delay ↦ some delay
  | none ↦ last_delay s.retry_schedule
]

-- `onSend` and `onSendNoRetries`.
unfoldable pub on_send : Bool → RequestProxySend → RequestProxySend × AfterAttempt
unfolding schedule_delay
on_send true s = (s, called_back sent)
on_send false s =
    if s.max_retries == 0
    then (s, called_back send_error)
    else (let failed = record s { errors = suc s.errors } in
        if leb s.max_retries s.num_retries
        then (failed, called_back max_retries_exceeded)
        else (failed, retry_in (schedule_delay s)))

-- `send`, from the attempt on.
unfoldable pub on_attempt : Attempted → RequestProxySend → RequestProxySend × AfterAttempt
unfolding on_send is_sent
on_attempt destroyed s = (s, called_back channel_destroyed)
on_attempt unidentified s = (s, called_back identify_error)
on_attempt request_error s = on_send false s
on_attempt (response ok) s = on_send ok s

-- `lookupKeys`.
unfoldable pub lookup_keys : (String → String) → List String → Dict Bool → Dict Bool
lookup_keys owner [] dests = dests
lookup_keys owner (k ∷ ks) dests = lookup_keys owner ks (insert (owner k) true dests)

-- `rerouteRetry`.
unfoldable pub reroute_retry :
    String → Option String → RequestProxySend → RequestProxySend × AfterTimer
reroute_retry whoami none s =
    (record s { destinations = s.destinations ++ none ∷ [] }, sends_to none)
reroute_retry whoami (some dest) s = (
  record s { destinations = s.destinations ++ some dest ∷ [] },
  if str_eq dest whoami then ended handled_here else sends_to (some dest),
)

-- The destinations that a retry finds.
unfoldable pub retry_dests : (String → String) → RequestProxySend → List String
unfolding lookup_keys
retry_dests owner s =
    if s.skip_lookup_on_retry then s.host ∷ [] else keys (lookup_keys owner s.request_keys [])

unfoldable pub retry_to : String → List String → RequestProxySend → RequestProxySend × AfterTimer
unfolding reroute_retry
retry_to whoami [] s = reroute_retry whoami none s
retry_to whoami (dest ∷ []) s =
    if str_eq dest s.host then (s, sends_to (some dest)) else reroute_retry whoami (some dest) s
retry_to whoami (dest ∷ other ∷ dests) s = (s, ended (keys_diverged (dest ∷ other ∷ dests)))

-- `attemptRetry`.
unfoldable pub attempt_retry :
    String → (String → String) → RequestProxySend → RequestProxySend × AfterTimer
unfolding retry_dests retry_to
attempt_retry whoami owner s =
    retry_to whoami (retry_dests owner s) (record s { num_retries = suc s.num_retries })

-- The attempts one after another, for so many of them; the attempt and the lookup are numbered by the retries.
unfoldable pub send_loop :
    String
    → (ℕ → Option String → Attempted)
    → (ℕ → String → String)
    → ℕ
    → Option String
    → RequestProxySend
    → Option (RequestProxySend × SendResult)
unfolding on_attempt attempt_retry
send_loop whoami attempt owner zero dest s = none
send_loop whoami attempt owner (suc fuel) dest s =
    let (s', after) = on_attempt (attempt s.num_retries dest) s in
    elim after [
      | called_back result ↦ some (s', result)
      | retry_in delay ↦
          (let (s'', next) = attempt_retry whoami (owner s'.num_retries) s' in
            elim next [
              | ended result ↦ some (s'', result)
              | sends_to dest' ↦ send_loop whoami attempt owner fuel dest' s''
            ])
    ]

-- `send` of the module.
unfoldable pub send :
    String
    → (ℕ → Option String → Attempted)
    → (ℕ → String → String)
    → String
    → List String
    → RetryOptions
    → Option (RequestProxySend × SendResult)
unfolding new_send send_loop
send whoami attempt owner host request_keys retries =
    let s = new_send host request_keys retries in
    send_loop whoami attempt owner (suc s.max_retries) (some host) s
