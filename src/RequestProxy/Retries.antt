-- ===== src/RequestProxy/Retries.antt =====
-- The retries of a proxied request come to an end.
use ringpop_node.Common.{
  ℕ, suc, ◌<◌, ◌≤◌, ◌≡◌, ◌⊎◌, In, String, Bool, true, false, Option, some, length,
}
use ringpop_node.RequestProxy.{
  RequestProxySend, Attempted, destroyed, unidentified, request_error, response, SendResult, sent,
  send_error, channel_destroyed, identify_error, max_retries_exceeded, keys_diverged, handled_here,
  AfterAttempt, called_back, retry_in, AfterTimer, ended, sends_to,
}

module _ (whoami : String) (attempt : ℕ → Option String → Attempted) (owner : ℕ → String → String)
    (limit : ℕ) (host : String) where
  -- Before the attempt after `n` retries: each of them followed a failed attempt.
  pub record IsSending (n failures : ℕ) (s : RequestProxySend) : Type 0 where
    pub bounded : s.max_retries ≡ limit
    pub count : s.num_retries ≡ n
    pub within : n ≤ limit
    pub failed : s.errors ≡ failures
    pub routes : length s.destinations ≤ suc n
    pub base : s.host ≡ host
    pub home : In (some host) s.destinations

  -- The last attempt, at one of the destinations, met this.
  abbrev pub Met : RequestProxySend → Attempted → Type 0
  Met s met = (dest : Option String) × In dest s.destinations × (attempt s.num_retries dest ≡ met)

  -- What led to each result.
  abbrev pub Explains : RequestProxySend → SendResult → Type 0
  Explains s sent = (s.errors ≡ s.num_retries) × Met s (response true)
  Explains s send_error = (limit ≡ 0) × (Met s request_error ⊎ Met s (response false))
  Explains s max_retries_exceeded =
      (s.errors ≡ suc limit)
      × (s.num_retries ≡ limit)
      × (0 < limit)
      × (Met s request_error ⊎ Met s (response false))
  Explains s channel_destroyed = Met s destroyed
  Explains s identify_error = Met s unidentified
  Explains s (keys_diverged dests) = (1 ≤ s.num_retries) × (2 ≤ length dests)
  Explains s handled_here = (1 ≤ s.num_retries) × In (some whoami) s.destinations

  -- The end: no more retries than are allowed, at most one new destination for each, and the result.
  abbrev pub IsEnd : RequestProxySend → SendResult → Type 0
  IsEnd s result =
      (s.num_retries ≤ limit)
      × (length s.destinations ≤ suc s.num_retries)
      × In (some host) s.destinations
      × Explains s result

  -- An attempt that was answered well, or not.
  abbrev Ended : Bool → Attempted → Type 0
  Ended true met = met ≡ response true
  Ended false met = (met ≡ request_error) ⊎ (met ≡ response false)

  abbrev Attempts : ℕ → RequestProxySend → AfterAttempt → Type 0
  Attempts n s (called_back result) = IsEnd s result
  Attempts n s (retry_in delay) = IsSending n (suc n) s × (n < limit)

  abbrev AfterRetry : ℕ → RequestProxySend → AfterTimer → Type 0
  AfterRetry n s (ended result) = IsEnd s result
  AfterRetry n s (sends_to dest) = IsSending (suc n) (suc n) s × In dest s.destinations

  abbrev EndsAs : Option (RequestProxySend × SendResult) → Type 0
  EndsAs r =
      (s : RequestProxySend) × (result : SendResult) × (r ≡ some (s, result)) × IsEnd s result
