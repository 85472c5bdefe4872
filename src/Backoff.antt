-- ===== src/Backoff.antt =====
-- lib/backoff.js: retries with an exponentially growing delay. An option that is not given is
-- `none`; `random` is `Math.random()` times 2 ^ 53. The products are exact, as they are in floating
-- point while they stay below 2 ^ 53. The handle of the timer is left out: only `onTimeout` reads it.
use ringpop_node.Common.{
  ℕ, zero, suc, ◌+◌, ◌-◌, ◌*◌, ◌/◌, ◌^◌, ◌≤◌, min, ◌≡◌, refl, ap, ◌∙◌, subst, sym, List, [], ◌∷◌,
  Option, none, some, if◌then◌else◌, leb, ltb, ◌==◌, get_or, arith, length, All,
}

pub record Backoff : Type 0 where
  pub min_delay : ℕ
  pub max_delay : ℕ
  pub retries : Option ℕ
  pub timeout : Option ℕ
  pub attempt : ℕ
  pub first_try : Option ℕ

pub data BackoffError : Type 0 where
  max_retries_reached : ℕ → ℕ → BackoffError
  retry_timed_out : ℕ → ℕ → BackoffError

-- What `retry` does: the callback gets an error, or is called after a delay.
pub data Retry : Type 0 where
  failed_with : BackoffError → Retry
  scheduled_after : ℕ → Retry

-- `opts.minDelay || 500`: 0 is replaced too.
or_default : Option ℕ → ℕ → ℕ
or_default none fallback = fallback
or_default (some n) fallback = if n == 0 then fallback else n

unfoldable pub new_backoff : Option ℕ → Option ℕ → Option ℕ → Option ℕ → Backoff
unfolding or_default
new_backoff min_delay max_delay retries timeout = record {
  min_delay = or_default min_delay 500;
  max_delay = or_default max_delay 15000;
  retries = retries;
  timeout = timeout;
  attempt = 0;
  first_try = none;
}

-- `_delay`: `Math.floor(random * (minDelay * 0.5)) + minDelay`, at most `maxDelay`.
unfoldable pub delay : ℕ → Backoff → ℕ
delay random b =
    let least = b.min_delay * 2 ^ b.attempt in min b.max_delay ((random * least) / 2 ^ 54 + least)

-- `if (!self.firstTry) self.firstTry = self._now()`.
start : ℕ → Backoff → Backoff
start now b = if get_or b.first_try 0 == 0 then record b { first_try = some now } else b

out_of_retries : Backoff → Option BackoffError
out_of_retries b = elim b.retries [
  | none ↦ none
  | some n ↦ if leb n b.attempt then some (max_retries_reached n b.attempt) else none
]

out_of_time : ℕ → Backoff → Option BackoffError
out_of_time now b = elim b.timeout [
  | none ↦ none
  | some t ↦
      let duration = now - get_or b.first_try 0 in
      if ltb t duration then some (retry_timed_out t duration) else none
]

-- The tests of `retry`, in their order.
unfoldable pub outcome : ℕ → ℕ → Backoff → Retry
unfolding out_of_retries out_of_time
outcome now random b = elim (out_of_retries b) [
  | some e ↦ failed_with e
  | none ↦ elim (out_of_time now b) [
    | some e ↦ failed_with e
    | none ↦ scheduled_after (delay random b)
  ]
]

unfoldable pub retry : ℕ → ℕ → Backoff → Backoff × Retry
unfolding start outcome
retry now random b = (start now b, outcome now random (start now b))

-- `onTimeout`, before it calls back.
unfoldable pub on_timeout : Backoff → Backoff
on_timeout b = record b { attempt = suc b.attempt }

unfoldable pub after_retry : Retry → List ℕ × Option BackoffError → List ℕ × Option BackoffError
after_retry (failed_with e) rest = ([], some e)
after_retry (scheduled_after d) rest = (d ∷ rest.0, rest.1)

-- A caller that retries each time it is called back without an error, for so many rounds: the
-- delays, and the error that ended it, if one did. Round `i` has its own time and random number.
unfoldable pub retry_loop : ℕ → (ℕ → ℕ) → (ℕ → ℕ) → Backoff → List ℕ × Option BackoffError
unfolding on_timeout
retry_loop zero now random b = ([], none)
retry_loop (suc rounds) now random b =
    let (b', r) = retry (now rounds) (random rounds) b in
    after_retry r (retry_loop rounds now random (on_timeout b'))

-- A delay is at least the doubled minimum, unless that is beyond the maximum, and at most the
-- maximum.
delay-bounds :
    (random : ℕ) (b : Backoff)
    → (min b.max_delay (b.min_delay * 2 ^ b.attempt) ≤ delay random b)
      × (delay random b ≤ b.max_delay)
unfolding delay
delay-bounds random b = (omega arith, omega arith)

-- Without a timeout, a retry is delayed while there are retries left and fails then.
outcome_left :
    (now random n : ℕ) (b : Backoff)
    → b.retries ≡ some n
    → b.timeout ≡ none
    → outcome now random b ≡ (
        if leb n b.attempt
        then failed_with (max_retries_reached n b.attempt)
        else scheduled_after (delay random b))
unfolding outcome out_of_retries out_of_time
outcome_left now random n b e f = ground (arith, e, f)

start_keeps :
    (now : ℕ) (b : Backoff)
    → ((start now b).attempt ≡ b.attempt)
      × ((start now b).retries ≡ b.retries)
      × ((start now b).timeout ≡ b.timeout)
      × ((start now b).max_delay ≡ b.max_delay)
unfolding start
start_keeps now b = ground arith

-- So many delays, none above the maximum, and the error that the `n` retries are used up.
abbrev pub IsLimited : ℕ → ℕ → ℕ → List ℕ × Option BackoffError → Type 0
IsLimited k n max_delay (delays, ended) =
    (length delays ≡ k) × All (λ d. d ≤ max_delay) delays × (ended ≡ some (max_retries_reached n n))

-- A caller with `k` retries left and no timeout, who retries each time, is called back `k` times,
-- no delay being above the maximum, and then gets the error that the retries are used up.
pub retry_loop-IsLimited :
    (k n : ℕ) (now random : ℕ → ℕ) (b : Backoff)
    → b.retries ≡ some n
    → b.timeout ≡ none
    → b.attempt + k ≡ n
    → IsLimited k n b.max_delay (retry_loop (suc k) now random b)
unfolding retry_loop retry after_retry on_timeout
retry_loop-IsLimited zero n now random b e f q =
    let (a, r, t, m) = start_keeps (now zero) b in
    let ended : outcome (now zero) (random zero) (start (now zero) b)
        ≡ failed_with (max_retries_reached n n) =
      outcome_left (now zero) (random zero) n (start (now zero) b) (r ∙ e) (t ∙ f)
      ∙ ground (arith, a, q) in
    subst (λ o. IsLimited zero n b.max_delay (after_retry o ([], none))) (sym ended)
      (refl, tt, refl)
retry_loop-IsLimited (suc k) n now random b e f q =
    let (a, r, t, m) = start_keeps (now (suc k)) b in
    let next = start (now (suc k)) b in
    let delayed : outcome (now (suc k)) (random (suc k)) next
        ≡ scheduled_after (delay (random (suc k)) next) =
      outcome_left (now (suc k)) (random (suc k)) n next (r ∙ e) (t ∙ f) ∙ ground (arith, a, q) in
    let (callbacks, within, ended) =
      retry_loop-IsLimited k n now random (on_timeout next) (r ∙ e) (t ∙ f) (omega (arith, a, q)) in
    subst
      (λ o.
        IsLimited (suc k) n b.max_delay
          (after_retry o (retry_loop (suc k) now random (on_timeout next))))
      (sym delayed)
      (
        ap suc callbacks,
        (
          omega (arith, (delay-bounds (random (suc k)) next).1, m),
          subst (λ limit. All (λ d. d ≤ limit) (retry_loop (suc k) now random (on_timeout next)).0)
              m within,
        ),
        ended,
      )
