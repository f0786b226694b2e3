-- ===== src/Sender/Retry.antt =====
-- isRetryableStatus and sendWithRetry of pkg/sender/otlp_client.go. What the endpoint does is a
-- function of the attempt, and so is whether the context is done when the attempt begins. The base
-- of the backoff is in milliseconds, and sleeps are in nanoseconds, as they are asked for: the end of the
-- context cuts one short, and is seen as that of the next attempt.
pub mod Laws
pub mod Sleeps
use otel_aws_log_processor.Prelude.{
  ℕ, zero, suc, ◌+◌, ◌-◌, ◌*◌, ◌/◌, ◌^◌, ◌%◌, Bool, true, false, ◌&&◌, ◌||◌, List, [], ◌∷◌, none,
  some, if◌then◌else◌, ltb, leb, ◌==◌, Text, trim_space, is_empty,
}
use otel_aws_log_processor.Prelude.Int.{ℤ, pos, negsuc, of_bits, wrap64, mul_ℕ}
use otel_aws_log_processor.Prelude.Strconv
use otel_aws_log_processor.Prelude.Strconv.{Parsed}

pub data Reply : Type 0 where
  network_error : Reply
  http : ℕ → Text → Reply  -- the status, and the Retry-After header or ""

pub data Outcome : Type 0 where
  delivered : Outcome
  rejected : ℕ → Outcome
  cancelled : Outcome
  exhausted : Outcome

pub record Trace : Type 0 where
  pub outcome : Outcome
  pub requests : ℕ
  pub sleeps : List ℕ

unfoldable pub is_retryable_status : ℕ → Bool
is_retryable_status code =
    if code == 429 || code == 408
    then true
    else if leb 500 code && ltb code 600
    then true
    else false

abbrev pub is_success_status : ℕ → Bool
is_success_status code = leb 200 code && ltb code 300

abbrev capped : ℤ → ℕ
capped (pos secs) = if ltb 30 secs then 30 else secs
capped (negsuc n) = 0

abbrev accepted_secs : Parsed → ℕ
accepted_secs p = elim p.err [ none ↦ capped p.value | some e ↦ 0 ]

-- nextSleep after a retryable status, in seconds; 0 leaves the backoff to decide.
unfoldable pub retry_after : Text → ℕ
retry_after header =
    if is_empty header then 0 else accepted_secs (Strconv.parse_int (trim_space header))

-- 1 << uint(n), an int
abbrev multiplier : ℕ → ℤ
multiplier n = of_bits (2 ^ n % 2 ^ 64)

abbrev negate : ℕ → ℤ
negate zero = pos 0
negate (suc n) = negsuc n

-- The product with RetryBaseSec, cut to whole seconds
abbrev whole_seconds : ℕ → ℤ → ℤ
whole_seconds base_ms (pos m) = pos (base_ms * m / 1000)
whole_seconds base_ms (negsuc m) = negate (base_ms * (m + 1) / 1000)

-- The conversion to int64 of a number that is out of range is the least int64, as on amd64.
abbrev to_int64 : ℤ → ℤ
to_int64 (pos n) = if ltb n (2 ^ 63) then pos n else negsuc (2 ^ 63 - 1)
to_int64 (negsuc n) = if ltb n (2 ^ 63) then negsuc n else negsuc (2 ^ 63 - 1)

-- A negative duration is not slept.
abbrev slept : ℤ → ℕ
slept (pos n) = n
slept (negsuc n) = 0

-- The sleep before an attempt after the first, in nanoseconds
unfoldable pub backoff : ℕ → ℕ → ℕ → ℕ
backoff base_ms attempt next_sleep =
    if next_sleep == 0
    then slept
        (wrap64 (mul_ℕ (to_int64 (whole_seconds base_ms (multiplier (attempt - 1)))) 1_000_000_000))
    else next_sleep * 1_000_000_000

module _ (base_ms : ℕ) (is_done : ℕ → Bool) (reply : ℕ → Reply) where
  abbrev pub stop : Outcome → ℕ → Trace
  stop o n = record { outcome = o; requests = n; sleeps = [] }

  abbrev with_sleep : ℕ → ℕ → Trace → Trace
  with_sleep attempt next t = elim (attempt == 0) [
    | true ↦ t
    | false ↦ record t { sleeps = backoff base_ms attempt next ∷ t.sleeps }
  ]

  abbrev with_request : Trace → Trace
  with_request t = record t { requests = suc t.requests }

  -- What one attempt does with the reply; `again` goes on with the sleep that it is given.
  unfoldable pub on_reply : Reply → (ℕ → Trace) → Trace
  unfolding is_retryable_status retry_after
  on_reply network_error again = with_request (again 0)
  on_reply (http status header) again = elim (is_success_status status) [
    | true ↦ stop delivered 1
    | false ↦ elim (is_retryable_status status) [
      | true ↦ with_request (again (retry_after header))
      | false ↦ stop (rejected status) 1
    ]
  ]

  -- `left` attempts from number `attempt`.
  unfoldable pub attempts : ℕ → ℕ → ℕ → Trace
  unfolding on_reply
  attempts zero attempt next = stop exhausted 0
  attempts (suc left) attempt next = with_sleep attempt next (elim (is_done attempt) [
    | true ↦ stop cancelled 0
    | false ↦ on_reply (reply attempt) (attempts left (attempt + 1))
  ])

  -- The loop runs MaxRetries + 1 times, and not at all if that is below 1.
  unfoldable pub send_with_retry : ℤ → Trace
  unfolding attempts
  send_with_retry (pos max_retries) = attempts (suc max_retries) 0 0
  send_with_retry (negsuc n) = stop exhausted 0
