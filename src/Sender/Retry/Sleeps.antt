-- ===== src/Sender/Retry/Sleeps.antt =====
-- How long sendWithRetry of pkg/sender/otlp_client.go sleeps.
use otel_aws_log_processor.Prelude.{
  ℕ, zero, suc, ◌+◌, ◌*◌, ◌/◌, ◌^◌, ◌≤◌, ◌<◌, ◌≡◌, Bool, true, false, ◌==◌, if◌then◌else◌, List, [],
  ◌∷◌,
}
use otel_aws_log_processor.Sender.Retry.{
  Reply, network_error, http, cancelled, Trace, retry_after, on_reply, attempts, stop,
}

-- Step `i` of the exponential backoff, in nanoseconds
abbrev pub step_ns : ℕ → ℕ → ℕ
step_ns base_ms i = base_ms * 2 ^ i / 1000 * 1_000_000_000

-- No step below `last` leaves an int64.
abbrev pub FitsInt64 : ℕ → ℕ → Type 0
FitsInt64 base_ms last = (i : ℕ) → i < last → (2 ^ i < 2 ^ 63) × (step_ns base_ms i < 2 ^ 63)

module _ (base_ms : ℕ) (is_done : ℕ → Bool) (reply : ℕ → Reply) where
  -- What the reply to an attempt asks for, in seconds, if anything
  abbrev pub asked : Reply → ℕ
  asked network_error = 0
  asked (http status header) = retry_after header

  -- The sleep after the attempt `i`
  abbrev pub sleep_after : ℕ → ℕ
  sleep_after i =
      if asked (reply i) == 0 then step_ns base_ms i else asked (reply i) * 1_000_000_000

  -- The sleeps after `n` attempts from the attempt `i`
  abbrev pub sleeps_after : ℕ → ℕ → List ℕ
  sleeps_after i zero = []
  sleeps_after i (suc n) = sleep_after i ∷ sleeps_after (i + 1) n

  -- The sleeps of a trace are those after some attempts from the attempt `i`.
  abbrev pub SleepsFrom : ℕ → ℕ → Trace → Type 0
  SleepsFrom i most t = (n : ℕ) × (n ≤ most) × (t.sleeps ≡ sleeps_after i n)

  abbrev attempt_at : ℕ → ℕ → Trace
  attempt_at left attempt = elim (is_done attempt) as (λ x. Trace) [
    | true ↦ stop base_ms is_done reply cancelled 0
    | false ↦
        on_reply base_ms is_done reply (reply attempt)
          (attempts base_ms is_done reply left (attempt + 1))
  ]
