-- ===== src/License/Days.antt =====
-- The days that remain, of pkg/license/model.go
use otel_aws_log_processor.Prelude.{
  ℕ, ◌-◌, ◌^◌, not, ◌||◌, Option, none, some, leb, ltb, if◌then◌else◌,
}
use otel_aws_log_processor.Prelude.Int.{ℤ, pos, negsuc}
use otel_aws_log_processor.License.Claims.{
  Claims, is_perpetual, is_in_grace_period_at, effective_expiration,
}
use otel_aws_log_processor.License.Host.{Host}
use otel_aws_log_processor.License.Quota.{Time}

-- a.Sub(b) of a time a after b: a Duration has at most 2^63 - 1 nanoseconds.
abbrev pub sub_time : Time → Time → ℕ
sub_time a b = if ltb (2 ^ 63 - 1) (a - b) then 2 ^ 63 - 1 else a - b

abbrev days_until : Host → Time → Time → ℤ
days_until h end t = if leb end t then pos 0 else h.whole_days (sub_time end t)

unfoldable pub days_remaining_at : Host → Option Claims → Time → ℤ
unfolding is_perpetual
days_remaining_at h none t = negsuc 0
days_remaining_at h (some c) t =
    if is_perpetual (some c) then negsuc 0 else days_until h c.expires_at t

unfoldable pub grace_days_remaining_at : Host → Option Claims → Time → ℤ
unfolding is_in_grace_period_at effective_expiration is_perpetual
grace_days_remaining_at h none t = pos 0
grace_days_remaining_at h (some c) t =
    if is_perpetual (some c) || not (is_in_grace_period_at (some c) t)
    then pos 0
    else days_until h (effective_expiration (some c)) t
