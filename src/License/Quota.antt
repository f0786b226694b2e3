-- ===== src/License/Quota.antt =====
-- QuotaTracker of pkg/license/quota.go. Its atomic fields are int64; a time is the number of
-- nanoseconds since year 1, which is 0 for Go's zero time.
pub mod Laws
use otel_aws_log_processor.Prelude.{
  ℕ, ◌+◌, ◌/◌, Bool, true, false, ◌&&◌, ◌||◌, not, none, some, String, Text, txt, text_eq,
  if◌then◌else◌, is_empty,
}
use otel_aws_log_processor.Prelude.Int.{
  ℤ, pos, pos_part, neg_part, ltb_ℤ, leb_ℤ, eq_ℤ, add64, wrap64, mul_ℕ, sub_ℕ,
}
use otel_aws_log_processor.Prelude.Strconv
use otel_aws_log_processor.Prelude.Strconv.{Parsed}
use otel_aws_log_processor.Utils.Env.{Environ}

abbrev pub Time : Type 0
Time = ℕ

abbrev pub second : ℕ
second = 1_000_000_000

-- Time.Unix
abbrev pub unix : Time → ℤ
unix t = sub_ℕ (t / second) 62135596800

pub record QuotaTracker : Type 0 where
  pub container_records : ℤ
  pub bytes_processed : ℤ
  pub compressed_bytes : ℤ
  pub max_batch_records : ℤ
  pub max_container_records : ℤ
  pub last_warning_time : ℤ
  pub throughput_exceeded : Bool

abbrev pub default_max_non_prod_batch_records : ℤ
default_max_non_prod_batch_records = pos 10_000

abbrev pub default_max_non_prod_container_records : ℤ
default_max_non_prod_container_records = pos 25_000

abbrev pub positive_or : Parsed → ℤ → ℤ
positive_or p fallback = elim p.err [
  | some e ↦ fallback
  | none ↦ if leb_ℤ p.value (pos 0) then fallback else p.value
]

unfoldable pub get_env_int64 : Environ → String → ℤ → ℤ
get_env_int64 env key fallback =
    if is_empty (env key) then fallback else positive_or (Strconv.parse_int (env key)) fallback

-- An environment variable can lower a ceiling, and not raise it.
abbrev pub capped : ℤ → ℤ → ℤ
capped ceiling n = if ltb_ℤ ceiling n then ceiling else n

unfoldable pub new_quota_tracker : Environ → QuotaTracker
unfolding get_env_int64
new_quota_tracker env = record {
  container_records = pos 0;
  bytes_processed = pos 0;
  compressed_bytes = pos 0;
  max_batch_records =
      capped default_max_non_prod_batch_records
        (get_env_int64 env "DIVMORA_NON_PROD_MAX_BATCH" default_max_non_prod_batch_records);
  max_container_records =
      capped default_max_non_prod_container_records
        (get_env_int64 env "DIVMORA_NON_PROD_MAX_CONTAINER" default_max_non_prod_container_records);
  last_warning_time = pos 0;
  throughput_exceeded = false;
}

unfoldable pub record_bytes : QuotaTracker → ℤ → QuotaTracker × ℤ
unfolding add64
record_bytes q n =
    if leb_ℤ n (pos 0)
    then (q, q.bytes_processed)
    else (record q { bytes_processed = add64 q.bytes_processed n }, add64 q.bytes_processed n)

unfoldable pub record_compressed_bytes : QuotaTracker → ℤ → QuotaTracker × ℤ
unfolding add64
record_compressed_bytes q n =
    if leb_ℤ n (pos 0)
    then (q, q.compressed_bytes)
    else (record q { compressed_bytes = add64 q.compressed_bytes n }, add64 q.compressed_bytes n)

unfoldable pub set_throughput_exceeded : QuotaTracker → Bool → QuotaTracker
set_throughput_exceeded q exceeded = record q { throughput_exceeded = exceeded }

-- int64(maxMonthlyGB) * 1_000_000_000
abbrev ceiling_bytes : ℤ → ℤ
ceiling_bytes gb = wrap64 (mul_ℕ gb second)

abbrev exceeds : Parsed → ℤ → Bool
exceeds p bound = elim p.err [ some e ↦ false | none ↦ ltb_ℤ bound p.value ]

abbrev env_exceeds : Text → ℤ → Bool
env_exceeds s bound = not (is_empty s) && exceeds (Strconv.parse_int s) bound

abbrev over_container_bytes : ℤ → ℤ → Bool
over_container_bytes bound total = ltb_ℤ (pos 0) bound && ltb_ℤ bound total

unfoldable pub check_throughput_quota : Environ → QuotaTracker → ℤ → Bool
unfolding get_env_int64
check_throughput_quota env q gb =
    if leb_ℤ gb (pos 0)
    then false
    else q.throughput_exceeded
      || text_eq (env "DIVMORA_THROUGHPUT_EXCEEDED") (txt "true")
      || text_eq (env "DIVMORA_FAIR_USE_EXCEEDED") (txt "true")
      || env_exceeds (env "DIVMORA_MONTHLY_USAGE_GB") gb
      || env_exceeds (env "DIVMORA_MONTHLY_USAGE_BYTES") (ceiling_bytes gb)
      || over_container_bytes (get_env_int64 env "DIVMORA_MAX_CONTAINER_BYTES" (pos 0))
          q.bytes_processed
      || ltb_ℤ (ceiling_bytes gb) q.bytes_processed

-- nowSec - last in int64
abbrev pub elapsed : ℤ → ℤ → ℤ
elapsed now last = wrap64 (sub_ℕ (pos_part now + neg_part last) (neg_part now + pos_part last))

unfoldable pub is_due : QuotaTracker → Time → Bool
is_due q now =
    eq_ℤ q.last_warning_time (pos 0) || leb_ℤ (pos 3600) (elapsed (unix now) q.last_warning_time)

-- One caller alone: its CompareAndSwap succeeds.
unfoldable pub should_emit_fair_use_warning_at : QuotaTracker → Time → QuotaTracker × Bool
unfolding is_due
should_emit_fair_use_warning_at q now =
    if is_due q now then (record q { last_warning_time = unix now }, true) else (q, false)

-- The logging itself is output. The two functions have the same result.
unfoldable pub log_fair_use_warning_at : QuotaTracker → Time → QuotaTracker × Bool
unfolding should_emit_fair_use_warning_at
log_fair_use_warning_at q now = should_emit_fair_use_warning_at q now

unfoldable pub reset_warning_time : QuotaTracker → QuotaTracker
reset_warning_time q = record q { last_warning_time = pos 0 }

unfoldable pub check_batch_density : QuotaTracker → ℕ → Bool
check_batch_density q batch_count = ltb_ℤ q.max_batch_records (pos batch_count)

unfoldable pub record_and_check_container_quota : QuotaTracker → ℕ → QuotaTracker × Bool × ℤ
unfolding add64
record_and_check_container_quota q batch_count =
    let total = add64 q.container_records (pos batch_count) in
    (record q { container_records = total }, ltb_ℤ q.max_container_records total, total)
