-- ===== src/License/Quota/Laws.antt =====
-- The ceilings, the container count and the rate of warnings of pkg/license/quota.go.
use otel_aws_log_processor.Prelude.{
  ℕ, ◌+◌, ◌/◌, ◌^◌, ◌≤◌, ◌<◌, ◌≡◌, refl, ap, ◌∙◌, Bool, true, false, List, [], ◌∷◌, String,
  if◌then◌else◌, arith,
}
use otel_aws_log_processor.Prelude.Int.{ℤ, pos, ltb_ℤ, leb_ℤ, eq_ℤ, ◌≤ℤ◌, ◌<ℤ◌, add64_small, sub_ℕ}
use otel_aws_log_processor.Prelude.Strconv
use otel_aws_log_processor.Prelude.Strconv.{Parsed}
use otel_aws_log_processor.Utils.Env.{Environ}
use otel_aws_log_processor.License.Quota.{
  Time, second, unix, QuotaTracker, positive_or, capped, elapsed, get_env_int64, new_quota_tracker,
  is_due, should_emit_fair_use_warning_at, record_and_check_container_quota,
}

positive_or-positive : (p : Parsed) (n : ℕ) → 0 < n → pos 0 <ℤ positive_or p (pos n)
positive_or-positive p n h = ground arith

get_env_int64-positive :
    (env : Environ) (key : String) (n : ℕ) → 0 < n → pos 0 <ℤ get_env_int64 env key (pos n)
unfolding get_env_int64
get_env_int64-positive env key n h =
    ground (arith, positive_or-positive (Strconv.parse_int (env key)) n)

abbrev pub InRange : ℤ → ℕ → Type 0
InRange z n = (pos 0 <ℤ z) × (z ≤ℤ pos n)

capped-InRange : (n : ℕ) (z : ℤ) → 0 < n → pos 0 <ℤ z → InRange (capped (pos n) z) n
capped-InRange n z h k = ground arith

-- Whatever the environment says, a new tracker allows between 1 and 10,000 records in a batch and
-- between 1 and 25,000 in a container: a variable can lower these ceilings and not raise them.
pub new_quota_tracker-ceilings :
    (env : Environ)
    → InRange (new_quota_tracker env).max_batch_records 10_000
      × InRange (new_quota_tracker env).max_container_records 25_000
unfolding new_quota_tracker
new_quota_tracker-ceilings env = (
  capped-InRange 10_000 _ (omega arith)
      (get_env_int64-positive env "DIVMORA_NON_PROD_MAX_BATCH" 10_000 (omega arith)),
  capped-InRange 25_000 _ (omega arith)
      (get_env_int64-positive env "DIVMORA_NON_PROD_MAX_CONTAINER" 25_000 (omega arith)),
)

abbrev pub sum : List ℕ → ℕ
sum [] = 0
sum (n ∷ ns) = n + sum ns

-- The tracker after some batches, each counted by RecordAndCheckContainerQuota.
unfoldable pub after_batches : QuotaTracker → List ℕ → QuotaTracker
after_batches q [] = q
after_batches q (n ∷ ns) = after_batches (record_and_check_container_quota q n).0 ns

record-total :
    (q : QuotaTracker) (c n : ℕ)
    → q.container_records ≡ pos c
    → c + n < 2 ^ 63
    → ((record_and_check_container_quota q n).0.container_records ≡ pos (c + n))
      × ((record_and_check_container_quota q n).1 ≡ ltb_ℤ q.max_container_records (pos (c + n)))
unfolding record_and_check_container_quota
record-total q c n p h = (rw (p) (add64_small c n h), rw (p, add64_small c n h) refl)

record-max :
    (q : QuotaTracker) (n : ℕ)
    → (record_and_check_container_quota q n).0.max_container_records ≡ q.max_container_records
unfolding record_and_check_container_quota
record-max q n = refl

after_batches-total :
    (ns : List ℕ) (q : QuotaTracker) (c : ℕ)
    → q.container_records ≡ pos c
    → c + sum ns < 2 ^ 63
    → (after_batches q ns).container_records ≡ pos (c + sum ns)
unfolding after_batches
after_batches-total [] q c p h = p ∙ ap pos (omega arith)
after_batches-total (n ∷ ns) q c p h =
    after_batches-total ns (record_and_check_container_quota q n).0 (c + n)
      (record-total q c n p (omega arith)).0 (omega arith)
    ∙ ap pos (omega arith)

after_batches-max :
    (ns : List ℕ) (q : QuotaTracker)
    → (after_batches q ns).max_container_records ≡ q.max_container_records
unfolding after_batches
after_batches-max [] q = refl
after_batches-max (n ∷ ns) q =
    after_batches-max ns (record_and_check_container_quota q n).0 ∙ record-max q n

-- In a new container, the batch of `n` records that follows batches of any sizes is reported as
-- over the quota exactly if all records so far, its own included, are more than the ceiling; the
-- number of records stays below 2^63.
pub container_quota-counts_all :
    (env : Environ) (ns : List ℕ) (n : ℕ)
    → sum ns + n < 2 ^ 63
    → (record_and_check_container_quota (after_batches (new_quota_tracker env) ns) n).1
      ≡ ltb_ℤ (new_quota_tracker env).max_container_records (pos (sum ns + n))
unfolding new_quota_tracker
container_quota-counts_all env ns n h =
    let q = new_quota_tracker env in
    (record-total (after_batches q ns) (sum ns) n
      (after_batches-total ns q 0 refl (omega arith) ∙ ap pos (omega arith)) h).1
    ∙ rw (after_batches-max ns q) refl

-- The whole seconds of a time, since year 1.
abbrev pub seconds : Time → ℕ
seconds t = t / second

elapsed-short :
    (a b k : ℕ) → a ≤ b → b < a + 3600 → leb_ℤ (pos 3600) (elapsed (sub_ℕ b k) (sub_ℕ a k)) ≡ false
elapsed-short a b k l h = ground arith

abbrev emission : QuotaTracker → Time → Bool → QuotaTracker × Bool
emission q now b = if b then (record q { last_warning_time = unix now }, true) else (q, false)

stamped :
    (q : QuotaTracker) (now : Time) (b : Bool)
    → (emission q now b).1 ≡ true
    → (emission q now b).0 ≡ record q { last_warning_time = unix now }
stamped q now true h = refl
stamped q now false h = ground arith

emitted :
    (q : QuotaTracker) (now : Time)
    → (should_emit_fair_use_warning_at q now).1 ≡ true
    → (should_emit_fair_use_warning_at q now).0 ≡ record q { last_warning_time = unix now }
unfolding should_emit_fair_use_warning_at
emitted q now h = stamped q now (is_due q now) h

held :
    (q : QuotaTracker) (now : Time)
    → is_due q now ≡ false
    → should_emit_fair_use_warning_at q now ≡ (q, false)
unfolding should_emit_fair_use_warning_at
held q now h = rw (should_emit_fair_use_warning_at, h) refl

not_due :
    (q : QuotaTracker) (first later : Time)
    → eq_ℤ (unix first) (pos 0) ≡ false
    → leb_ℤ (pos 3600) (elapsed (unix later) (unix first)) ≡ false
    → is_due (record q { last_warning_time = unix first }) later ≡ false
unfolding is_due
not_due q first later z e = rw (z, e) refl

-- Once a fair-use warning is out, a second one within the next 3,600 seconds is held back, and the
-- tracker is left as it is; the first is not in the second of the Unix epoch, whose stamp 0 stands
-- for no warning at all.
pub should_emit-rate :
    (q : QuotaTracker) (first later : Time)
    → (should_emit_fair_use_warning_at q first).1 ≡ true
    → eq_ℤ (unix first) (pos 0) ≡ false
    → seconds first ≤ seconds later
    → seconds later < seconds first + 3600
    → should_emit_fair_use_warning_at (should_emit_fair_use_warning_at q first).0 later
      ≡ ((should_emit_fair_use_warning_at q first).0, false)
should_emit-rate q first later h z l k = rw (emitted q first h) (
    held (record q { last_warning_time = unix first }) later
      (not_due q first later z (elapsed-short (seconds first) (seconds later) 62135596800 l k)))
