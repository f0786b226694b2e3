-- ===== src/License/Enforce/NonProd.antt =====
-- The non-production exemption of Enforce, without a token
use otel_aws_log_processor.Prelude.{
  ℕ, Bool, true, false, ◌&&◌, List, [], ◌∷◌, Option, none, some, ltb, ◌==◌, if◌then◌else◌, length,
  Text, txt, concat,
}
use otel_aws_log_processor.Prelude.Int.{ℤ}
use otel_aws_log_processor.Prelude.Strconv.{format_nat, format_int}
use otel_aws_log_processor.License.Claims.{resolve_entitlement_key}
use otel_aws_log_processor.License.Error.{
  Error, Sentinel, commercial_license_required, is_deterministic,
}
use otel_aws_log_processor.License.Host.{Host}
use otel_aws_log_processor.License.Quota.{
  Time, QuotaTracker, check_batch_density, record_and_check_container_quota,
}
use otel_aws_log_processor.License.Registry.Count.{register_and_count}
use otel_aws_log_processor.License.Registry.Types.{CloudWatchRegistry}
use otel_aws_log_processor.License.Resources.{ResourceTracker, track_all, count}
use otel_aws_log_processor.License.Status.{Reason, bare}
use otel_aws_log_processor.License.Verify.{VerifyResult}
use otel_aws_log_processor.License.Enforce.Context.{Context}
use otel_aws_log_processor.License.Enforce.Options.{EnforcementOptions, Container, EnforceOutcome}

-- fmt.Errorf("%s: %w", message, sentinel)
abbrev pub wrap_sentinel : Host → Text → Sentinel → Error
wrap_sentinel h m s = record {
  sentinels = s ∷ [];
  message = concat (m ∷ txt ": " ∷ h.sentinel_text s ∷ []);
}

abbrev suspected_message : Context → Text → Text
suspected_message x reason = concat (
    txt "COMMERCIAL LICENSE REQUIRED: Environment declared as non-production '"
    ∷ x.env
    ∷ txt "', but production indicators were detected ("
    ∷ reason
    ∷ txt "). Please obtain a license from licensing@divmora.com"
    ∷ [])

unfoldable pub suspected : Host → Context → Text → VerifyResult
suspected h x reason =
    let m = suspected_message x reason in
    if x.is_strict
    then (
      some (bare false Reason.unlicensed_production m),
      some (wrap_sentinel h m commercial_license_required),
    )
    else (some (bare true Reason.suspected_production m), none)

abbrev density_reason : QuotaTracker → ℕ → Text
density_reason q n = concat (
    txt "batch record count ("
    ∷ format_nat n
    ∷ txt ") exceeds non-production density ceiling ("
    ∷ format_int q.max_batch_records
    ∷ txt ")"
    ∷ [])

abbrev container_reason : QuotaTracker → ℤ → Text
container_reason q total = concat (
    txt "cumulative container records ("
    ∷ format_int total
    ∷ txt ") exceeds non-production fair-use ceiling ("
    ∷ format_int q.max_container_records
    ∷ txt ")"
    ∷ [])

-- The later reason replaces the earlier one.
abbrev container_checked : QuotaTracker → ℕ → Option Text → QuotaTracker × Option Text
container_checked q n earlier =
    let (q', exceeded, total) = record_and_check_container_quota q n in
    (q', if exceeded then some (container_reason q total) else earlier)

unfoldable pub records_checked : QuotaTracker → ℕ → QuotaTracker × Option Text
unfolding record_and_check_container_quota check_batch_density
records_checked q n =
    container_checked q n (if check_batch_density q n then some (density_reason q n) else none)

abbrev checked_tracker : QuotaTracker × Option Text → Option QuotaTracker × Option Text
checked_tracker (q, reason) = (some q, reason)

-- The fair-use ceilings: the tracker, and the reason if one is exceeded
unfoldable pub fair_use : Option QuotaTracker → ℕ → Option QuotaTracker × Option Text
unfolding records_checked
fair_use none n = (none, none)
fair_use (some q) n = if n == 0 then (some q, none) else checked_tracker (records_checked q n)

unfoldable pub track_sources : Option ResourceTracker → List Text → Option ResourceTracker
unfolding track_all
track_sources none arns = none
track_sources (some rt) arns = some (track_all rt arns)

unfoldable pub local_count : Option ResourceTracker → List Text → ℕ
unfolding count
local_count none arns = length arns
local_count (some rt) arns = count rt

abbrev pub Counting : Type 0
Counting = Container × ℕ × Option Error

abbrev registered : Container → CloudWatchRegistry × ℕ × Option Error → Counting
registered c (r, n, err) = (record c { cloudwatch_registry = some r }, n, err)

-- The registry counts if it is there and asked for, or else the tracker, or else the list itself.
unfoldable pub active_resources :
    Host → Container → Option CloudWatchRegistry → Text → List Text → Time → Counting
unfolding register_and_count local_count
active_resources h c none key arns t = (c, local_count c.resource_tracker arns, none)
active_resources h c (some r) key arns t =
    registered c (register_and_count h.cloudwatch r key arns t)

abbrev pub default_max_non_prod_resources : ℕ
default_max_non_prod_resources = 10

abbrev resource_reason : ℕ → Text
resource_reason n = concat (
    txt "active monitored resources ("
    ∷ format_nat n
    ∷ txt ") exceeds non-production free limit (10); a commercial or trial license key is "
    ∷ txt "required to monitor >10 resources"
    ∷ [])

abbrev with_resources : ℕ → Option Text → Option Text
with_resources n reason =
    if ltb default_max_non_prod_resources n then some (resource_reason n) else reason

abbrev in_env : Context → List Text → Text
in_env x rest = concat (txt "Non-production environment '" ∷ x.env ∷ rest)

unfoldable pub non_prod_result : Host → Context → Option Text → VerifyResult
non_prod_result h x none = (
  some (
      bare true Reason.non_prod_free
        (in_env x (txt "' authorized free of charge under BSL 1.1 Additional Use Grant" ∷ []))),
  none,
)
non_prod_result h x (some reason) =
    let m = in_env x (txt "' active, but fair-use volume ceiling was exceeded: " ∷ reason ∷ []) in
    if x.is_strict
    then (
      some (record (bare false Reason.quota_exceeded m) { quota_exceeded = true }),
      some (wrap_sentinel h m Sentinel.resource_quota_exceeded),
    )
    else (some (record (bare true Reason.quota_exceeded m) { quota_exceeded = true }), none)

-- The registry's error, if it ends the call
abbrev pub fatal : Bool → Option Error → Option Error
fatal strict none = none
fatal strict (some e) = if strict && is_deterministic e then some e else none

unfoldable pub non_prod_counted : Host → Context → Option Text → Counting → EnforceOutcome
unfolding non_prod_result
non_prod_counted h x reason (c, n, err) = elim (fatal x.is_strict err) [
  | some e ↦ (c, (some (bare false Reason.registry_error e.message), some e))
  | none ↦ (c, non_prod_result h x (with_resources n reason))
]

abbrev pub free_key : Host → Context → Text
free_key h x = resolve_entitlement_key h.is_non_production h.env none x.env (x.project ∷ [])

abbrev pub non_prod_counting : Host → EnforcementOptions → Context → Container → Counting
non_prod_counting h o x c =
    active_resources h c c.cloudwatch_registry (free_key h x) o.source_resource_arns x.time

abbrev pub tracked : Container → Option QuotaTracker → List Text → Container
tracked c q arns = record c {
  quota_tracker = q;
  resource_tracker = track_sources c.resource_tracker arns;
}

abbrev pub fair_of : EnforcementOptions → Container → Option QuotaTracker × Option Text
fair_of o c = fair_use c.quota_tracker o.batch_record_count

unfoldable pub non_prod : Host → EnforcementOptions → Context → Container → EnforceOutcome
non_prod h o x c =
    non_prod_counted h x (fair_of o c).1
      (non_prod_counting h o x (tracked c (fair_of o c).0 o.source_resource_arns))
