-- ===== src/License/Enforce/Commercial.antt =====
-- The path of Enforce with a commercial license
use otel_aws_log_processor.Prelude.{
  ℕ, Bool, true, false, not, ◌&&◌, ◌||◌, [], ◌∷◌, Option, none, some, ◌⊎◌, inl, inr, if◌then◌else◌,
  is_empty, Text, txt, concat,
}
use otel_aws_log_processor.Prelude.Int.{ℤ, pos, ltb_ℤ}
use otel_aws_log_processor.Prelude.Strconv.{format_nat, format_int}
use otel_aws_log_processor.License.Claims.{
  resolve_entitlement_key, get_max_resources, get_max_monthly_gb,
}
use otel_aws_log_processor.License.Error.{Error, Sentinel, plain, wrap}
use otel_aws_log_processor.License.Host.{Host, Validator}
use otel_aws_log_processor.License.Quota.{
  Time, QuotaTracker, check_throughput_quota, log_fair_use_warning_at,
}
use otel_aws_log_processor.License.Registry.Types.{CloudWatchRegistry}
use otel_aws_log_processor.License.Status.{ValidationStatus, Reason, bare}
use otel_aws_log_processor.License.Token.{resolve_token, extract_caller_account_id}
use otel_aws_log_processor.License.Verify.{
  VerifyResult, fails, parse_and_verify_at, parse_and_verify_with_crl,
  parse_and_verify_with_crl_url,
}
use otel_aws_log_processor.License.Enforce.Checks.{
  Rejection, reject, free_status, scope_check, project_check,
}
use otel_aws_log_processor.License.Enforce.Context.{Context, is_free}
use otel_aws_log_processor.License.Enforce.NonProd.{
  wrap_sentinel, fatal, tracked, active_resources, Counting,
}
use otel_aws_log_processor.License.Enforce.Options.{EnforcementOptions, Container, EnforceOutcome}

unfoldable pub caller_of : Host → EnforcementOptions → Text
unfolding extract_caller_account_id
caller_of h o =
    if is_empty o.caller_account_id then extract_caller_account_id h else o.caller_account_id

abbrev pub missing_message : Text
missing_message =
    txt
      "COMMERCIAL LICENSE REQUIRED: Running in production without a valid commercial license. Please obtain a license from licensing@divmora.com or visit https://divmora.com"

unfoldable pub missing_token : Context → VerifyResult
missing_token x = (
  some (bare false Reason.unlicensed_production missing_message),
  if x.is_strict then some (plain missing_message) else none,
)

abbrev pub with_validator : Container → Option Validator × VerifyResult → EnforceOutcome
with_validator c (v, r) = (record c { default_validator = v }, r)

-- An explicit revocation list, or else its URL, or else the default validator
unfoldable pub verify_token : Host → EnforcementOptions → Context → Container → EnforceOutcome
unfolding parse_and_verify_at parse_and_verify_with_crl parse_and_verify_with_crl_url
verify_token h o x c =
    if not (is_empty o.crl) || not (is_empty o.crl_file)
    then (
      c,
      parse_and_verify_with_crl h c.crl_override x.token o.public_key x.time
          (if is_empty o.crl then o.crl_file else o.crl),
    )
    else if not (is_empty o.crl_url)
    then (c, parse_and_verify_with_crl_url h c.crl_override x.token o.public_key x.time o.crl_url)
    else with_validator c
        (parse_and_verify_at h c.crl_override c.default_validator x.token o.public_key x.time)

unfoldable pub unverified : Context → Option ValidationStatus → Error → VerifyResult
unfolding free_status
unverified x s e =
    if x.is_strict
    then (s, some (wrap (txt "commercial license verification failed") e))
    else if is_free x
    then (
      some (
          free_status x (concat (txt "commercial license failed verification: " ∷ e.message ∷ []))),
      none,
    )
    else (s, none)

abbrev quota_message : ℕ → ℤ → Text → Text
quota_message n max key = concat (
    txt "COMMERCIAL LICENSE RESOURCE QUOTA EXCEEDED: Active monitored resources ("
    ∷ format_nat n
    ∷ txt ") exceeds authorized quota ("
    ∷ format_int max
    ∷ txt ") for entitlement '"
    ∷ key
    ∷ txt "'"
    ∷ [])

abbrev quota_rejection : Host → Text → Rejection
quota_rejection h m = record {
  reason = Reason.resource_quota_exceeded;
  message = m;
  error = wrap_sentinel h m Sentinel.resource_quota_exceeded;
  falls_back = false;
}

unfoldable pub quota_check : Host → ℕ → ℤ → Text → Option Rejection
quota_check h n max key =
    if ltb_ℤ (pos 0) max && ltb_ℤ max (pos n)
    then some (quota_rejection h (quota_message n max key))
    else none

unfoldable pub over_throughput :
    QuotaTracker → Time → Bool → ValidationStatus → Option QuotaTracker × ValidationStatus
unfolding log_fair_use_warning_at
over_throughput q t false s = (some q, s)
over_throughput q t true s =
    (some (log_fair_use_warning_at q t).0, record s { throughput_exceeded = true })

-- A breach of the throughput ceiling is marked, and does not make the status invalid.
unfoldable pub throughput :
    Host
    → Option QuotaTracker
    → Time
    → ℤ
    → ValidationStatus
    → Option QuotaTracker × ValidationStatus
unfolding check_throughput_quota over_throughput
throughput h none t gb s = (none, s)
throughput h (some q) t gb s =
    over_throughput q t (ltb_ℤ (pos 0) gb && check_throughput_quota h.env q gb) s

abbrev pub with_throughput : Container → Option QuotaTracker × ValidationStatus → EnforceOutcome
with_throughput c (q, s) = (record c { quota_tracker = q }, (some s, none))

unfoldable pub after_quota :
    Host → Context → Container → ValidationStatus → Option Rejection → EnforceOutcome
unfolding reject throughput get_max_monthly_gb
after_quota h x c s (some r) = (c, reject x s r)
after_quota h x c s none =
    with_throughput c (throughput h c.quota_tracker x.time (get_max_monthly_gb s.claims) s)

unfoldable pub counted : Host → Context → ValidationStatus → Text → Counting → EnforceOutcome
unfolding quota_check get_max_resources after_quota
counted h x s key (c, n, err) = elim (fatal x.is_strict err) [
  | some e ↦ (c, (some s, some e))
  | none ↦ after_quota h x c s (quota_check h n (get_max_resources s.claims) key)
]

-- The registry counts only for a license with a limit on resources.
unfoldable pub registry_for : Container → ValidationStatus → Option CloudWatchRegistry
unfolding get_max_resources
registry_for c s =
    if ltb_ℤ (pos 0) (get_max_resources s.claims) then c.cloudwatch_registry else none

unfoldable pub entitlement_key : Host → Context → ValidationStatus → Text
unfolding resolve_entitlement_key
entitlement_key h x s =
    resolve_entitlement_key h.is_non_production h.env s.claims x.env (x.project ∷ [])

unfoldable pub after_project :
    Host
    → EnforcementOptions
    → Context
    → Container
    → ValidationStatus
    → Option Rejection
    → EnforceOutcome
unfolding reject counted active_resources entitlement_key registry_for
after_project h o x c s (some r) = (c, reject x s r)
after_project h o x c s none =
    counted h x s (entitlement_key h x s) (
      active_resources h c (registry_for c s) (entitlement_key h x s) o.source_resource_arns x.time)

-- The resources are tracked once the scope is checked, and before the project is.
unfoldable pub after_scope :
    Host
    → EnforcementOptions
    → Context
    → Container
    → ValidationStatus × Option Rejection
    → EnforceOutcome
unfolding reject project_check after_project
after_scope h o x c (s, some r) = (c, reject x s r)
after_scope h o x c (s, none) =
    after_project h o x (tracked c c.quota_tracker o.source_resource_arns) s
      (project_check h s.claims x.project)

abbrev pub scoped :
    Host → EnforcementOptions → Context → ValidationStatus → ValidationStatus × Option Rejection
scoped h o x s =
    scope_check h x.env (caller_of h o) o.source_account_ids o.exercised_features
      o.source_resource_arns s

unfoldable pub verified :
    Host → EnforcementOptions → Context → Container → ValidationStatus → EnforceOutcome
unfolding after_scope
verified h o x c s = after_scope h o x c (scoped h o x s)

-- A verification without an error has a status.
unfoldable pub after_verification :
    Host → EnforcementOptions → Context → EnforceOutcome → EnforceOutcome
unfolding unverified verified
after_verification h o x (c, (s, some e)) = (c, unverified x s e)
after_verification h o x (c, (none, none)) = (c, (none, none))
after_verification h o x (c, (some s, none)) = verified h o x c s

-- The error of resolving the token counts in strict mode only.
unfoldable pub with_token :
    Host → EnforcementOptions → Context → Container → Error ⊎ Text → EnforceOutcome
unfolding missing_token verify_token after_verification
with_token h o x c (inl e) = (c, if x.is_strict then fails e else missing_token x)
with_token h o x c (inr t) =
    if is_empty t then (c, missing_token x) else after_verification h o x (verify_token h o x c)

unfoldable pub commercial : Host → EnforcementOptions → Context → Container → EnforceOutcome
unfolding resolve_token with_token
commercial h o x c = with_token h o x c (resolve_token h o.license_key o.license_file)
