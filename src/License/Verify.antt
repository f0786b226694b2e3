-- ===== src/License/Verify.antt =====
-- Inspect, verifyWithValidator and the functions that call it, of pkg/license/verifier.go. A result
-- is the status, which may be nil, and the error.
pub mod Laws
use otel_aws_log_processor.Prelude.{
  ℕ, ◌*◌, Bool, true, false, not, ◌&&◌, ◌||◌, List, [], ◌∷◌, ◌++◌, Option, none, some, ◌⊎◌, inl,
  inr, any, if◌then◌else◌, is_empty, Text, txt, concat, trim_space, ◌==◌,
}
use otel_aws_log_processor.Prelude.Assoc.{lookup}
use otel_aws_log_processor.Prelude.Int.{ℤ, pos}
use otel_aws_log_processor.Prelude.Strconv.{format_int}
use otel_aws_log_processor.License.Claims.{
  Claims, Limits, is_perpetual, is_in_grace_period_at, validate_claims_schema,
}
use otel_aws_log_processor.License.Days.{days_remaining_at, grace_days_remaining_at}
use otel_aws_log_processor.License.Error.{
  Error, Sentinel, invalid_license_format, license_revoked, plain, wrap,
}
use otel_aws_log_processor.License.Host.{
  Host, Validator, ValidatorOption, Failure, Verified, LibClaims, with_crl_url,
  with_require_revocation_list,
}
use otel_aws_log_processor.License.Quota.{Time, second}
use otel_aws_log_processor.License.Status.{ValidationStatus, Reason, bare}
use otel_aws_log_processor.License.Validator.{
  get_validator, default_validator_options, crl_source_options, made,
}

abbrev pub VerifyResult : Type 0
VerifyResult = Option ValidationStatus × Option Error

abbrev pub fails : Error → VerifyResult
fails e = (none, some e)

abbrev valid_schema : Claims → Option Error → Error ⊎ Claims
valid_schema c none = inr c
valid_schema c (some e) = inl e

unfoldable pub inspect : Host → Text → Error ⊎ Claims
unfolding validate_claims_schema
inspect h raw = elim (h.decode_claims raw) [
  | inl e ↦ inl e
  | inr c ↦ valid_schema c (validate_claims_schema (h.sentinel_text invalid_license_format) c)
]

abbrev or_zero : Option ℤ → ℤ
or_zero none = pos 0
or_zero (some n) = n

abbrev lib_limits : Option (List (Text × ℤ)) → Option Limits
lib_limits none = none
lib_limits (some m) = some (record {
  max_resources = or_zero (lookup (txt "max_resources") m);
  max_accounts = or_zero (lookup (txt "max_accounts") m);
  max_monthly_gb = or_zero (lookup (txt "max_monthly_gb") m);
  raw = m;
})

unfoldable pub claims_from_lib_claims : LibClaims → Claims
claims_from_lib_claims c = record {
  id = c.id;
  customer_name = c.customer_name;
  customer_org_id = c.customer_org_id;
  product = c.product;
  plan = c.plan;
  issued_at = c.issued_at;
  expires_at = c.expires_at;
  grace_period_days = c.grace_period_days;
  features = c.features;
  limits = lib_limits c.limits;
  scope = c.scope;
  metadata = c.metadata;
  tier_features = [];
}

abbrev grace_message : Host → Claims → ℤ → Text
grace_message h c days = concat (
    txt "License expired on "
    ∷ h.format_date c.expires_at
    ∷ txt "; currently operating within "
    ∷ format_int c.grace_period_days
    ∷ txt "-day grace period ("
    ∷ format_int days
    ∷ txt " days remaining)"
    ∷ [])

abbrev active_message : Claims → ℤ → Text
active_message c days =
    if is_perpetual (some c)
    then txt "Perpetual commercial license is valid and active"
    else concat
        (txt "License is valid and active (" ∷ format_int days ∷ txt " days remaining)" ∷ [])

-- The status of a license that is verified
unfoldable pub active_status : Host → Claims → Bool → ℤ → ValidationStatus
unfolding is_perpetual
active_status h c in_grace days = record {
  valid = true;
  in_grace_period = in_grace;
  days_remaining = days;
  quota_exceeded = false;
  throughput_exceeded = false;
  status_reason = if in_grace then Reason.grace_period else Reason.valid;
  message = if in_grace then grace_message h c days else active_message c days;
  claims = some c;
}

abbrev claims_option : Error ⊎ Claims → Option Claims
claims_option (inl e) = none
claims_option (inr c) = some c

abbrev is_revoked : Sentinel → Bool
is_revoked license_revoked = true
is_revoked s = false

abbrev is_expired : Sentinel → Bool
is_expired Sentinel.expired = true
is_expired s = false

abbrev failure_reason : Error → Reason
failure_reason e =
    if any is_revoked e.sentinels
    then Reason.revoked
    else if any is_expired e.sentinels
    then Reason.expired
    else Reason.invalid

abbrev failed_status : Error → Option Claims → VerifyResult
failed_status e c = (some (record (bare false (failure_reason e) e.message) { claims = c }), some e)

abbrev pub inspected_days : Host → Claims → Time → Bool → ℤ
inspected_days h c t true = grace_days_remaining_at h (some c) t
inspected_days h c t false = days_remaining_at h (some c) t

-- A mismatch of the scope alone is left to Enforce, if the claims can be read.
unfoldable pub on_failure : Host → Time → Failure → Error ⊎ Claims → VerifyResult
unfolding active_status is_in_grace_period_at
on_failure h t f (inl e) = failed_status f.error none
on_failure h t f (inr c) =
    let in_grace = is_in_grace_period_at (some c) t in
    if f.is_scope_mismatch
    then (some (active_status h c in_grace (inspected_days h c t in_grace)), none)
    else failed_status f.error (some c)

abbrev pub inspected_or : Verified → Error ⊎ Claims → Claims
inspected_or v (inl e) = claims_from_lib_claims v.claims
inspected_or v (inr c) = c

abbrev pub verified_days : Host → Claims → Verified → Time → ℤ
verified_days h c v t =
    if v.in_grace_period then v.grace_days_remaining else days_remaining_at h (some c) t

unfoldable pub on_success : Host → Time → Verified → Claims → VerifyResult
unfolding active_status
on_success h t v c = (some (active_status h c v.in_grace_period (verified_days h c v t)), none)

unfoldable pub judged_at : Host → Text → Time → Failure ⊎ Verified → VerifyResult
unfolding inspect
judged_at h token t (inl f) = on_failure h t f (inspect h token)
judged_at h token t (inr v) = on_success h t v (inspected_or v (inspect h token))

abbrev pub time_or_now : Host → Time → Time
time_or_now h t = if t == 0 then h.now else t

-- A validator that is not nil
unfoldable pub verify_with_validator : Host → Text → Validator → Time → VerifyResult
unfolding judged_at
verify_with_validator h token v t =
    if is_empty (trim_space token)
    then fails (plain (txt "license token cannot be empty"))
    else judged_at h (trim_space token) (time_or_now h t) (v (trim_space token) (time_or_now h t))

unfoldable pub verify_by : Host → Text → Text → Time → Error ⊎ Validator → VerifyResult
unfolding verify_with_validator
verify_by h token what t (inl e) = fails (wrap what e)
verify_by h token what t (inr v) = verify_with_validator h token v t

-- The default validator is the state.
unfoldable pub parse_and_verify_at :
    Host → Text → Option Validator → Text → Text → Time → Option Validator × VerifyResult
unfolding get_validator
parse_and_verify_at h crl_override v token key t =
    let (v', r) = get_validator h crl_override v key in
    (v', verify_by h token (txt "failed to initialize license validator") t r)

unfoldable pub parse_and_verify_with_crl : Host → Text → Text → Text → Time → Text → VerifyResult
unfolding default_validator_options
parse_and_verify_with_crl h crl_override token key t source =
    if is_empty (trim_space token)
    then fails (plain (txt "license token cannot be empty"))
    else verify_by h (trim_space token) (txt "failed to initialize license validator with CRL") t (
        made h key
          (default_validator_options h crl_override ++ crl_source_options h (trim_space source)))

-- Without a cache file argument, as Enforce calls it
unfoldable pub parse_and_verify_with_crl_url :
    Host → Text → Text → Text → Time → Text → VerifyResult
unfolding default_validator_options
parse_and_verify_with_crl_url h crl_override token key t url =
    if is_empty (trim_space token)
    then fails (plain (txt "license token cannot be empty"))
    else if is_empty (trim_space url)
    then fails (plain (txt "CRL URL cannot be empty"))
    else verify_by h (trim_space token) (txt "failed to initialize license validator with CRL URL")
        t
        (made h key (
          default_validator_options h crl_override
          ++ with_crl_url (trim_space url) (h.build.join_path h.temp_dir (txt "divmora-crl.cache"))
              (5 * second)
            ∷ with_require_revocation_list true
            ∷ []))
