-- ===== src/License/Claims.antt =====
-- Claims and Limits of pkg/license/model.go, with the fields that the functions below read; a
-- claims pointer that may be nil is an option, and a nil map has no entries. Times are in UTC, so
-- AddDate adds whole days. The test for a non-production environment is a call of the external
-- license library, and a parameter.
pub mod Laws
use otel_aws_log_processor.Prelude.{
  ℕ, ◌+◌, ◌*◌, Bool, true, false, not, ◌&&◌, List, [], ◌∷◌, ◌++◌, Option, none, some, ltb, ◌==◌,
  if◌then◌else◌, is_empty, Text, txt, trim_space, to_lower, equal_fold,
}
use otel_aws_log_processor.Prelude.Int.{ℤ, pos, negsuc, ltb_ℤ, leb_ℤ}
use otel_aws_log_processor.Prelude.Assoc.{lookup}
use otel_aws_log_processor.Utils.Env.{Environ}
use otel_aws_log_processor.License.Error.{Error, invalid_license_format}
use otel_aws_log_processor.License.Quota.{Time, second}

pub record Limits : Type 0 where
  pub max_resources : ℤ
  pub max_accounts : ℤ
  pub max_monthly_gb : ℤ
  pub raw : List (Text × ℤ)

-- The part of the external library's LicenseScope that this program reads.
pub record LicenseScope : Type 0 where
  pub accounts : List Text
  pub resources : List Text

pub record Claims : Type 0 where
  pub id : Text
  pub customer_name : Text
  pub customer_org_id : Text
  pub product : Text
  pub plan : Text
  pub issued_at : Time
  pub expires_at : Time
  pub grace_period_days : ℤ
  pub features : List Text
  pub limits : Option Limits
  pub scope : Option LicenseScope
  pub metadata : List (Text × Text)
  pub tier_features : List (Text × List Text)

abbrev pub day : ℕ
day = 86_400 * second

abbrev pub is_zero : Time → Bool
is_zero t = t == 0

unfoldable pub is_perpetual : Option Claims → Bool
is_perpetual none = false
is_perpetual (some c) = is_zero c.expires_at

unfoldable pub is_expired_at : Option Claims → Time → Bool
is_expired_at none t = false
is_expired_at (some c) t = if is_zero c.expires_at then false else ltb c.expires_at t

-- GracePeriodDays, or DefaultGracePeriodDays if that is not positive
abbrev pub grace_days : ℤ → ℕ
grace_days (pos n) = if n == 0 then 14 else n
grace_days (negsuc n) = 14

-- Dates and grace periods stay in the range of package time, where AddDate does not wrap around.
unfoldable pub effective_expiration : Option Claims → Time
effective_expiration none = 0
effective_expiration (some c) =
    if is_zero c.expires_at then 0 else c.expires_at + grace_days c.grace_period_days * day

unfoldable pub is_in_grace_period_at : Option Claims → Time → Bool
unfolding is_expired_at effective_expiration
is_in_grace_period_at none t = false
is_in_grace_period_at (some c) t =
    if is_zero c.expires_at
    then false
    else if not (is_expired_at (some c) t)
    then false
    else ltb t (effective_expiration (some c))

unfoldable pub get_claims_plan : Option Claims → Text
unfolding txt
get_claims_plan none = txt "community"
get_claims_plan (some c) = if is_empty c.plan then txt "community" else c.plan

abbrev raw_limit : Option ℤ → ℤ
raw_limit none = pos 0
raw_limit (some v) = if ltb_ℤ (pos 0) v then v else pos 0

-- The field, or else the raw entry, or else 0.
abbrev pub limit_or_raw : ℤ → Option ℤ → ℤ
limit_or_raw field raw = if ltb_ℤ (pos 0) field then field else raw_limit raw

abbrev limit_of : Option Limits → (Limits → ℤ) → Text → ℤ
unfolding lookup
limit_of none field name = pos 0
limit_of (some l) field name = limit_or_raw (field l) (lookup name l.raw)

abbrev limits_of : Option Claims → Option Limits
limits_of none = none
limits_of (some c) = c.limits

unfoldable pub get_max_resources : Option Claims → ℤ
unfolding limit_of txt
get_max_resources c = limit_of (limits_of c) (λ l. l.max_resources) (txt "max_resources")

unfoldable pub get_max_accounts : Option Claims → ℤ
unfolding limit_of txt
get_max_accounts c = limit_of (limits_of c) (λ l. l.max_accounts) (txt "max_accounts")

unfoldable pub get_max_monthly_gb : Option Claims → ℤ
unfolding limit_of txt
get_max_monthly_gb c = limit_of (limits_of c) (λ l. l.max_monthly_gb) (txt "max_monthly_gb")

-- ResourceQuotaExceededError
pub record QuotaExceeded : Type 0 where
  pub current : ℤ
  pub allowed : ℤ

unfoldable pub check_resource_limit : Option Claims → ℤ → Option QuotaExceeded
unfolding get_max_resources
check_resource_limit c active_count =
    let max = get_max_resources c in
    if leb_ℤ max (pos 0)
    then none
    else if ltb_ℤ max active_count
    then some (record { current = active_count; allowed = max })
    else none

abbrev or_empty : Option Text → Text
or_empty none = []
or_empty (some v) = v

-- strings.TrimSpace(c.Metadata[key])
unfoldable pub meta : Claims → Text → Text
unfolding lookup
meta c key = trim_space (or_empty (lookup key c.metadata))

abbrev pub first_given : List Text → Text → Text
first_given [] d = d
first_given (t ∷ ts) d = if is_empty t then first_given ts d else t

unfoldable pub resolve_central_metrics_region : Option Claims → Text
unfolding meta txt
resolve_central_metrics_region none = txt "us-east-1"
resolve_central_metrics_region (some c) =
    first_given (meta c (txt "metrics_region") ∷ meta c (txt "cloudwatch_metrics_region") ∷ [])
      (txt "us-east-1")

unfoldable pub get_current_region : Environ → Text
unfolding txt
get_current_region env =
    trim_space (first_given (env "AWS_REGION" ∷ env "AWS_DEFAULT_REGION" ∷ []) (txt "us-east-1"))

unfoldable pub resolve_registry_region : Environ → Option Claims → Text
unfolding meta resolve_central_metrics_region get_current_region txt
resolve_registry_region env none = get_current_region env
resolve_registry_region env (some c) =
    if not (is_empty (meta c (txt "registry_region")))
    then meta c (txt "registry_region")
    else if equal_fold (meta c (txt "registry_scope")) (txt "global")
    then resolve_central_metrics_region (some c)
    else get_current_region env

-- The optional argument if it is not blank, or else PROJECT_NAME.
abbrev project_of : Environ → List Text → Text
project_of env [] = trim_space (env "PROJECT_NAME")
project_of env (p ∷ ps) =
    if is_empty (trim_space p) then trim_space (env "PROJECT_NAME") else trim_space p

abbrev pub under_org : Text → Text → Text
unfolding txt
under_org org project = if is_empty org then project else org ++ (txt "/" ++ project)

-- The key of a free or unlicensed deployment.
abbrev pub unlicensed_key : Bool → Text → Text → Text
unfolding txt
unlicensed_key true env project =
    if is_empty project
    then txt "bsl1.1-free"
    else txt "bsl1.1-free/" ++ (env ++ (txt "/" ++ project))
unlicensed_key false env project =
    if is_empty project then txt "unlicensed" else txt "unlicensed/" ++ project

unfoldable pub claims_key : Claims → Text → Text
unfolding meta under_org txt
claims_key c fallback =
    let org = trim_space c.customer_org_id in
    if not (is_empty (meta c (txt "subscription_id")))
    then meta c (txt "subscription_id")
    else if not (is_empty (meta c (txt "project_id")))
    then under_org org (meta c (txt "project_id"))
    else if not (is_empty (meta c (txt "project")))
    then under_org org (meta c (txt "project"))
    else if not (is_empty c.id)
    then c.id
    else if not (is_empty org)
    then org
    else fallback

unfoldable pub resolve_entitlement_key :
    (Text → Bool) → Environ → Option Claims → Text → List Text → Text
unfolding claims_key unlicensed_key
resolve_entitlement_key is_non_production env none stage project =
    unlicensed_key (is_non_production stage) stage (project_of env project)
resolve_entitlement_key is_non_production env (some c) stage project =
    claims_key c (unlicensed_key (is_non_production stage) stage (project_of env project))

unfoldable pub detect_environment : Environ → Text
unfolding txt
detect_environment env =
    first_given
      (to_lower (trim_space (env "DIVMORA_ENVIRONMENT"))
        ∷ to_lower (trim_space (env "ENVIRONMENT"))
        ∷ to_lower (trim_space (env "STAGE"))
        ∷ to_lower (trim_space (env "APP_ENV"))
        ∷ [])
      (txt "production")

-- The text of the library's ErrInvalidLicenseFormat is a parameter.
abbrev required : Text → Text → Error
required format field = record {
  sentinels = invalid_license_format ∷ [];
  message = format ++ (txt ": " ++ field);
}

abbrev pub require : Bool → Error → Option Error → Option Error
require missing e rest = if missing then some e else rest

-- The first required field that is missing.
unfoldable pub validate_claims_schema : Text → Claims → Option Error
unfolding txt
validate_claims_schema format c =
    require (is_empty c.id) (required format (txt "claims.id is required")) (
      require (is_empty c.customer_name) (required format (txt "claims.customer.name is required"))
        (require (is_empty c.product) (required format (txt "claims.product is required")) (
          require (is_empty c.plan) (required format (txt "claims.plan is required")) (
            require (is_zero c.issued_at) (required format (txt "claims.issued_at is required"))
              none))))
