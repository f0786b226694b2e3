-- ===== src/License/Host.antt =====
-- What pkg/license calls outside this repository: the environment, the clock and the files, the
-- Lambda context, package time, and the external license library. A validator of that library is a
-- function from a token and a time to what VerifyWithResultAt says; the result of a verification
-- that succeeds has claims.
use otel_aws_log_processor.Prelude.{ℕ, Bool, List, Option, ◌⊎◌, Text}
use otel_aws_log_processor.Prelude.Int.{ℤ}
use otel_aws_log_processor.Utils.Env.{Environ}
use otel_aws_log_processor.Version.Host.{BuildHost}
use otel_aws_log_processor.License.Claims.{Claims, LicenseScope}
use otel_aws_log_processor.License.Error.{Error, Sentinel}
use otel_aws_log_processor.License.Quota.{Time}
use otel_aws_log_processor.License.Registry.Types.{Client}

-- A failed verification, and whether errors.As finds a ScopeMismatchError in it
pub record Failure : Type 0 where
  pub error : Error
  pub is_scope_mismatch : Bool

-- The part of the library's own Claims that this program reads
pub record LibClaims : Type 0 where
  pub id : Text
  pub customer_name : Text
  pub customer_org_id : Text
  pub product : Text
  pub plan : Text
  pub issued_at : Time
  pub expires_at : Time
  pub grace_period_days : ℤ
  pub features : List Text
  pub limits : Option (List (Text × ℤ))
  pub scope : Option LicenseScope
  pub metadata : List (Text × Text)

pub record Verified : Type 0 where
  pub claims : LibClaims
  pub in_grace_period : Bool
  pub grace_days_remaining : ℤ

abbrev pub Validator : Type 0
Validator = Text → Time → Failure ⊎ Verified

-- liblicense.ValidatorOption
pub data ValidatorOption : Type 0 where
  with_product with_expected_fingerprint with_current_version : Text → ValidatorOption
  with_additional_public_key with_revocation_list with_revocation_list_file : Text → ValidatorOption
  with_allow_env_key_override with_auto_fingerprint : Bool → ValidatorOption
  with_auto_resolved_revocation_list with_require_revocation_list : Bool → ValidatorOption
  with_max_clock_drift : ℕ → ValidatorOption
  with_build_date : Time → ValidatorOption
  with_crl_url : Text → Text → ℕ → ValidatorOption  -- the URL, the cache file and the timeout

pub record ResolvedCrl : Type 0 where
  pub content : Text
  pub source : Text

-- os.Lstat of a path: a directory or not, a symbolic link or not
pub record FileInfo : Type 0 where
  pub is_dir : Bool
  pub is_symlink : Bool

pub record Host : Type 0 where
  pub env : Environ
  pub now : Time
  pub invoked_function_arn : Option Text
  pub read_file : Text → Error ⊎ Text
  pub lstat : Text → Option FileInfo
  pub temp_dir : Text
  pub build : BuildHost
  pub cloudwatch : Option Client
  -- the Hours() / 24 of a duration in nanoseconds, as an int
  pub whole_days : ℕ → ℤ
  -- Format("2006-01-02")
  pub format_date : Time → Text
  -- the texts of the library's sentinel errors
  pub sentinel_text : Sentinel → Text
  -- ProtocolPrefixCRL and PEMTypeRevocationList
  pub crl_prefix : Text
  pub crl_pem_type : Text
  -- the non-production grant's Evaluate(...).Matched
  pub is_non_production : Text → Bool
  -- BSLPolicy.IsConverted of a release date and a time
  pub policy_converted : Time → Time → Bool
  -- EvaluateEntitlement(...).Authorized of a release date, environment, time, bucket and project
  pub is_authorized : Time → Text → Time → Text → Text → Bool
  pub is_account_allowed : LicenseScope → Text → Bool
  pub is_resource_allowed : LicenseScope → Text → Bool
  pub resolve_token : Error ⊎ Text
  -- NewValidator of a key, and NewValidatorWithFallbackKey
  pub new_validator : Text → List ValidatorOption → Error ⊎ Validator
  pub new_validator_with_fallback_key : Text → List ValidatorOption → Error ⊎ Validator
  -- ParseToken, ValidateClaimsPayloadJSON and json.Unmarshal into Claims
  pub decode_claims : Text → Error ⊎ Claims
  -- ResolveCRL without and with a source
  pub resolve_default_crl : Error ⊎ ResolvedCrl
  pub resolve_crl : Text → Error ⊎ ResolvedCrl
