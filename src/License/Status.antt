-- ===== src/License/Status.antt =====
-- ValidationStatus of pkg/license/model.go, with AssertFeature. A status pointer that may be nil is
-- an option.
use otel_aws_log_processor.Prelude.{
  Bool, true, false, [], ◌∷◌, Option, none, some, if◌then◌else◌, Text, txt,
}
use otel_aws_log_processor.Prelude.Int.{ℤ, pos}
use otel_aws_log_processor.License.Claims.{Claims}
use otel_aws_log_processor.License.Error.{Error, Sentinel, commercial_license_required}
use otel_aws_log_processor.License.Features.{
  assert_claimed, with_tier_features, default_tier_features,
}
use otel_aws_log_processor.License.Host.{Host}

-- The values that StatusReason takes
pub data Reason : Type 0 where
  apache_converted unlicensed_production suspected_production non_prod_free quota_exceeded : Reason
  registry_error valid grace_period invalid revoked expired account_mismatch : Reason
  source_account_mismatch feature_not_entitled resource_not_allowed project_mismatch : Reason
  resource_quota_exceeded : Reason

pub record ValidationStatus : Type 0 where
  pub valid : Bool
  pub in_grace_period : Bool
  pub days_remaining : ℤ
  pub quota_exceeded : Bool
  pub throughput_exceeded : Bool
  pub status_reason : Reason
  pub message : Text
  pub claims : Option Claims

unfoldable pub reason_text : Reason → Text
reason_text apache_converted = txt "apache_converted"
reason_text unlicensed_production = txt "unlicensed_production"
reason_text suspected_production = txt "suspected_production"
reason_text non_prod_free = txt "non_prod_free"
reason_text quota_exceeded = txt "quota_exceeded"
reason_text registry_error = txt "registry_error"
reason_text valid = txt "valid"
reason_text grace_period = txt "grace_period"
reason_text invalid = txt "invalid"
reason_text revoked = txt "revoked"
reason_text expired = txt "expired"
reason_text account_mismatch = txt "account_mismatch"
reason_text source_account_mismatch = txt "source_account_mismatch"
reason_text feature_not_entitled = txt "feature_not_entitled"
reason_text resource_not_allowed = txt "resource_not_allowed"
reason_text project_mismatch = txt "project_mismatch"
reason_text resource_quota_exceeded = txt "resource_quota_exceeded"

-- A status without claims, whose other fields are zero
abbrev pub bare : Bool → Reason → Text → ValidationStatus
bare v reason text = record {
  valid = v;
  in_grace_period = false;
  days_remaining = pos 0;
  quota_exceeded = false;
  throughput_exceeded = false;
  status_reason = reason;
  message = text;
  claims = none;
}

abbrev is_converted_reason : Reason → Bool
is_converted_reason apache_converted = true
is_converted_reason r = false

-- WithTierFeatures writes the claims that the status points to.
unfoldable pub assert_in :
    Host → ValidationStatus → Option Claims → Text → ValidationStatus × Option Error
assert_in h s none feature = (
  s,
  some (record {
    sentinels = commercial_license_required ∷ [];
    message = h.sentinel_text commercial_license_required;
  }),
)
assert_in h s (some c) feature =
    let c' = with_tier_features c default_tier_features in
    (
      record s { claims = some c' },
      assert_claimed (h.sentinel_text Sentinel.feature_not_entitled) (some c') feature,
    )

-- AssertFeature of a status that is not nil
unfoldable pub assert_feature :
    Host → ValidationStatus → Text → Text → ValidationStatus × Option Error
unfolding with_tier_features default_tier_features assert_claimed
assert_feature h s env feature =
    if h.is_non_production env
    then (s, none)
    else if is_converted_reason s.status_reason
    then (s, none)
    else assert_in h s s.claims feature
