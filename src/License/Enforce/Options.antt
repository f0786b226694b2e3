-- ===== src/License/Enforce/Options.antt =====
-- EnforcementOptions of pkg/license/enforcer.go. The trackers and the registry that its pointers
-- lead to are the Container, with the default validator of verifier.go; each may be absent. The
-- record count is a number of log entries, and not negative.
use otel_aws_log_processor.Prelude.{ℕ, List, Option, Text}
use otel_aws_log_processor.License.Host.{Validator}
use otel_aws_log_processor.License.Quota.{Time, QuotaTracker}
use otel_aws_log_processor.License.Registry.Types.{CloudWatchRegistry}
use otel_aws_log_processor.License.Resources.{ResourceTracker}
use otel_aws_log_processor.License.Verify.{VerifyResult}

pub record EnforcementOptions : Type 0 where
  pub environment : Text
  pub project_name : Text
  pub license_key : Text
  pub license_file : Text
  pub crl : Text
  pub crl_file : Text
  pub crl_url : Text
  pub enforcement_mode : Text
  pub caller_account_id : Text
  pub source_account_ids : List Text
  pub source_resource_arns : List Text
  pub batch_record_count : ℕ
  pub bucket_name : Text
  pub bucket_names : List Text
  pub exercised_features : List Text
  pub public_key : Text
  pub evaluation_time : Time
  pub authoritative_time : Time

pub record Container : Type 0 where
  pub quota_tracker : Option QuotaTracker
  pub resource_tracker : Option ResourceTracker
  pub cloudwatch_registry : Option CloudWatchRegistry
  pub default_validator : Option Validator
  pub crl_override : Text

-- The state afterwards, and what Enforce returns
abbrev pub EnforceOutcome : Type 0
EnforceOutcome = Container × VerifyResult
