-- ===== src/License/Enforce/Run.antt =====
-- Enforce and PreflightEnforce of pkg/license/enforcer.go
use otel_aws_log_processor.Prelude.{
  true, ◌&&◌, [], ◌∷◌, Option, none, some, if◌then◌else◌, is_empty, Text, txt, concat,
}
use otel_aws_log_processor.License.Host.{Host}
use otel_aws_log_processor.License.Quota.{Time}
use otel_aws_log_processor.License.Status.{ValidationStatus, Reason, bare}
use otel_aws_log_processor.License.Enforce.Commercial.{commercial}
use otel_aws_log_processor.License.Enforce.Context.{
  Context, context, evaluation_time, is_converted, is_exempt,
}
use otel_aws_log_processor.License.Enforce.NonProd.{non_prod, suspected}
use otel_aws_log_processor.License.Enforce.Options.{EnforcementOptions, Container, EnforceOutcome}
use otel_aws_log_processor.Version.Info.{get, change_date}

abbrev change_or_zero : Option Time → Time
change_or_zero none = 0
change_or_zero (some t) = t

unfoldable pub converted_status : Host → ValidationStatus
unfolding get change_date
converted_status h = bare true Reason.apache_converted (
    concat (
      txt "Automatically converted to Apache License 2.0 on "
      ∷ h.format_date (change_or_zero (change_date h.build (get h.build)))
      ∷ txt " under BSL 1.1 terms. Unrestricted usage permitted."
      ∷ []))

unfoldable pub exempt :
    Host → EnforcementOptions → Context → Container → Option Text → EnforceOutcome
unfolding non_prod suspected
exempt h o x c none = non_prod h o x c
exempt h o x c (some reason) = (c, suspected h x reason)

unfoldable pub enforce_in : Host → EnforcementOptions → Context → Container → EnforceOutcome
unfolding commercial exempt
enforce_in h o x c =
    if is_exempt x && is_empty x.token then exempt h o x c x.indicator else commercial h o x c

unfoldable pub enforce : Host → EnforcementOptions → Container → EnforceOutcome
unfolding evaluation_time is_converted context enforce_in converted_status
enforce h o c =
    let t = evaluation_time h o in
    if is_converted h t
    then (c, (some (converted_status h), none))
    else enforce_in h o (context h o t) c

abbrev pub preflight_options : EnforcementOptions → EnforcementOptions
preflight_options o = record o {
  source_account_ids = [];
  source_resource_arns = [];
  exercised_features = [];
  batch_record_count = 0;
}

-- The registry is not handed on, and stays as it is.
abbrev keep_registry : Container → EnforceOutcome → EnforceOutcome
keep_registry c (c', r) = (record c' { cloudwatch_registry = c.cloudwatch_registry }, r)

unfoldable pub preflight_enforce : Host → EnforcementOptions → Container → EnforceOutcome
unfolding enforce
preflight_enforce h o c =
    keep_registry c (enforce h (preflight_options o) (record c { cloudwatch_registry = none }))
