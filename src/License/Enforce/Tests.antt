-- ===== src/License/Enforce/Tests.antt =====
-- Runs of Enforce at concrete inputs
use otel_aws_log_processor.Prelude.{
  ◌+◌, ◌*◌, ◌≤◌, ◌≡◌, refl, true, false, [], ◌∷◌, none, some, inl, inr, Text, codes, txt, to_lower,
  trim_space, text_eq,
}
use otel_aws_log_processor.Prelude.Int.{pos}
use otel_aws_log_processor.License.Error.{Error, plain, license_not_found, is_deterministic}
use otel_aws_log_processor.License.Host.{Host, LibClaims, Validator}
use otel_aws_log_processor.License.Quota.{second}
use otel_aws_log_processor.Prelude.Assoc.{lookup}
use otel_aws_log_processor.Prelude.Regexp.{find_submatch}
use otel_aws_log_processor.Prelude.Sets.{insert}
use otel_aws_log_processor.License.Claims.{get_max_resources}
use otel_aws_log_processor.License.Resources.{count, track_all, track}
use otel_aws_log_processor.License.Status.{assert_feature, assert_in}
use otel_aws_log_processor.License.Token.{resolve_token}
use otel_aws_log_processor.License.Verify.{verify_by, on_success, claims_from_lib_claims}
use otel_aws_log_processor.License.Enforce.Checks.{
  account_ok, resource_ok, project_ok, licensed_project,
}
use otel_aws_log_processor.License.Enforce.Commercial.{
  missing_message, verify_token, caller_of, registry_for,
}
use otel_aws_log_processor.License.Enforce.NonProd.{
  non_prod_counted, fair_use, active_resources, track_sources, local_count,
}
use otel_aws_log_processor.License.Enforce.Context.{
  context, evaluation_time, is_converted, is_exempt,
}
use otel_aws_log_processor.License.Enforce.Context.Laws.{evaluation_time-near}
use otel_aws_log_processor.License.Enforce.Laws.{
  Authorized, enforce-no_error, enforce-Authorized, enforce-is_deterministic,
}
use otel_aws_log_processor.License.Enforce.Licensed.{grants, is_licensed}
use otel_aws_log_processor.License.Enforce.Licensed.Grants.{enforce-grants}
use otel_aws_log_processor.License.Enforce.Options.{EnforcementOptions, Container}
use otel_aws_log_processor.License.Enforce.Preflight.{memory, preflight_enforce-memory}
use otel_aws_log_processor.License.Enforce.Run.{enforce, preflight_enforce}
use otel_aws_log_processor.Version.Tests.{build_of, no_variables}

abbrev lib_claims : LibClaims
lib_claims = record {
  id = codes "lic-1";
  customer_name = codes "Acme";
  customer_org_id = codes "org-1";
  product = codes "otel-aws-log-processor";
  plan = codes "pro";
  issued_at = 63_800_000_000 * second;
  expires_at = 0;
  grace_period_days = pos 0;
  features = [];
  limits = some ((codes "max_resources", pos 5) ∷ []);
  scope = some (record { accounts = codes "123456789012" ∷ []; resources = [] });
  metadata = [];
}

abbrev accepting : Validator
accepting token t =
    inr (record { claims = lib_claims; in_grace_period = false; grace_days_remaining = pos 0 })

abbrev pub refused : Error
refused = record { sentinels = []; message = codes "refused" }

abbrev host_of : Text → Host
host_of signature = record {
  env = no_variables;
  now = 63_960_000_000 * second;
  invoked_function_arn = none;
  read_file = λ p. inl refused;
  lstat = λ p. none;
  temp_dir = codes "/tmp";
  build = build_of signature;
  cloudwatch = none;
  whole_days = λ d. pos d;
  format_date = λ t. codes "2027-01-01";
  sentinel_text = λ s. codes "license error";
  crl_prefix = codes "DIVCRL1";
  crl_pem_type = codes "CRL";
  is_non_production = λ env. text_eq env (codes "dev");
  policy_converted = λ release t. false;
  is_authorized = λ release env t bucket project. text_eq env (codes "dev");
  is_account_allowed = λ scope account. text_eq account (codes "123456789012");
  is_resource_allowed = λ scope arn. true;
  resolve_token = inl (record { sentinels = license_not_found ∷ []; message = codes "none" });
  new_validator = λ key options. inr accepting;
  new_validator_with_fallback_key = λ key options. inr accepting;
  decode_claims = λ token. inl refused;
  resolve_default_crl = inl refused;
  resolve_crl = λ source. inl refused;
}

abbrev pub custom : Host
custom = host_of []

abbrev pub official : Host
official = host_of (codes "DIVREL1.a.b")

abbrev request : Text → Text → Text → EnforcementOptions
request environment key mode = record {
  environment = environment;
  project_name = [];
  license_key = key;
  license_file = [];
  crl = [];
  crl_file = [];
  crl_url = [];
  enforcement_mode = mode;
  caller_account_id = codes "123456789012";
  source_account_ids = codes "123456789012" ∷ [];
  source_resource_arns = codes "app/lb-1/0123" ∷ [];
  batch_record_count = 3;
  bucket_name = codes "logs";
  bucket_names = [];
  exercised_features = codes "parser.alb" ∷ [];
  public_key = codes "k";
  evaluation_time = 63_960_000_000 * second;
  authoritative_time = 63_960_000_100 * second;
}

abbrev empty_container : Container
empty_container = record {
  quota_tracker = none;
  resource_tracker = some (record { resources = [] });
  cloudwatch_registry = none;
  default_validator = none;
  crl_override = [];
}

evaluation_time-near_example :
    (evaluation_time custom (request (codes "dev") [] (codes "warn"))
      ≤ 63_960_000_100 * second + 900 * second)
    × (63_960_000_100 * second
        ≤ evaluation_time custom (request (codes "dev") [] (codes "warn")) + 900 * second)
evaluation_time-near_example =
    evaluation_time-near custom (request (codes "dev") [] (codes "warn")) refl

abbrev lax_request : EnforcementOptions
lax_request = request (codes "production") [] (codes "warn")

lax_request-mode :
    (context custom lax_request (evaluation_time custom lax_request)).is_strict ≡ false
unfolding context to_lower trim_space txt
lax_request-mode = refl

enforce-no_error_example : (enforce custom lax_request empty_container).1.1 ≡ none
enforce-no_error_example = enforce-no_error custom lax_request empty_container lax_request-mode

abbrev licensed_request : EnforcementOptions
licensed_request = request (codes "production") (codes "token") (codes "strict")

licensed_request-mode :
    (context custom licensed_request (evaluation_time custom licensed_request)).is_strict ≡ true
unfolding context to_lower trim_space txt
licensed_request-mode = refl

licensed_request-unconverted : is_converted custom (evaluation_time custom licensed_request) ≡ false
unfolding is_converted trim_space
licensed_request-unconverted = refl

licensed_request-production :
    is_exempt (context custom licensed_request (evaluation_time custom licensed_request)) ≡ false
unfolding context evaluation_time trim_space
licensed_request-production = refl

licensed_request-licensed :
    is_licensed custom licensed_request
      (context custom licensed_request (evaluation_time custom licensed_request))
      empty_container
    ≡ true
unfolding is_licensed resolve_token trim_space verify_token verify_by context on_success account_ok
    caller_of claims_from_lib_claims assert_feature assert_in to_lower resource_ok project_ok
    licensed_project active_resources registry_for get_max_resources lookup txt count track_sources
    track_all track insert local_count
licensed_request-licensed = refl

enforce-grants_example :
    grants (enforce custom licensed_request empty_container).1
    ≡ is_licensed custom licensed_request
        (context custom licensed_request (evaluation_time custom licensed_request))
        empty_container
enforce-grants_example =
    enforce-grants custom licensed_request empty_container licensed_request-unconverted
      licensed_request-production

abbrev dev_request : EnforcementOptions
dev_request = request (codes "dev") [] (codes "strict")

dev_request-mode :
    (context custom dev_request (evaluation_time custom dev_request)).is_strict ≡ true
unfolding context to_lower trim_space txt
dev_request-mode = refl

dev_request-no_error : (enforce custom dev_request empty_container).1.1 ≡ none
unfolding enforce context evaluation_time to_lower trim_space txt find_submatch non_prod_counted
    track_sources fair_use
dev_request-no_error = refl

enforce-Authorized_example : Authorized (enforce custom dev_request empty_container).1
enforce-Authorized_example =
    enforce-Authorized custom dev_request empty_container dev_request-mode dev_request-no_error

abbrev unlicensed_request : EnforcementOptions
unlicensed_request = request (codes "production") [] (codes "strict")

abbrev no_license : Error
no_license = plain missing_message

pub unlicensed_request-token : resolve_token custom [] [] ≡ inr []
unfolding resolve_token trim_space
unlicensed_request-token = refl

unlicensed_request-fails : (enforce custom unlicensed_request empty_container).1.1 ≡ some no_license
unfolding enforce context evaluation_time to_lower trim_space txt
unlicensed_request-fails = refl

enforce-is_deterministic_example : is_deterministic no_license ≡ true
enforce-is_deterministic_example =
    enforce-is_deterministic custom unlicensed_request empty_container [] no_license
      unlicensed_request-token unlicensed_request-fails

preflight_enforce-memory_example :
    (memory (preflight_enforce custom dev_request empty_container).0 ≡ memory empty_container)
    × ((preflight_enforce custom dev_request empty_container).0.cloudwatch_registry ≡ none)
preflight_enforce-memory_example = preflight_enforce-memory custom dev_request empty_container
