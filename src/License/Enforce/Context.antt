-- ===== src/License/Enforce/Context.antt =====
-- What Enforce settles first: the time, the Apache conversion, the environment, the token and the
-- enforcement mode.
pub mod Laws
use otel_aws_log_processor.Prelude.{
  ℕ, ◌+◌, ◌*◌, Bool, true, false, not, ◌&&◌, ◌||◌, List, [], ◌∷◌, Option, none, some, ◌⊎◌, inl, inr,
  ltb, ◌==◌, if◌then◌else◌, is_empty, Text, txt, text_eq, join_texts, trim_space,
}
use otel_aws_log_processor.License.Claims.{detect_environment}
use otel_aws_log_processor.License.Error.{Error}
use otel_aws_log_processor.License.Features.{normal}
use otel_aws_log_processor.License.Host.{Host}
use otel_aws_log_processor.License.Production.{detect_production_indicators, project_or_env}
use otel_aws_log_processor.License.Quota.{Time, second}
use otel_aws_log_processor.License.Token.{resolve_token}
use otel_aws_log_processor.License.Verify.{time_or_now}
use otel_aws_log_processor.License.Enforce.Options.{EnforcementOptions}
use otel_aws_log_processor.Version.Info.{get, release_time, is_apache_converted}

-- More than 15 minutes either way
abbrev pub has_drift : Time → Time → Bool
has_drift t auth = ltb (t + 900 * second) auth || ltb (auth + 900 * second) t

abbrev pub anchored : Time → Time → Time
anchored t auth = if auth == 0 then t else if has_drift t auth then auth else t

unfoldable pub evaluation_time : Host → EnforcementOptions → Time
evaluation_time h o = anchored (time_or_now h o.evaluation_time) o.authoritative_time

abbrev or_zero_time : Option Time → Time
or_zero_time none = 0
or_zero_time (some t) = t

-- The ReleaseDate of GetBSLPolicy
unfoldable pub bsl_release_date : Host → Time
unfolding get release_time
bsl_release_date h =
    if (get h.build).provenance.verified
    then or_zero_time (release_time h.build (get h.build))
    else 0

unfoldable pub is_converted : Host → Time → Bool
unfolding bsl_release_date is_apache_converted get
is_converted h t =
    h.policy_converted (bsl_release_date h) t || is_apache_converted h.build (get h.build) t

-- What the rest of Enforce reads of an execution
pub record Context : Type 0 where
  pub env : Text
  pub project : Text
  pub time : Time
  pub is_non_prod : Bool
  pub is_authorized : Bool
  pub indicator : Option Text
  pub token : Text
  pub is_strict : Bool

abbrev token_or_empty : Error ⊎ Text → Text
token_or_empty (inl e) = []
token_or_empty (inr t) = t

abbrev pub has_prod : Option Text → Bool
has_prod none = false
has_prod (some reason) = true

abbrev pub mode_of : Host → EnforcementOptions → Text
mode_of h o =
    if is_empty (normal o.enforcement_mode)
    then normal (h.env "DIVMORA_LICENSE_MODE")
    else normal o.enforcement_mode

-- The mode "auto" is strict in production and in suspected production.
unfoldable pub is_strict_mode : Text → Bool → Bool → Bool → Bool
is_strict_mode mode prod non_prod authorized =
    if is_empty mode || text_eq mode (txt "auto")
    then prod || (not non_prod && not authorized)
    else text_eq mode (txt "strict")

abbrev pub env_of : Host → EnforcementOptions → Text
env_of h o =
    if is_empty (trim_space o.environment)
    then detect_environment h.env
    else trim_space o.environment

abbrev bucket_meta : EnforcementOptions → Text
bucket_meta o =
    if is_empty o.bucket_names then o.bucket_name else join_texts (txt ",") o.bucket_names

abbrev pub indicator_of : Host → EnforcementOptions → Option Text
indicator_of h o =
    detect_production_indicators h o.bucket_name o.bucket_names o.project_name
      o.source_resource_arns

abbrev pub authorized_of : Host → EnforcementOptions → Time → Bool
authorized_of h o t =
    h.is_authorized (bsl_release_date h) (env_of h o) t (bucket_meta o)
      (project_or_env h o.project_name)

unfoldable pub context : Host → EnforcementOptions → Time → Context
unfolding is_strict_mode resolve_token detect_production_indicators
context h o t = record {
  env = env_of h o;
  project = project_or_env h o.project_name;
  time = t;
  is_non_prod = h.is_non_production (env_of h o);
  is_authorized = authorized_of h o t;
  indicator = indicator_of h o;
  token = token_or_empty (resolve_token h o.license_key o.license_file);
  is_strict =
      is_strict_mode (mode_of h o) (has_prod (indicator_of h o)) (h.is_non_production (env_of h o))
        (authorized_of h o t);
}

-- Non-production without an indicator of production
abbrev pub is_exempt : Context → Bool
is_exempt x = x.is_non_prod || x.is_authorized

abbrev pub is_free : Context → Bool
is_free x = is_exempt x && not (has_prod x.indicator)
