-- ===== src/Lambda/Handler.antt =====
-- handler of cmd/lambda/main.go. The package variables that it uses are the state; the sending of
-- the logs is a parameter. Metrics are output, and the bytes that a processor counts are left out.
pub mod Laws
pub mod Cases
mod Tests
use otel_aws_log_processor.Prelude.{
  ℕ, Bool, true, false, not, ◌&&◌, ◌||◌, List, [], ◌∷◌, ◌++◌, map, Option, none, some, ◌⊎◌, inl,
  inr, if◌then◌else◌, is_empty, length, any, Text, codes, txt, text_eq, to_lower, trim_space,
  sort_texts, ◌==◌,
}
use otel_aws_log_processor.Prelude.Assoc.{lookup, put}
use otel_aws_log_processor.Prelude.Int.{ℤ}
use otel_aws_log_processor.Prelude.Sets.{insert}
use otel_aws_log_processor.Prelude.Strconv
use otel_aws_log_processor.Events.{S3EventRecord, Decoders, parse_body}
use otel_aws_log_processor.License.Claims.{
  Claims, resolve_registry_region, detect_environment, get_current_region,
}
use otel_aws_log_processor.License.Error.{Error, is_deterministic}
use otel_aws_log_processor.License.Extract.{
  Resource, extract_resource_from_attributes, extract_resource_from_s3_key,
}
use otel_aws_log_processor.License.Host.{Host, Validator}
use otel_aws_log_processor.License.Quota.{Time, QuotaTracker}
use otel_aws_log_processor.License.Registry.Types.{CloudWatchRegistry, new_registry}
use otel_aws_log_processor.License.Resources.{ResourceTracker}
use otel_aws_log_processor.License.Status.{ValidationStatus}
use otel_aws_log_processor.License.Token.{extract_caller_account_id}
use otel_aws_log_processor.License.Verify.{VerifyResult}
use otel_aws_log_processor.License.Enforce.Options.{EnforcementOptions, Container, EnforceOutcome}
use otel_aws_log_processor.License.Enforce.Run.{enforce, preflight_enforce}
use otel_aws_log_processor.Model.{Attribute}
use otel_aws_log_processor.Processor.Adapter.{LogAdapter}
use otel_aws_log_processor.Processor.Registry.{Registry, LogProcessor, set_enrich_user_agent}
use otel_aws_log_processor.Utils.Env.{Environ, get_env, get_env_bool}
use otel_aws_log_processor.Utils.S3Key.{parse_region_account}
use otel_aws_log_processor.Lambda.Messages.{
  SqsMessage, MessageResult, Gathered, process_message, gather, nothing_gathered, records_of,
}
use otel_aws_log_processor.Lambda.Requests.{
  authoritative_time, preflight_buckets, preflight_request, batch_request, first_text,
}

pub record Runtime (F : Type 0) : Type 0 where
  pub host : Host
  pub decoders : Decoders
  pub process : LogProcessor → Text → Text → Option (List (LogAdapter F))
  pub send_logs : List (LogAdapter F) → Option Error
  -- time.UnixMilli
  pub unix_milli : ℤ → Time

pub record LambdaState : Type 0 where
  pub registry : Registry
  pub quota_tracker : QuotaTracker
  pub resource_tracker : ResourceTracker
  pub cw_registries : List (Text × CloudWatchRegistry)
  pub default_validator : Option Validator
  pub crl_override : Text

-- The identifiers of the batch item failures, the error of the invocation, and the entries that
-- were handed to SendLogs
pub record Response (F : Type 0) : Type 0 where
  pub failures : List Text
  pub error : Option Error
  pub sent : List (LogAdapter F)

abbrev region_of : Environ → Text → Text
region_of env region = if is_empty region then get_current_region env else region

abbrev known_registry : Option CloudWatchRegistry → CloudWatchRegistry
known_registry none = new_registry
known_registry (some r) = r

-- getCloudWatchRegistry: one for each region, made at the first use
unfoldable pub get_cloud_watch_registry : LambdaState → Text → CloudWatchRegistry
get_cloud_watch_registry s region = known_registry (lookup region s.cw_registries)

abbrev claims_of : Option ValidationStatus → Option Claims
claims_of none = none
claims_of (some st) = st.claims

-- The region of the registry: that of the claims, or else the current one
abbrev pub registry_region : Host → Option ValidationStatus → Text
registry_region h st = region_of h.env (resolve_registry_region h.env (claims_of st))

abbrev pub preflight_container : LambdaState → Container
preflight_container s = record {
  quota_tracker = none;
  resource_tracker = none;
  cloudwatch_registry = none;
  default_validator = s.default_validator;
  crl_override = s.crl_override;
}

abbrev pub batch_container : LambdaState → Text → Container
batch_container s region = record {
  quota_tracker = some s.quota_tracker;
  resource_tracker = some s.resource_tracker;
  cloudwatch_registry = some (get_cloud_watch_registry s region);
  default_validator = s.default_validator;
  crl_override = s.crl_override;
}

abbrev or_quota : QuotaTracker → Option QuotaTracker → QuotaTracker
or_quota q none = q
or_quota q (some q') = q'

abbrev or_tracker : ResourceTracker → Option ResourceTracker → ResourceTracker
or_tracker t none = t
or_tracker t (some t') = t'

-- The variables after Enforce, which wrote through the pointers of the container
abbrev after_batch : LambdaState → Text → Container → LambdaState
after_batch s region c = record s {
  quota_tracker = or_quota s.quota_tracker c.quota_tracker;
  resource_tracker = or_tracker s.resource_tracker c.resource_tracker;
  cw_registries = put region (known_registry c.cloudwatch_registry) s.cw_registries;
  default_validator = c.default_validator;
}

-- The variables after PreflightEnforce and getCloudWatchRegistry
abbrev pub with_preflight : Host → LambdaState → EnforceOutcome → LambdaState
with_preflight h s (c, (st, e)) = record s {
  default_validator = c.default_validator;
  cw_registries =
      put (registry_region h st) (get_cloud_watch_registry s (registry_region h st))
        s.cw_registries;
}

module _ {F : Type 0} where
  -- On a license error that is not to be retried, all messages go to the dead-letter queue, or
  -- none.
  unfoldable pub on_license_error : Environ → List SqsMessage → List Text → Error → Response F
  on_license_error env records failures e =
      if is_deterministic e
      then record {
        failures =
            if text_eq (to_lower (get_env env "DIVMORA_LICENSE_FAILURE_ACTION" (txt "discard")))
              (txt "dlq")
            then failures ++ map (λ m. m.message_id) records
            else [];
        error = none;
        sent = [];
      }
      else record { failures = failures; error = some e; sent = [] }

  unfoldable pub send : Runtime F → Gathered F → Response F
  send rt g =
      if is_empty g.entries
      then record { failures = g.failures; error = none; sent = [] }
      else record { failures = g.failures; error = rt.send_logs g.entries; sent = g.entries }

  abbrev pub enriches : Runtime F → Bool
  enriches rt = get_env_bool rt.host.env "ENRICH_USER_AGENT" false

  abbrev pub enriched : Runtime F → LambdaState → LambdaState
  enriched rt s = record s { registry = set_enrich_user_agent s.registry (enriches rt) }

  -- The processing of one message with the processors of the state
  abbrev pub run_message : Runtime F → LambdaState → SqsMessage → MessageResult F
  run_message rt s m = process_message rt.process rt.decoders s.registry (enriches rt) m

  abbrev pub timed : Runtime F → List SqsMessage → EnforcementOptions → EnforcementOptions
  timed rt records o = record o { authoritative_time = authoritative_time rt.unix_milli records }

  abbrev pub buckets_of : Runtime F → List SqsMessage → List Text
  buckets_of rt records = preflight_buckets rt.decoders records []

  abbrev pub preflight_options_of : Runtime F → List SqsMessage → EnforcementOptions
  preflight_options_of rt records =
      timed rt records
        (preflight_request rt.host (first_text (buckets_of rt records)) (buckets_of rt records))

  abbrev pub batch_options_of : Runtime F → List SqsMessage → Gathered F → EnforcementOptions
  batch_options_of rt records g = timed rt records (batch_request rt.host g (buckets_of rt records))

  unfoldable pub respond : Runtime F → List SqsMessage → Gathered F → Option Error → Response F
  respond rt records g none = send rt g
  respond rt records g (some e) = on_license_error rt.host.env records g.failures e

  unfoldable pub with_batch :
      Runtime F → LambdaState → List SqsMessage → Text → Gathered F → LambdaState × Response F
  with_batch rt s records region g =
      let (c, (st, err)) =
        enforce rt.host (batch_options_of rt records g) (batch_container s region) in
      (after_batch s region c, respond rt records g err)

  unfoldable pub after_preflight :
      Runtime F
      → LambdaState
      → List SqsMessage
      → List SqsMessage
      → EnforceOutcome
      → LambdaState × Response F
  after_preflight rt s records finished (c, (st, some e)) =
      (with_preflight rt.host s (c, (st, some e)), on_license_error rt.host.env records [] e)
  after_preflight rt s records finished (c, (st, none)) =
      with_batch rt (with_preflight rt.host s (c, (st, none))) records (registry_region rt.host st)
        (gather (run_message rt s) finished nothing_gathered)

  -- `finished` are the records in the order in which their goroutines finish.
  unfoldable pub handler :
      Runtime F → LambdaState → List SqsMessage → List SqsMessage → LambdaState × Response F
  handler rt s records finished =
      if is_empty records
      then (s, record { failures = []; error = none; sent = [] })
      else after_preflight rt (enriched rt s) records finished
          (preflight_enforce rt.host (preflight_options_of rt records) (preflight_container s))
