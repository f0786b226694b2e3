-- ===== src/Lambda/Handler/Tests.antt =====
-- Runs of the handler at concrete inputs
use otel_aws_log_processor.Prelude.{
  ◌+◌, ◌<◌, ◌==◌, arith, ◌*◌, ◌≡◌, refl, false, true, List, [], ◌∷◌, none, some, ℕ, Text, codes,
  txt, text_eq, trim_space, to_lower, if◌then◌else◌, is_empty,
}
use text.Mathlib.Text.{◌==◌ as str_eq}
use otel_aws_log_processor.Prelude.Strconv.{parse_int}
use otel_aws_log_processor.License.Host.{Host}
use otel_aws_log_processor.License.Enforce.Run.{preflight_enforce}
use otel_aws_log_processor.Events.{parse_body, parse_body_as_s3}
use otel_aws_log_processor.Processor.Nlb
use otel_aws_log_processor.Processor.Registry.{find, set_enrich_user_agent}
use otel_aws_log_processor.License.Quota.{second, new_quota_tracker}
use otel_aws_log_processor.License.Enforce.Tests.{custom, official, refused}
use otel_aws_log_processor.Lambda.Handler.{
  Runtime, LambdaState, handler, after_preflight, with_batch, respond, send,
}
use otel_aws_log_processor.Lambda.Handler.Laws.{IsWarn, Reports, handler-warn, handler-converts}
use otel_aws_log_processor.Lambda.Messages.{
  SqsMessage, gather, merge, process_message, process_records,
}
use otel_aws_log_processor.Processor.Registry.{Registry, nlb}
use otel_aws_log_processor.Sender.Tests.{entry_of}
use otel_aws_log_processor.Version.Tests.{no_variables, official-verified, official-released}
use otel_aws_log_processor.Version.Host.{change_period_years}
use otel_aws_log_processor.Lambda.Requests.{authoritative_time}

-- The mode is "warn", and there is no license.
abbrev warn_host : Host
warn_host = record custom {
  env = λ name. if str_eq name "DIVMORA_LICENSE_MODE" then codes "warn" else [];
}

-- A body is the key of one object of an EventBridge event.
abbrev runtime_of : Host → Runtime ℕ
runtime_of h = record {
  host = h;
  decoders = record {
    event_bridge = λ body. some (record {
      source = codes "aws.s3";
      region = codes "us-east-1";
      bucket = codes "logs";
      key = body;
    });
    s3_event = λ body. none;
    sns_message = λ body. none;
    query_unescape = λ key. none;
  };
  process = λ p bucket key.
      if text_eq key (codes "/elasticloadbalancing/gone_net.gz")
      then none
      else some (entry_of (codes "lb-1") (codes "a") ∷ []);
  send_logs = λ es. if is_empty es then none else some refused;
  unix_milli = λ ms. 63_960_000_000 * second;
}

abbrev one_processor : Registry
one_processor = record {
  processors = (record { kind = nlb; byte_tracker = true; enrich_user_agent = false }) ∷ [];
  byte_tracker = true;
  enrich_user_agent = false;
}

abbrev cold_state : LambdaState
cold_state = record {
  registry = one_processor;
  quota_tracker = new_quota_tracker no_variables;
  resource_tracker = record { resources = [] };
  cw_registries = [];
  default_validator = none;
  crl_override = [];
}

abbrev message_of : Text → Text → SqsMessage
message_of id key = record {
  message_id = id;
  body = key;
  sent_timestamp = some (codes "1700000000000");
}

abbrev good_message : SqsMessage
good_message = message_of (codes "m-1") (codes "/elasticloadbalancing/x_net.gz")

abbrev gone_message : SqsMessage
gone_message = message_of (codes "m-2") (codes "/elasticloadbalancing/gone_net.gz")

abbrev two_messages : List SqsMessage
two_messages = good_message ∷ gone_message ∷ []

abbrev finished_messages : List SqsMessage
finished_messages = gone_message ∷ good_message ∷ []

warn_host-IsWarn : IsWarn warn_host
unfolding txt trim_space to_lower
warn_host-IsWarn = refl

handler-warn_example :
    Reports
      (handler (runtime_of warn_host) cold_state two_messages finished_messages).1
      (codes "m-2" ∷ [])
      (entry_of (codes "lb-1") (codes "a") ∷ [])
unfolding parse_body_as_s3 parse_body process_records process_message find set_enrich_user_agent
    Nlb.matches txt
handler-warn_example =
    handler-warn (runtime_of warn_host) cold_state two_messages finished_messages warn_host-IsWarn
      refl

-- Every binary is converted.
abbrev converted_host : Host
converted_host = record custom { policy_converted = λ release t. true }

handler-fails :
    (handler (runtime_of converted_host) cold_state two_messages finished_messages).1.error
    ≡ some refused
unfolding handler after_preflight preflight_enforce with_batch respond send gather merge
    process_message process_records parse_body parse_body_as_s3 find set_enrich_user_agent
    Nlb.matches txt
handler-fails = refl

-- A signed release in the mode "strict" without a license, and with a clock that is slow.
abbrev strict_host : Host
strict_host = record official {
  env = λ name. if str_eq name "DIVMORA_LICENSE_MODE" then codes "strict" else [];
}

abbrev late_runtime : Runtime ℕ
late_runtime = record (runtime_of strict_host) { unix_milli = λ ms. 64_900_000_000 * second }

late_runtime-has_time : (authoritative_time late_runtime.unix_milli two_messages == 0) ≡ false
unfolding authoritative_time parse_int
late_runtime-has_time = refl

late_runtime-is_late :
    strict_host.build.add_years (63_950_000_000 * second) change_period_years + 900 * second
    < authoritative_time late_runtime.unix_milli two_messages
unfolding authoritative_time parse_int
late_runtime-is_late = omega arith

handler-converts_example :
    Reports
      (handler late_runtime cold_state two_messages finished_messages).1
      (codes "m-2" ∷ [])
      (entry_of (codes "lb-1") (codes "a") ∷ [])
unfolding parse_body_as_s3 parse_body process_records process_message find set_enrich_user_agent
    Nlb.matches txt
handler-converts_example =
    handler-converts late_runtime cold_state two_messages finished_messages
      (63_950_000_000 * second) official-verified official-released late_runtime-has_time
      late_runtime-is_late refl
