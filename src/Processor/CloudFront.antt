-- ===== src/Processor/CloudFront.antt =====
-- CloudFrontAdapter of pkg/processor/cloudfront_processor.go
pub mod Pattern
use Pattern.{cloud_front_log_pattern, cf_key_pattern, cf_parquet_pattern}
use otel_aws_log_processor.Prelude.{
  ◌&&◌, not, Bool, List, [], ◌∷◌, ◌++◌, Option, none, some, if◌then◌else◌, leb, is_empty, Text, txt,
  has_suffix, trim_suffix, contains, has_prefix,
}
use otel_aws_log_processor.Prelude.Int.{ℤ}
use otel_aws_log_processor.Prelude.Strconv.{format_int}
use otel_aws_log_processor.Prelude.Floats.{Floats}
use otel_aws_log_processor.Model.{
  Attribute, LogRecord, Add, attr, int_attr, float_attr, perform, string_attr,
  ensure_region_account,
}
use otel_aws_log_processor.Utils.Conversion.{is_blank}
use otel_aws_log_processor.Utils.Arn
use otel_aws_log_processor.Utils.TraceId.{parse_aws_trace_id}
use otel_aws_log_processor.Utils.UserAgent.{enrich_user_agent_attributes}
use otel_aws_log_processor.Processor.Host.{Host, convert_timestamp}
use otel_aws_log_processor.Processor.Adapter.{
  LogAdapter, Severity, info, severity_of_status, when, given, parse_request_url,
}
use otel_aws_log_processor.Prelude.Regexp
use otel_aws_log_processor.Prelude.Regexp.{find_submatch}
use otel_aws_log_processor.Prelude.{length, get_or, ◌||◌}
use otel_aws_log_processor.Utils.S3Key
use otel_aws_log_processor.Parser.CloudFront.{CloudFrontLogEntry}

abbrev group_one : Option (List Text) → Option Text
group_one none = none
group_one (some ms) = if leb 2 (length ms) then some (get_or ms 1 []) else none

abbrev or_try {ℓ} : {A : Type ℓ} → Option A → A → A
or_try none a = a
or_try (some b) a = b

-- ExtractDistributionID: the last resort is the region part of the key.
unfoldable pub extract_distribution_id : Text → Text
extract_distribution_id key =
    let from_key : Text = (S3Key.parse_region_account key).1 in
    let from_parquet : Text =
      if has_suffix key (txt ".parquet")
      then or_try (group_one (find_submatch cf_parquet_pattern 1 key)) from_key
      else from_key in
    or_try (group_one (find_submatch cf_key_pattern 1 key)) from_parquet

unfoldable pub matches : Text → Text → Bool
matches bucket key =
    has_prefix key (txt "AWSLogs/")
    && contains key (txt "/CloudFront/")
    && (has_suffix key (txt ".gz") || has_suffix key (txt ".parquet"))
    && Regexp.matches cloud_front_log_pattern key

-- The entry of an adapter that the program builds is never nil.
pub record CloudFrontAdapter (F : Type 0) : Type 0 where
  pub entry : CloudFrontLogEntry F
  pub distribution_id : Text
  pub account_id : Text
  pub region : Text
  pub enrich_user_agent : Bool

module _ {F : Type 0} where
  unfoldable pub resource_key : CloudFrontAdapter F → Text
  resource_key a =
      if not (is_empty a.distribution_id)
      then a.distribution_id
      else if not (is_blank a.entry.cs_host)
      then a.entry.cs_host
      else txt "cloudfront"

  abbrev base_attributes : List (Attribute F)
  base_attributes =
      string_attr "cloud.provider" (txt "aws")
      ∷ string_attr "cloud.platform" (txt "aws_cloudfront")
      ∷ string_attr "cloud.service" (txt "cloudfront")
      ∷ string_attr "service.name" (txt "cloudfront-log-parser")
      ∷ []

  abbrev distribution : CloudFrontAdapter F → Text
  distribution a =
      if is_empty a.distribution_id
        && not (is_empty a.entry.cs_host)
        && has_suffix a.entry.cs_host (txt ".cloudfront.net")
      then trim_suffix a.entry.cs_host (txt ".cloudfront.net")
      else a.distribution_id

  unfoldable pub resource_attributes : CloudFrontAdapter F → List (Attribute F)
  resource_attributes a =
      let id = distribution a in
      ensure_region_account
        (base_attributes ++ given id (string_attr "aws.cloudfront.distribution_id" id)) a.region
        a.account_id

module _ {fl : Floats} where
  open fl use {Float}

  -- url.QueryUnescape of the User-Agent, which itself stands where that fails
  abbrev user_agent : Host fl → CloudFrontAdapter Float → Text
  user_agent host a = or_try (host.query_unescape a.entry.cs_user_agent) a.entry.cs_user_agent

  unfoldable pub adds : Host fl → CloudFrontAdapter Float → List (Add fl)
  adds host a =
      let e = a.entry in
      let ua = user_agent host a in
      (attr "http.request.method" e.cs_method
        ∷ int_attr "http.response.status_code" e.sc_status
        ∷ attr "url.path" e.cs_uri_stem
        ∷ attr "url.query" e.cs_uri_query
        ∷ attr "network.protocol.version" e.cs_protocol_version
        ∷ attr "network.protocol.name" e.cs_protocol
        ∷ attr "user_agent.original" ua
        ∷ [])
      ++ (when (a.enrich_user_agent && not (is_blank ua)) (enrich_user_agent_attributes ua)
          ++ ((attr "client.address" e.c_ip
              ∷ int_attr "client.port" e.c_port
              ∷ attr "server.address" e.cs_host
              ∷ attr "aws.cloudfront.edge_location" e.x_edge_location
              ∷ int_attr "aws.cloudfront.sc_bytes" e.sc_bytes
              ∷ int_attr "aws.cloudfront.cs_bytes" e.cs_bytes
              ∷ attr "aws.cloudfront.result_type" e.x_edge_result_type
              ∷ attr "aws.cloudfront.request_id" e.x_edge_request_id
              ∷ attr "aws.cloudfront.host_header" e.x_host_header
              ∷ float_attr "aws.cloudfront.time_taken" e.time_taken
              ∷ attr "aws.cloudfront.x_forwarded_for" e.x_forwarded_for
              ∷ attr "aws.cloudfront.ssl_protocol" e.ssl_protocol
              ∷ attr "aws.cloudfront.ssl_cipher" e.ssl_cipher
              ∷ attr "aws.cloudfront.response_result_type" e.x_edge_response_result_type
              ∷ attr "aws.cloudfront.fle_status" e.fle_status
              ∷ int_attr "aws.cloudfront.fle_encrypted_fields" e.fle_encrypted_fields
              ∷ float_attr "aws.cloudfront.time_to_first_byte" e.time_to_first_byte
              ∷ attr "aws.cloudfront.detailed_result_type" e.x_edge_detailed_result_type
              ∷ attr "aws.cloudfront.sc_content_type" e.sc_content_type
              ∷ int_attr "aws.cloudfront.sc_content_len" e.sc_content_len
              ∷ attr "aws.cloudfront.sc_range_start" e.sc_range_start
              ∷ attr "aws.cloudfront.sc_range_end" e.sc_range_end
              ∷ [])))

  unfoldable pub build_attributes : Host fl → CloudFrontAdapter Float → List (Attribute Float)
  build_attributes host a = perform fl [] (adds host a)

  unfoldable pub to_otel : Host fl → CloudFrontAdapter Float → LogRecord Float
  to_otel host a =
      let e = a.entry in
      let severity = severity_of_status e.sc_status in
      let time = e.date ++ (txt "T" ++ (e.time ++ txt "Z")) in
      record {
        time_unix_nano = format_int (or_try (host.parse_rfc3339 time) host.now);
        severity_number = severity.number;
        severity_text = severity.text;
        body = e.cs_method ++ (txt " " ++ (e.cs_uri_stem ++ (txt " " ++ format_int e.sc_status)));
        attributes = build_attributes host a;
        trace_id = host.trace_id;
        span_id = host.span_id;
      }

  unfoldable pub adapter : Host fl → CloudFrontAdapter Float → LogAdapter Float
  unfolding resource_key resource_attributes build_attributes to_otel
  adapter host a = record {
    get_resource_key = resource_key a;
    get_resource_attributes = resource_attributes a;
    build_attributes = build_attributes host a;
    to_otel = to_otel host a;
  }
