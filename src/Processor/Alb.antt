-- ===== src/Processor/Alb.antt =====
-- ALBAdapter of pkg/processor/alb_processor.go
use otel_aws_log_processor.Prelude.{
  ◌&&◌, not, Bool, List, [], ◌∷◌, ◌++◌, if◌then◌else◌, Text, txt, contains,
}
use otel_aws_log_processor.Prelude.Strconv.{format_int}
use otel_aws_log_processor.Prelude.Floats.{Floats}
use otel_aws_log_processor.Model.{
  Attribute, LogRecord, Add, attr, int_attr, float_attr, perform, string_attr,
  ensure_region_account,
}
use otel_aws_log_processor.Utils.Conversion.{is_blank}
use otel_aws_log_processor.Utils.Arn
use otel_aws_log_processor.Utils.TraceId.{parse_aws_trace_id}
use otel_aws_log_processor.Utils.UserAgent.{enrich_user_agent_attributes}
use otel_aws_log_processor.Processor.Host.{Host, convert_timestamp}
use otel_aws_log_processor.Processor.Adapter.{
  LogAdapter, severity_of_status, when, given, parse_request_url,
}
use otel_aws_log_processor.Parser.Alb.{AlbLogEntry}

pub record AlbAdapter (F : Type 0) : Type 0 where
  pub entry : AlbLogEntry F
  pub account_id : Text
  pub region : Text
  pub enrich_user_agent : Bool

unfoldable pub matches : Text → Text → Bool
unfolding contains
matches bucket key = contains key (txt "/elasticloadbalancing/") && contains key (txt "_app.")

module _ {F : Type 0} where
  unfoldable pub resource_key : AlbAdapter F → Text
  resource_key a =
      if is_blank a.entry.target_group_arn then a.entry.elb else a.entry.target_group_arn

  abbrev base_attributes : AlbAdapter F → List (Attribute F)
  base_attributes a =
      string_attr "cloud.provider" (txt "aws")
      ∷ string_attr "cloud.platform" (txt "aws_elastic_load_balancing")
      ∷ string_attr "cloud.service" (txt "elasticloadbalancing")
      ∷ string_attr "service.name" (txt "alb-log-parser")
      ∷ string_attr "aws.lb.name" a.entry.elb
      ∷ []

  abbrev arn_attributes : Text → List (Attribute F)
  arn_attributes arn =
      let (region, account_id) = Arn.parse_region_account arn in
      string_attr "aws.alb.target_group_arn" arn
      ∷ (given region (string_attr "cloud.region" region)
          ++ given account_id (string_attr "cloud.account.id" account_id))

  unfoldable pub resource_attributes : AlbAdapter F → List (Attribute F)
  resource_attributes a =
      let arn = a.entry.target_group_arn in
      ensure_region_account (base_attributes a ++ when (not (is_blank arn)) (arn_attributes arn))
        a.region a.account_id

module _ {fl : Floats} where
  open fl use {Float}

  unfoldable pub adds : Host fl → AlbAdapter Float → List (Add fl)
  adds host a =
      let e = a.entry in
      (attr "http.request.method" e.request_verb
        ∷ int_attr "http.response.status_code" e.elb_status_code
        ∷ int_attr "http.request.body.size" e.received_bytes
        ∷ int_attr "http.response.body.size" e.sent_bytes
        ∷ attr "url.full" e.request_url
        ∷ [])
      ++ (parse_request_url host e.request_url
          ++ ((attr "network.protocol.name" (txt "http")
                ∷ attr "network.protocol.version" e.request_proto
                ∷ attr "client.address" e.client_ip
                ∷ int_attr "client.port" e.client_port
                ∷ attr "server.address" e.domain_name
                ∷ attr "server.socket.address" e.target_ip
                ∷ int_attr "server.socket.port" e.target_port
                ∷ attr "user_agent.original" e.user_agent
                ∷ [])
              ++ (when (a.enrich_user_agent && not (is_blank e.user_agent))
                    (enrich_user_agent_attributes e.user_agent)
                  ++ ((attr "tls.cipher_suite" e.ssl_cipher
                      ∷ attr "tls.protocol.version" e.ssl_protocol
                      ∷ attr "aws.alb.type" e.kind
                      ∷ float_attr "aws.alb.request_processing_time" e.request_processing_time
                      ∷ float_attr "aws.alb.target_processing_time" e.target_processing_time
                      ∷ float_attr "aws.alb.response_processing_time" e.response_processing_time
                      ∷ attr "aws.alb.target_status_code" e.target_status_code
                      ∷ attr "aws.alb.trace_id" e.trace_id
                      ∷ attr "aws.alb.chosen_cert_arn" e.chosen_cert_arn
                      ∷ attr "aws.alb.matched_rule_priority" e.matched_rule_priority
                      ∷ attr "aws.alb.request_creation_time" e.request_creation_time
                      ∷ attr "aws.alb.actions_executed" e.actions_executed
                      ∷ attr "aws.alb.redirect_url" e.redirect_url
                      ∷ attr "aws.alb.lambda_error_reason" e.lambda_error_reason
                      ∷ attr "aws.alb.target_port_list" e.target_port_list
                      ∷ attr "aws.alb.target_status_code_list" e.target_status_code_list
                      ∷ attr "aws.alb.classification" e.classification
                      ∷ attr "aws.alb.classification_reason" e.classification_reason
                      ∷ attr "aws.alb.conn_trace_id" e.conn_trace_id
                      ∷ [])))))

  unfoldable pub build_attributes : Host fl → AlbAdapter Float → List (Attribute Float)
  build_attributes host a = perform fl [] (adds host a)

  unfoldable pub to_otel : Host fl → AlbAdapter Float → LogRecord Float
  to_otel host a =
      let e = a.entry in
      let severity = severity_of_status e.elb_status_code in
      record {
        time_unix_nano = format_int (convert_timestamp host e.time);
        severity_number = severity.number;
        severity_text = severity.text;
        body = e.request_verb ++ (txt " " ++ (e.request_url ++ (txt " " ++ e.request_proto)));
        attributes = build_attributes host a;
        trace_id = parse_aws_trace_id e.trace_id;
        span_id = host.span_id;
      }

  unfoldable pub adapter : Host fl → AlbAdapter Float → LogAdapter Float
  unfolding resource_key resource_attributes build_attributes to_otel
  adapter host a = record {
    get_resource_key = resource_key a;
    get_resource_attributes = resource_attributes a;
    build_attributes = build_attributes host a;
    to_otel = to_otel host a;
  }
