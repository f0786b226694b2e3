-- ===== src/Processor/Nlb.antt =====
-- NLBAdapter of pkg/processor/nlb_processor.go
use otel_aws_log_processor.Prelude.{
  ◌&&◌, not, Bool, List, [], ◌∷◌, ◌++◌, if◌then◌else◌, Text, txt, contains,
}
use otel_aws_log_processor.Prelude.Strconv.{format_int}
use otel_aws_log_processor.Prelude.Floats.{Floats}
use otel_aws_log_processor.Model.{
  Attribute, LogRecord, Add, attr, int_attr, float_attr, perform, string_attr,
  ensure_region_account,
}
use otel_aws_log_processor.Utils.Conversion.{is_blank}
use otel_aws_log_processor.Utils.Arn
use otel_aws_log_processor.Processor.Host.{Host, convert_timestamp}
use otel_aws_log_processor.Processor.Adapter.{LogAdapter, info, when, given}
use otel_aws_log_processor.Parser.Nlb.{NlbLogEntry}

pub record NlbAdapter (F : Type 0) : Type 0 where
  pub entry : NlbLogEntry F
  pub account_id : Text
  pub region : Text

unfoldable pub matches : Text → Text → Bool
unfolding contains
matches bucket key = contains key (txt "/elasticloadbalancing/") && contains key (txt "_net.")

abbrev or_else : Text → Text → Text
or_else s t = if is_blank s then t else s

module _ {F : Type 0} where
  unfoldable pub resource_key : NlbAdapter F → Text
  resource_key a = or_else (or_else a.entry.chosen_cert_arn a.entry.listener_id) a.entry.elb

  abbrev base_attributes : NlbAdapter F → List (Attribute F)
  base_attributes a =
      string_attr "cloud.provider" (txt "aws")
      ∷ string_attr "cloud.platform" (txt "aws_elastic_load_balancing")
      ∷ string_attr "cloud.service" (txt "elasticloadbalancing")
      ∷ string_attr "service.name" (txt "nlb-log-parser")
      ∷ string_attr "aws.lb.name" a.entry.elb
      ∷ []

  abbrev arn_attributes : Text → List (Attribute F)
  arn_attributes arn =
      let (region, account_id) = Arn.parse_region_account arn in
      given region (string_attr "cloud.region" region)
      ++ given account_id (string_attr "cloud.account.id" account_id)

  unfoldable pub resource_attributes : NlbAdapter F → List (Attribute F)
  resource_attributes a =
      let arn = a.entry.chosen_cert_arn in
      ensure_region_account (base_attributes a ++ when (not (is_blank arn)) (arn_attributes arn))
        a.region a.account_id

module _ (fl : Floats) where
  open fl use {Float}

  unfoldable pub adds : NlbAdapter Float → List (Add fl)
  adds a =
      let e = a.entry in
      (attr "network.transport" (txt "tcp")
        ∷ attr "network.protocol.name" e.kind
        ∷ attr "network.protocol.version" e.version
        ∷ attr "client.address" e.client_ip
        ∷ int_attr "client.port" e.client_port
        ∷ attr "server.address" e.target_ip
        ∷ int_attr "server.port" e.target_port
        ∷ attr "tls.cipher_suite" e.tls_cipher
        ∷ attr "tls.protocol.version" e.tls_protocol_version
        ∷ attr "tls.server.name" e.domain_name
        ∷ attr "aws.nlb.type" e.kind
        ∷ attr "aws.nlb.listener_id" e.listener_id
        ∷ float_attr "aws.nlb.connection_time" e.connection_time
        ∷ float_attr "aws.nlb.tls_handshake_time" e.tls_handshake_time
        ∷ int_attr "aws.nlb.received_bytes" e.received_bytes
        ∷ int_attr "aws.nlb.sent_bytes" e.sent_bytes
        ∷ attr "aws.nlb.incoming_tls_alert" e.incoming_tls_alert
        ∷ attr "aws.nlb.chosen_cert_arn" e.chosen_cert_arn
        ∷ attr "aws.nlb.chosen_cert_serial" e.chosen_cert_serial
        ∷ attr "aws.nlb.tls_named_group" e.tls_named_group
        ∷ attr "aws.nlb.alpn_frontend_protocol" e.alpn_front_end_protocol
        ∷ attr "aws.nlb.alpn_backend_protocol" e.alpn_back_end_protocol
        ∷ attr "aws.nlb.alpn_client_preference_list" e.alpn_client_preference_list
        ∷ attr "aws.nlb.tls_connection_creation_time" e.tls_connection_creation_time
        ∷ [])

  unfoldable pub build_attributes : NlbAdapter Float → List (Attribute Float)
  build_attributes a = perform fl [] (adds a)

  unfoldable pub to_otel : Host fl → NlbAdapter Float → LogRecord Float
  to_otel host a =
      let e = a.entry in
      record {
        time_unix_nano = format_int (convert_timestamp host e.time);
        severity_number = info.number;
        severity_text = info.text;
        body = e.kind ++ (txt " log for " ++ e.elb);
        attributes = build_attributes a;
        trace_id = host.trace_id;
        span_id = host.span_id;
      }

  unfoldable pub adapter : Host fl → NlbAdapter Float → LogAdapter Float
  unfolding resource_key resource_attributes build_attributes to_otel
  adapter host a = record {
    get_resource_key = resource_key a;
    get_resource_attributes = resource_attributes a;
    build_attributes = build_attributes a;
    to_otel = to_otel host a;
  }
