-- ===== src/Parser/Alb.antt =====
-- pkg/parser/alb_parser.go
mod Pattern
mod Tests
use Pattern.{alb_log_pattern}
use otel_aws_log_processor.Prelude.{List, Option, none, some, if◌then◌else◌, Text, trim_space}
use otel_aws_log_processor.Prelude.Int.{ℤ}
use otel_aws_log_processor.Prelude.Floats.{Floats}
use otel_aws_log_processor.Prelude.Regexp.{find_submatch}
use otel_aws_log_processor.Utils.Conversion.{get_match, parse_int, parse_float}
use otel_aws_log_processor.Parser.Line.{Line, skipped, failed, entry, is_skipped}

pub record AlbLogEntry (F : Type 0) : Type 0 where
  pub kind : Text
  pub time : Text
  pub elb : Text
  pub client_ip : Text
  pub client_port : ℤ
  pub target_ip : Text
  pub target_port : ℤ
  pub request_processing_time : F
  pub target_processing_time : F
  pub response_processing_time : F
  pub elb_status_code : ℤ
  pub target_status_code : Text
  pub received_bytes : ℤ
  pub sent_bytes : ℤ
  pub request_verb : Text
  pub request_url : Text
  pub request_proto : Text
  pub user_agent : Text
  pub ssl_cipher : Text
  pub ssl_protocol : Text
  pub target_group_arn : Text
  pub trace_id : Text
  pub domain_name : Text
  pub chosen_cert_arn : Text
  pub matched_rule_priority : Text
  pub request_creation_time : Text
  pub actions_executed : Text
  pub redirect_url : Text
  pub lambda_error_reason : Text
  pub target_port_list : Text
  pub target_status_code_list : Text
  pub classification : Text
  pub classification_reason : Text
  pub conn_trace_id : Text
  pub transformed_host : Text
  pub transformed_uri : Text
  pub request_transform_status : Text

module _ (fl : Floats) where
  open fl use {Float}

  unfoldable pub entry_of_matches : List Text → AlbLogEntry Float
  entry_of_matches ms = record {
    kind = get_match ms 1;
    time = get_match ms 2;
    elb = get_match ms 3;
    client_ip = get_match ms 4;
    client_port = parse_int (get_match ms 5);
    target_ip = get_match ms 6;
    target_port = parse_int (get_match ms 7);
    request_processing_time = parse_float fl (get_match ms 8);
    target_processing_time = parse_float fl (get_match ms 9);
    response_processing_time = parse_float fl (get_match ms 10);
    elb_status_code = parse_int (get_match ms 11);
    target_status_code = get_match ms 12;
    received_bytes = parse_int (get_match ms 13);
    sent_bytes = parse_int (get_match ms 14);
    request_verb = get_match ms 15;
    request_url = get_match ms 16;
    request_proto = get_match ms 17;
    user_agent = get_match ms 18;
    ssl_cipher = get_match ms 19;
    ssl_protocol = get_match ms 20;
    target_group_arn = get_match ms 21;
    trace_id = get_match ms 22;
    domain_name = get_match ms 23;
    chosen_cert_arn = get_match ms 24;
    matched_rule_priority = get_match ms 25;
    request_creation_time = get_match ms 26;
    actions_executed = get_match ms 27;
    redirect_url = get_match ms 28;
    lambda_error_reason = get_match ms 29;
    target_port_list = get_match ms 30;
    target_status_code_list = get_match ms 31;
    classification = get_match ms 32;
    classification_reason = get_match ms 33;
    conn_trace_id = get_match ms 34;
    transformed_host = get_match ms 35;
    transformed_uri = get_match ms 36;
    request_transform_status = get_match ms 37;
  }

  abbrev entry_of_submatch : Option (List Text) → Line (AlbLogEntry Float)
  entry_of_submatch none = failed
  entry_of_submatch (some ms) = entry (entry_of_matches ms)

  unfoldable pub parse_log_line : Text → Line (AlbLogEntry Float)
  unfolding entry_of_matches
  parse_log_line line =
      let line' = trim_space line in
      if is_skipped line'
      then skipped
      else entry_of_submatch (find_submatch alb_log_pattern 37 line')
