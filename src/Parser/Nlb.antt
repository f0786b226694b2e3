-- ===== src/Parser/Nlb.antt =====
-- pkg/parser/nlb_parser.go
pub mod Laws
use otel_aws_log_processor.Prelude.{
  ◌-◌, ◌||◌, List, [], Option, none, some, if◌then◌else◌, leb, ltb, ◌==◌, length, get_or, Text, txt,
  text_eq, trim_space, trim_prefix, trim_suffix, cut_last, fields,
}
use otel_aws_log_processor.Prelude.Int.{ℤ, pos, ltb_ℤ}
use otel_aws_log_processor.Prelude.Floats.{Floats}
use otel_aws_log_processor.Utils.Conversion.{is_dash, is_blank, safe_string, parse_int, parse_float}
use otel_aws_log_processor.Parser.Line.{Line, skipped, failed, entry, is_skipped}

pub record NlbLogEntry (F : Type 0) : Type 0 where
  pub kind : Text  -- Type
  pub version : Text
  pub time : Text
  pub elb : Text
  pub listener_id : Text
  pub client_ip : Text
  pub client_port : ℤ
  pub target_ip : Text
  pub target_port : ℤ
  pub connection_time : F
  pub tls_handshake_time : F
  pub received_bytes : ℤ
  pub sent_bytes : ℤ
  pub incoming_tls_alert : Text
  pub chosen_cert_arn : Text
  pub chosen_cert_serial : Text
  pub tls_cipher : Text
  pub tls_protocol_version : Text
  pub tls_named_group : Text
  pub domain_name : Text
  pub alpn_front_end_protocol : Text
  pub alpn_back_end_protocol : Text
  pub alpn_client_preference_list : Text
  pub tls_connection_creation_time : Text

abbrev unbracket : Text → Text
unbracket ip = trim_suffix (trim_prefix ip (txt "[")) (txt "]")

abbrev clear_dash : Text → Text
clear_dash ip = if is_dash ip then [] else ip

abbrev pub clamp_port : ℤ → ℤ
clamp_port port = if ltb_ℤ port (pos 0) then pos 0 else port

abbrev pub host_port : Text → Option (Text × Text) → Text × ℤ
host_port s none = (s, pos 0)
host_port s (some (ip, port)) =
    (clear_dash (unbracket (trim_space ip)), clamp_port (parse_int (trim_space port)))

unfoldable pub parse_ip_port : Text → Text × ℤ
unfolding txt
parse_ip_port s =
    let s' = trim_space s in
    if is_blank s' || text_eq s' (txt "-1") || text_eq s' (txt "- -")
    then ([], pos 0)
    else host_port s' (cut_last s' b':')

module _ (fl : Floats) where
  open fl use {Float, zero as zero_float}

  -- The first ten fields are common; the others keep Go's zero values until they are set.
  unfoldable pub base_entry : List Text → NlbLogEntry Float
  base_entry fs =
      let (client_ip, client_port) = parse_ip_port (get_or fs 5 []) in
      let (target_ip, target_port) = parse_ip_port (get_or fs 6 []) in
      record {
        kind = safe_string (get_or fs 0 []);
        version = safe_string (get_or fs 1 []);
        time = safe_string (get_or fs 2 []);
        elb = safe_string (get_or fs 3 []);
        listener_id = safe_string (get_or fs 4 []);
        client_ip = client_ip;
        client_port = client_port;
        target_ip = target_ip;
        target_port = target_port;
        connection_time = parse_float fl (get_or fs 7 []);
        tls_handshake_time = zero_float;
        received_bytes = pos 0;
        sent_bytes = pos 0;
        incoming_tls_alert = [];
        chosen_cert_arn = [];
        chosen_cert_serial = [];
        tls_cipher = [];
        tls_protocol_version = [];
        tls_named_group = [];
        domain_name = [];
        alpn_front_end_protocol = [];
        alpn_back_end_protocol = [];
        alpn_client_preference_list = [];
        tls_connection_creation_time = [];
      }

  -- 10 fields
  unfoldable pub tcp_entry : List Text → NlbLogEntry Float → NlbLogEntry Float
  tcp_entry fs e = record e {
    received_bytes = parse_int (get_or fs 8 []);
    sent_bytes = parse_int (get_or fs 9 []);
  }

  -- 22 fields and more
  unfoldable pub tls_entry : List Text → NlbLogEntry Float → NlbLogEntry Float
  tls_entry fs e = record e {
    tls_handshake_time = parse_float fl (get_or fs 8 []);
    received_bytes = parse_int (get_or fs 9 []);
    sent_bytes = parse_int (get_or fs 10 []);
    incoming_tls_alert = safe_string (get_or fs 11 []);
    chosen_cert_arn = safe_string (get_or fs 12 []);
    chosen_cert_serial = safe_string (get_or fs 13 []);
    tls_cipher = safe_string (get_or fs 14 []);
    tls_protocol_version = safe_string (get_or fs 15 []);
    tls_named_group = safe_string (get_or fs 16 []);
    domain_name = safe_string (get_or fs 17 []);
    alpn_front_end_protocol = safe_string (get_or fs 18 []);
    alpn_back_end_protocol = safe_string (get_or fs 19 []);
    alpn_client_preference_list = safe_string (get_or fs 20 []);
    tls_connection_creation_time = safe_string (get_or fs 21 []);
  }

  -- 11 to 21 fields
  unfoldable pub fallback_entry : List Text → NlbLogEntry Float → NlbLogEntry Float
  fallback_entry fs e =
      let n = length fs in
      let handshake = parse_float fl (get_or fs 8 []) in
      if text_eq e.kind (txt "tcp")
      then record e {
        received_bytes = parse_int (get_or fs (n - 2) []);
        sent_bytes = parse_int (get_or fs (n - 1) []);
        tls_handshake_time = if leb 11 n then handshake else e.tls_handshake_time;
      }
      else record e {
        tls_handshake_time = handshake;
        received_bytes = if ltb 9 n then parse_int (get_or fs 9 []) else e.received_bytes;
        sent_bytes = if ltb 10 n then parse_int (get_or fs 10 []) else e.sent_bytes;
      }

  unfoldable pub entry_of_fields : List Text → Line (NlbLogEntry Float)
  unfolding base_entry tcp_entry tls_entry fallback_entry
  entry_of_fields fs =
      let n = length fs in
      let e = base_entry fs in
      if ltb n 10
      then failed
      else if n == 10
      then entry (tcp_entry fs e)
      else if leb 22 n
      then entry (tls_entry fs e)
      else entry (fallback_entry fs e)

  unfoldable pub parse_log_line : Text → Line (NlbLogEntry Float)
  unfolding entry_of_fields
  parse_log_line line =
      let line' = trim_space line in
      if is_skipped line' then skipped else entry_of_fields (fields line')
