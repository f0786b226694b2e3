-- ===== src/Parser/CloudFront.antt =====
-- pkg/parser/cloudfront_parser.go
use otel_aws_log_processor.Prelude.{
  List, [], if◌then◌else◌, ltb, length, get_or, Text, trim_space, split,
}
use otel_aws_log_processor.Prelude.Int.{ℤ}
use otel_aws_log_processor.Prelude.Floats.{Floats}
use otel_aws_log_processor.Utils.Conversion.{parse_int, parse_float}
use otel_aws_log_processor.Parser.Line.{Line, skipped, failed, entry, is_skipped}

pub record CloudFrontLogEntry (F : Type 0) : Type 0 where
  pub date : Text
  pub time : Text
  pub x_edge_location : Text
  pub sc_bytes : ℤ
  pub c_ip : Text
  pub cs_method : Text
  pub cs_host : Text
  pub cs_uri_stem : Text
  pub sc_status : ℤ
  pub cs_referer : Text
  pub cs_user_agent : Text
  pub cs_uri_query : Text
  pub cs_cookie : Text
  pub x_edge_result_type : Text
  pub x_edge_request_id : Text
  pub x_host_header : Text
  pub cs_protocol : Text
  pub cs_bytes : ℤ
  pub time_taken : F
  pub x_forwarded_for : Text
  pub ssl_protocol : Text
  pub ssl_cipher : Text
  pub x_edge_response_result_type : Text
  pub cs_protocol_version : Text
  pub fle_status : Text
  pub fle_encrypted_fields : ℤ
  pub c_port : ℤ
  pub time_to_first_byte : F
  pub x_edge_detailed_result_type : Text
  pub sc_content_type : Text
  pub sc_content_len : ℤ
  pub sc_range_start : Text
  pub sc_range_end : Text

-- A row of a Parquet file has every field as a text.
pub record CloudFrontParquetLogEntry : Type 0 where
  pub date : Text
  pub time : Text
  pub x_edge_location : Text
  pub sc_bytes : Text
  pub c_ip : Text
  pub cs_method : Text
  pub cs_host : Text
  pub cs_uri_stem : Text
  pub sc_status : Text
  pub cs_referer : Text
  pub cs_user_agent : Text
  pub cs_uri_query : Text
  pub cs_cookie : Text
  pub x_edge_result_type : Text
  pub x_edge_request_id : Text
  pub x_host_header : Text
  pub cs_protocol : Text
  pub cs_bytes : Text
  pub time_taken : Text
  pub x_forwarded_for : Text
  pub ssl_protocol : Text
  pub ssl_cipher : Text
  pub x_edge_response_result_type : Text
  pub cs_protocol_version : Text
  pub fle_status : Text
  pub fle_encrypted_fields : Text
  pub c_port : Text
  pub time_to_first_byte : Text
  pub x_edge_detailed_result_type : Text
  pub sc_content_type : Text
  pub sc_content_len : Text
  pub sc_range_start : Text
  pub sc_range_end : Text

module _ (fl : Floats) where
  open fl use {Float}

  unfoldable pub to_log_entry : CloudFrontParquetLogEntry → CloudFrontLogEntry Float
  to_log_entry p = record {
    date = p.date;
    time = p.time;
    x_edge_location = p.x_edge_location;
    sc_bytes = parse_int p.sc_bytes;
    c_ip = p.c_ip;
    cs_method = p.cs_method;
    cs_host = p.cs_host;
    cs_uri_stem = p.cs_uri_stem;
    sc_status = parse_int p.sc_status;
    cs_referer = p.cs_referer;
    cs_user_agent = p.cs_user_agent;
    cs_uri_query = p.cs_uri_query;
    cs_cookie = p.cs_cookie;
    x_edge_result_type = p.x_edge_result_type;
    x_edge_request_id = p.x_edge_request_id;
    x_host_header = p.x_host_header;
    cs_protocol = p.cs_protocol;
    cs_bytes = parse_int p.cs_bytes;
    time_taken = parse_float fl p.time_taken;
    x_forwarded_for = p.x_forwarded_for;
    ssl_protocol = p.ssl_protocol;
    ssl_cipher = p.ssl_cipher;
    x_edge_response_result_type = p.x_edge_response_result_type;
    cs_protocol_version = p.cs_protocol_version;
    fle_status = p.fle_status;
    fle_encrypted_fields = parse_int p.fle_encrypted_fields;
    c_port = parse_int p.c_port;
    time_to_first_byte = parse_float fl p.time_to_first_byte;
    x_edge_detailed_result_type = p.x_edge_detailed_result_type;
    sc_content_type = p.sc_content_type;
    sc_content_len = parse_int p.sc_content_len;
    sc_range_start = p.sc_range_start;
    sc_range_end = p.sc_range_end;
  }

  unfoldable pub entry_of_fields : List Text → CloudFrontLogEntry Float
  entry_of_fields fs = record {
    date = get_or fs 0 [];
    time = get_or fs 1 [];
    x_edge_location = get_or fs 2 [];
    sc_bytes = parse_int (get_or fs 3 []);
    c_ip = get_or fs 4 [];
    cs_method = get_or fs 5 [];
    cs_host = get_or fs 6 [];
    cs_uri_stem = get_or fs 7 [];
    sc_status = parse_int (get_or fs 8 []);
    cs_referer = get_or fs 9 [];
    cs_user_agent = get_or fs 10 [];
    cs_uri_query = get_or fs 11 [];
    cs_cookie = get_or fs 12 [];
    x_edge_result_type = get_or fs 13 [];
    x_edge_request_id = get_or fs 14 [];
    x_host_header = get_or fs 15 [];
    cs_protocol = get_or fs 16 [];
    cs_bytes = parse_int (get_or fs 17 []);
    time_taken = parse_float fl (get_or fs 18 []);
    x_forwarded_for = get_or fs 19 [];
    ssl_protocol = get_or fs 20 [];
    ssl_cipher = get_or fs 21 [];
    x_edge_response_result_type = get_or fs 22 [];
    cs_protocol_version = get_or fs 23 [];
    fle_status = get_or fs 24 [];
    fle_encrypted_fields = parse_int (get_or fs 25 []);
    c_port = parse_int (get_or fs 26 []);
    time_to_first_byte = parse_float fl (get_or fs 27 []);
    x_edge_detailed_result_type = get_or fs 28 [];
    sc_content_type = get_or fs 29 [];
    sc_content_len = parse_int (get_or fs 30 []);
    sc_range_start = get_or fs 31 [];
    sc_range_end = get_or fs 32 [];
  }

  unfoldable pub parse_log_line : Text → Line (CloudFrontLogEntry Float)
  unfolding entry_of_fields
  parse_log_line line =
      let line' = trim_space line in
      let fs = split line' b'\t' in
      if is_skipped line'
      then skipped
      else if ltb (length fs) 33
      then failed
      else entry (entry_of_fields fs)
