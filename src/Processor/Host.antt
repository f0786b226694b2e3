-- ===== src/Processor/Host.antt =====
-- What an adapter takes from the clock, the random source and packages time and net/url.
use otel_aws_log_processor.Prelude.{List, Option, none, some, Text, if◌then◌else◌, is_empty}
use otel_aws_log_processor.Prelude.Int.{ℤ}
use otel_aws_log_processor.Prelude.Floats.{Floats}

pub record Url : Type 0 where
  pub scheme : Text
  pub path : Text
  pub raw_query : Text

pub record Host (fl : Floats) : Type 0 where
  -- time.Now().UnixNano()
  pub now : ℤ
  -- time.Parse with "2006-01-02T15:04:05.999999Z", then UnixNano
  pub parse_micros : Text → Option ℤ
  -- time.Parse with time.RFC3339, then UnixNano
  pub parse_rfc3339 : Text → Option ℤ
  -- GenerateSpanID, GenerateTraceID
  pub span_id : Text
  pub trace_id : Text
  -- url.Parse, url.QueryUnescape
  pub parse_url : Text → Option Url
  pub query_unescape : Text → Option Text
  -- json.Marshal of a list of strings, and of the rules' (ruleId, action, type)
  pub marshal_texts : List Text → Text
  pub marshal_rules : List (Text × Text × Text) → Option Text

-- utils.ConvertTimestamp
unfoldable pub convert_timestamp : {fl : Floats} → Host fl → Text → ℤ
convert_timestamp host s =
    if is_empty s then host.now else elim (host.parse_micros s) [ none ↦ host.now | some t ↦ t ]
