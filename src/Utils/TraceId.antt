-- ===== src/Utils/TraceId.antt =====
-- ParseAWSTraceID of pkg/utils/otel_utils.go
pub mod Laws
use otel_aws_log_processor.Prelude.{
  ℕ, Bool, ◌&&◌, ◌||◌, List, [], ◌++◌, leb, ◌==◌, if◌then◌else◌, length, get_or, all, Text, txt,
  split, trim_prefix, to_lower, byte_len,
}
use otel_aws_log_processor.Utils.Conversion.{is_blank}

abbrev pub is_hex_digit : ℕ → Bool
is_hex_digit c =
    (leb b'0' c && leb c b'9') || (leb b'a' c && leb c b'f') || (leb b'A' c && leb c b'F')

unfoldable pub is_hex : Text → Bool
is_hex s = all is_hex_digit s

abbrev pub checked : Text → Text
checked id = if (byte_len id == 32) && is_hex id then to_lower id else []

abbrev pub from_parts : List Text → Text
from_parts parts =
    if leb 3 (length parts) then checked (get_or parts 1 [] ++ get_or parts 2 []) else []

unfoldable pub parse_aws_trace_id : Text → Text
unfolding is_hex
parse_aws_trace_id s =
    if is_blank s then [] else from_parts (split (trim_prefix s (txt "Root=")) b'-')
