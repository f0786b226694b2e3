-- ===== src/Utils/S3Key.antt =====
-- pkg/utils/s3_utils.go
use otel_aws_log_processor.Prelude.{
  List, [], Option, none, some, Text, leb, if◌then◌else◌, length, get_or, codes,
}
use otel_aws_log_processor.Prelude.Strconv.{is_digit}
use otel_aws_log_processor.Prelude.Regexp.{
  Regex, set, group, plus, literal, other_than, ◌⋯◌, find_submatch,
}

-- AWSLogs/(\d+)/[^/]+/([^/]+)/
abbrev pub aws_logs_key_pattern : Regex
aws_logs_key_pattern =
    literal (codes "AWSLogs/")
    ⋯ group 1 (plus (set is_digit))
    ⋯ literal (codes "/")
    ⋯ plus (set (other_than b'/'))
    ⋯ literal (codes "/")
    ⋯ group 2 (plus (set (other_than b'/')))
    ⋯ literal (codes "/")

abbrev account_region : Option (List Text) → Text × Text
account_region none = ([], [])
account_region (some ms) = if leb 3 (length ms) then (get_or ms 1 [], get_or ms 2 []) else ([], [])

-- (accountID, region)
unfoldable pub parse_region_account : Text → Text × Text
parse_region_account key = account_region (find_submatch aws_logs_key_pattern 2 key)
