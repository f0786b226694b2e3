-- ===== src/Processor/CloudFront/Pattern.antt =====
-- The regular expressions of pkg/processor/cloudfront_processor.go
use otel_aws_log_processor.Prelude.{◌||◌, ◌==◌, codes}
use otel_aws_log_processor.Prelude.Strconv.{is_digit}
use otel_aws_log_processor.Prelude.Regexp.{
  Regex, start, finish, set, alt, group, literal, plus, times, up_to, within, ◌⋯◌,
}

-- [A-Z0-9]
abbrev upper_digit : Regex
upper_digit = set (λ c. within b'A' b'Z' c || is_digit c)

abbrev digit : Regex
digit = set is_digit

abbrev dash : Regex
dash = set (λ c. c == b'-')

-- \d{4}-\d{2}-\d{2}
abbrev day : Regex
day = times 4 digit ⋯ dash ⋯ times 2 digit ⋯ dash ⋯ times 2 digit

-- [A-Z0-9]+\.\d{4}-\d{2}-\d{2}-\d{2}\.[a-zA-Z0-9]+\.(gz|parquet)$
abbrev pub cloud_front_log_pattern : Regex
cloud_front_log_pattern =
    plus upper_digit
    ⋯ literal (codes ".")
    ⋯ day
    ⋯ dash
    ⋯ times 2 digit
    ⋯ literal (codes ".")
    ⋯ plus (set (λ c. within b'a' b'z' c || within b'A' b'Z' c || is_digit c))
    ⋯ literal (codes ".")
    ⋯ group 1 (alt (literal (codes "gz")) (literal (codes "parquet")))
    ⋯ finish

-- (?:^|/)([A-Z0-9]{8,32})
abbrev id_segment : Regex
id_segment = alt start (literal (codes "/")) ⋯ group 1 (times 8 upper_digit ⋯ up_to 24 upper_digit)

-- (?:^|/)([A-Z0-9]{8,32})\.\d{4}-\d{2}-\d{2}
abbrev pub cf_key_pattern : Regex
cf_key_pattern = id_segment ⋯ literal (codes ".") ⋯ day

-- (?:^|/)([A-Z0-9]{8,32})[._]
abbrev pub cf_parquet_pattern : Regex
cf_parquet_pattern = id_segment ⋯ set (λ c. c == b'.' || c == b'_')
