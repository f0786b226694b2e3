-- ===== src/Utils/Arn.antt =====
-- ParseRegionAccountFromARN of pkg/utils/otel_utils.go and ExtractAccountIDFromARN of
-- pkg/license/enforcer.go
pub mod Laws
use otel_aws_log_processor.Prelude.{
  ◌&&◌, List, [], leb, ◌==◌, if◌then◌else◌, length, get_or, Text, split, trim_space, byte_len,
}
use otel_aws_log_processor.Utils.Conversion.{is_blank}

abbrev pub region_account : List Text → Text × Text
region_account parts =
    if leb 6 (length parts) then (get_or parts 3 [], get_or parts 4 []) else ([], [])

-- (region, accountID)
unfoldable pub parse_region_account : Text → Text × Text
parse_region_account arn = if is_blank arn then ([], []) else region_account (split arn b':')

abbrev account_part : List Text → Text
account_part parts =
    if leb 5 (length parts) && (byte_len (get_or parts 4 []) == 12) then get_or parts 4 [] else []

unfoldable pub extract_account_id : Text → Text
extract_account_id arn = account_part (split (trim_space arn) b':')
