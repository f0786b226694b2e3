-- ===== src/License/Extract.antt =====
-- ExtractResourceFromAttributes and ExtractResourceFromS3Key of pkg/license/enforcer.go. The result
-- is the ARN and the short identifier. The two CloudFront patterns are those of the processor.
use text.Mathlib.Text.{◌==◌ as str_eq}
use otel_aws_log_processor.Prelude.{
  not, ◌&&◌, ◌||◌, List, [], ◌∷◌, Option, none, some, if◌then◌else◌, is_empty, String, Text, codes,
  txt, text_eq, concat, has_prefix, has_suffix, get_or, ◌==◌,
}
use otel_aws_log_processor.Prelude.Regexp.{
  Regex, start, set, alt, group, literal, plus, times, other_than, ◌⋯◌, find_submatch,
}
use otel_aws_log_processor.Prelude.Strconv.{is_digit}
use otel_aws_log_processor.Model.{Attribute}
use otel_aws_log_processor.Processor.CloudFront.Pattern.{cf_key_pattern, cf_parquet_pattern}
use otel_aws_log_processor.Utils.S3Key.{parse_region_account}

abbrev pub Resource : Type 0
Resource = Text × Text

abbrev text_of : Option Text → Text → Text
text_of none old = old
text_of (some v) old = v

-- The last text under a key, or `old`
unfoldable pub last_value : {F : Type 0} → String → List (Attribute F) → Text → Text
last_value key [] old = old
last_value key (a ∷ rest) old =
    last_value key rest (if str_eq a.key key then text_of a.value.string_value old else old)

abbrev load_balancer : Text → Text → Text → Text
load_balancer region account id =
    if not (is_empty region) && not (is_empty account)
    then concat (
        txt "arn:aws:elasticloadbalancing:"
        ∷ region
        ∷ txt ":"
        ∷ account
        ∷ txt ":loadbalancer/"
        ∷ id
        ∷ [])
    else id

-- Without an account its field is empty.
abbrev distribution : Text → Text → Text
distribution account id =
    concat (txt "arn:aws:cloudfront::" ∷ account ∷ txt ":distribution/" ∷ id ∷ [])

abbrev web_acl : Text → Text → Text → Text
web_acl region account id =
    if has_prefix id (txt "arn:aws:") || is_empty account
    then id
    else if is_empty region || text_eq region (txt "global")
    then concat (txt "arn:aws:wafv2::" ∷ account ∷ txt ":global/webacl/" ∷ id ∷ [])
    else concat
        (txt "arn:aws:wafv2:" ∷ region ∷ txt ":" ∷ account ∷ txt ":regional/webacl/" ∷ id ∷ [])

unfoldable pub resource_of_names : Text → Text → Text → Text → Text → Resource
resource_of_names lb dist acl region account =
    if not (is_empty lb)
    then (load_balancer region account lb, lb)
    else if not (is_empty dist)
    then (distribution account dist, dist)
    else if not (is_empty acl)
    then (web_acl region account acl, acl)
    else ([], [])

unfoldable pub extract_resource_from_attributes : {F : Type 0} → List (Attribute F) → Resource
unfolding last_value
extract_resource_from_attributes attrs =
    resource_of_names (last_value "aws.lb.name" attrs [])
      (last_value "aws.cloudfront.distribution_id" attrs [])
      (last_value "aws.waf.web_acl_id" attrs []) (last_value "cloud.region" attrs [])
      (last_value "cloud.account.id" attrs [])

abbrev underscore : Regex
underscore = literal (codes "_")

-- _elasticloadbalancing_[^_]+_(app|net)\.([^.]+)\.([^._]+)_
abbrev pub alb_nlb_key_pattern : Regex
alb_nlb_key_pattern =
    literal (codes "_elasticloadbalancing_")
    ⋯ plus (set (other_than b'_'))
    ⋯ underscore
    ⋯ group 1 (alt (literal (codes "app")) (literal (codes "net")))
    ⋯ literal (codes ".")
    ⋯ group 2 (plus (set (other_than b'.')))
    ⋯ literal (codes ".")
    ⋯ group 3 (plus (set (λ c. not (c == b'.') && not (c == b'_'))))
    ⋯ underscore

-- aws-waf-logs-([^/]+)
abbrev pub waf_key_pattern : Regex
waf_key_pattern = literal (codes "aws-waf-logs-") ⋯ group 1 (plus (set (other_than b'/')))

-- (?:^|/)AWSLogs/(\d{12})/
abbrev pub aws_logs_account_regex : Regex
aws_logs_account_regex =
    alt start (literal (codes "/"))
    ⋯ literal (codes "AWSLogs/")
    ⋯ group 1 (times 12 (set is_digit))
    ⋯ literal (codes "/")

abbrev group_or_empty : Option (List Text) → Text
group_or_empty none = []
group_or_empty (some ms) = get_or ms 1 []

abbrev account_of_key : Text → Text → Text
account_of_key key account =
    if is_empty account
    then group_or_empty (find_submatch aws_logs_account_regex 1 key)
    else account

abbrev of_load_balancer : Text → Text → Option (List Text) → Option Resource
of_load_balancer region account none = none
of_load_balancer region account (some ms) =
    let id = concat (get_or ms 1 [] ∷ txt "/" ∷ get_or ms 2 [] ∷ txt "/" ∷ get_or ms 3 [] ∷ []) in
    some (load_balancer region account id, id)

abbrev of_distribution : Text → Option (List Text) → Option Resource
of_distribution account none = none
of_distribution account (some ms) = some (distribution account (get_or ms 1 []), get_or ms 1 [])

abbrev of_parquet : Text → Text → Option Resource
of_parquet account key =
    if has_suffix key (txt ".parquet")
    then of_distribution account (find_submatch cf_parquet_pattern 1 key)
    else none

abbrev of_web_acl : Text → Text → Option (List Text) → Option Resource
of_web_acl region account none = none
of_web_acl region account (some ms) = some (web_acl region account (get_or ms 1 []), get_or ms 1 [])

abbrev first_resource : List (Option Resource) → Resource
first_resource [] = ([], [])
first_resource (none ∷ rs) = first_resource rs
first_resource (some r ∷ rs) = r

abbrev resource_of_key : Text → Text → Text → Resource
resource_of_key key region account = first_resource (
    of_load_balancer region account (find_submatch alb_nlb_key_pattern 3 key)
    ∷ of_distribution account (find_submatch cf_key_pattern 1 key)
    ∷ of_parquet account key
    ∷ of_web_acl region account (find_submatch waf_key_pattern 1 key)
    ∷ [])

unfoldable pub extract_resource_from_s3_key : Text → Resource
extract_resource_from_s3_key key =
    let (account, region) = parse_region_account key in
    resource_of_key key region (account_of_key key account)
