-- ===== src/License/Production.antt =====
-- The production indicators of pkg/license/enforcer.go
use otel_aws_log_processor.Prelude.{
  ◌||◌, List, [], ◌∷◌, ◌++◌, Option, none, some, ◌==◌, if◌then◌else◌, is_empty, Text, codes, txt,
  concat, trim_space, to_lower, get_or, String,
}
use otel_aws_log_processor.Prelude.Regexp.{
  Regex, start, finish, alt, set, group, literal_fold, ◌⋯◌, find_submatch,
}
use otel_aws_log_processor.Prelude.Sets.{mem}
use otel_aws_log_processor.License.Host.{Host}

abbrev pub is_delimiter : Regex
is_delimiter = set (λ c. c == b'-' || c == b'_' || c == b'.' || c == b'/' || c == b':')

-- (?i)(?:^|[-_./:])(production|prod|live|prd)(?:$|[-_./:])
abbrev pub prod_keyword_regex : Regex
prod_keyword_regex =
    alt start is_delimiter
    ⋯ group 1 (
        alt (literal_fold (codes "production")) (
          alt (literal_fold (codes "prod"))
            (alt (literal_fold (codes "live")) (literal_fold (codes "prd")))))
    ⋯ alt finish is_delimiter

abbrev keyword_of : Option (List Text) → Option Text
keyword_of none = none
keyword_of (some ms) = some (to_lower (get_or ms 1 []))

-- The keyword, in lower case
unfoldable pub matches_prod_keyword : Text → Option Text
matches_prod_keyword s =
    if is_empty (trim_space s)
    then none
    else keyword_of (find_submatch prod_keyword_regex 1 (trim_space s))

abbrev found : String → Text → Option Text → Option Text → Option Text
found what s none rest = rest
found what s (some kw) rest =
    some (concat (txt what ∷ s ∷ txt "' contains production indicator '" ∷ kw ∷ txt "'" ∷ []))

unfoldable pub first_indicator : String → List Text → Option Text → Option Text
unfolding matches_prod_keyword
first_indicator what [] rest = rest
first_indicator what (s ∷ ss) rest =
    found what s (matches_prod_keyword s) (first_indicator what ss rest)

-- The buckets, with BucketName last if it is not among them
abbrev pub all_buckets : Text → List Text → List Text
all_buckets name names =
    if is_empty name then names else if mem name names then names else names ++ name ∷ []

abbrev of_option : Option Text → List Text
of_option none = []
of_option (some s) = s ∷ []

-- A text that is tested only if it is not empty
abbrev nonempty : Text → List Text
nonempty s = if is_empty s then [] else s ∷ []

abbrev pub project_or_env : Host → Text → Text
project_or_env h p =
    if is_empty (trim_space p) then trim_space (h.env "PROJECT_NAME") else trim_space p

-- The reason, if there is an indicator: in the buckets, the name of the function, its ARN, the
-- project, or the resources
unfoldable pub detect_production_indicators :
    Host → Text → List Text → Text → List Text → Option Text
unfolding first_indicator mem
detect_production_indicators h bucket buckets project arns =
    first_indicator "S3 bucket name '" (all_buckets bucket buckets) (
      first_indicator "Lambda function name '"
        (nonempty (trim_space (h.env "AWS_LAMBDA_FUNCTION_NAME")))
        (first_indicator "Invoked Lambda function ARN '" (of_option h.invoked_function_arn) (
          first_indicator "Project name '" (nonempty (project_or_env h project))
            (first_indicator "Monitored resource '" arns none))))
