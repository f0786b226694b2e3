-- ===== src/Utils/UserAgent/Patterns.antt =====
-- The regular expressions of pkg/utils/user_agent.go
use otel_aws_log_processor.Prelude.{◌||◌, not, ◌==◌, Text, codes}
use otel_aws_log_processor.Prelude.Strconv.{is_digit}
use otel_aws_log_processor.Prelude.Regexp.{
  Regex, start, set, star, alt, group, literal, literal_fold, plus, optional, within, ◌⋯◌,
}

-- ([0-9.]+)
abbrev version : Regex
version = group 1 (plus (set (λ c. is_digit c || c == b'.')))

-- ([0-9_.]+)
abbrev version_or_underscore : Regex
version_or_underscore = group 1 (plus (set (λ c. is_digit c || c == b'.' || c == b'_')))

-- (?i) of a name, a slash and a version
abbrev product : Text → Regex
product name = literal_fold name ⋯ literal (codes "/") ⋯ version

-- .*
abbrev anything : Regex
anything = star (set (λ c. not (c == b'\n')))

-- \s+
abbrev spaces : Regex
spaces = plus (set (λ c. c == b' ' || within b'\t' b'\n' c || within b'\x0c' b'\r' c))

abbrev pub edg_regex : Regex
edg_regex =
    alt (literal_fold (codes "edg")) (
      alt (literal_fold (codes "edge"))
        (alt (literal_fold (codes "edga")) (literal_fold (codes "edgios"))))
    ⋯ literal (codes "/")
    ⋯ version

abbrev pub opr_regex : Regex
opr_regex =
    alt (literal_fold (codes "opr")) (literal_fold (codes "opera")) ⋯ literal (codes "/") ⋯ version

abbrev pub samsung_regex : Regex
samsung_regex = product (codes "samsungbrowser")

abbrev pub chrome_regex : Regex
chrome_regex =
    alt (literal_fold (codes "chrome")) (literal_fold (codes "crios"))
    ⋯ literal (codes "/")
    ⋯ version

abbrev pub firefox_regex : Regex
firefox_regex =
    alt (literal_fold (codes "firefox")) (literal_fold (codes "fxios"))
    ⋯ literal (codes "/")
    ⋯ version

abbrev pub safari_ver_regex : Regex
safari_ver_regex = product (codes "version") ⋯ anything ⋯ literal_fold (codes "safari")

abbrev pub safari_raw_regex : Regex
safari_raw_regex = product (codes "safari")

abbrev pub msie_regex : Regex
msie_regex = literal_fold (codes "msie") ⋯ spaces ⋯ version

abbrev pub trident_regex : Regex
trident_regex = literal_fold (codes "trident/") ⋯ anything ⋯ literal_fold (codes "rv:") ⋯ version

abbrev pub curl_regex : Regex
curl_regex = product (codes "curl")

abbrev pub wget_regex : Regex
wget_regex = product (codes "wget")

abbrev pub postman_regex : Regex
postman_regex = product (codes "postmanruntime")

abbrev pub requests_regex : Regex
requests_regex = product (codes "python-requests")

abbrev pub aiohttp_regex : Regex
aiohttp_regex = product (codes "aiohttp")

abbrev pub go_client_regex : Regex
go_client_regex = product (codes "go-http-client")

abbrev pub java_regex : Regex
java_regex = literal_fold (codes "java/") ⋯ version_or_underscore

abbrev pub apache_http_regex : Regex
apache_http_regex = product (codes "apache-httpclient")

abbrev pub elb_health_regex : Regex
elb_health_regex = product (codes "elb-healthchecker")

abbrev pub googlebot_regex : Regex
googlebot_regex = product (codes "googlebot")

abbrev pub bingbot_regex : Regex
bingbot_regex = product (codes "bingbot")

-- ^([A-Za-z0-9_-]+)/([0-9.]+)
abbrev pub generic_tool_regex : Regex
generic_tool_regex =
    start
    ⋯ group 1 (
        plus (
          set (λ c.
            within b'A' b'Z' c || within b'a' b'z' c || is_digit c || c == b'_' || c == b'-')))
    ⋯ literal (codes "/")
    ⋯ group 2 (plus (set (λ c. is_digit c || c == b'.')))

abbrev pub win_ver_regex : Regex
win_ver_regex = literal_fold (codes "windows nt ") ⋯ version

abbrev pub mac_ver_regex : Regex
mac_ver_regex = literal_fold (codes "mac os x ") ⋯ version_or_underscore

abbrev pub ios_ver_regex : Regex
ios_ver_regex =
    alt (literal_fold (codes "iphone os"))
      (alt (literal_fold (codes "cpu os")) (literal_fold (codes "cpu iphone os")))
    ⋯ literal (codes " ")
    ⋯ version_or_underscore

abbrev pub android_regex : Regex
android_regex =
    literal_fold (codes "android") ⋯ optional (set (λ c. c == b' ' || c == b'-') ⋯ version)
