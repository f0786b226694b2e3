-- ===== src/Utils/UserAgent.antt =====
-- pkg/utils/user_agent.go. The steps of ParseUserAgent are the client, then the operating system,
-- then a device where none is known.
pub mod Patterns
use otel_aws_log_processor.Prelude.{
  ℕ, Bool, true, false, not, ◌&&◌, ◌||◌, List, [], ◌∷◌, ◌++◌, map, Option, none, some, ◌==◌,
  if◌then◌else◌, is_empty, String, Text, codes, txt, text_eq, contains, equal_fold, get_or,
  to_lower, trim_space,
}
use otel_aws_log_processor.Prelude.Floats.{Floats}
use otel_aws_log_processor.Prelude.Regexp.{Regex, find_submatch}
use otel_aws_log_processor.Model.{Add, attr}
use otel_aws_log_processor.Utils.UserAgent.Patterns.{
  edg_regex, opr_regex, samsung_regex, chrome_regex, firefox_regex, safari_ver_regex,
  safari_raw_regex, msie_regex, trident_regex, curl_regex, wget_regex, postman_regex,
  requests_regex, aiohttp_regex, go_client_regex, java_regex, apache_http_regex, elb_health_regex,
  googlebot_regex, bingbot_regex, generic_tool_regex, win_ver_regex, mac_ver_regex, ios_ver_regex,
  android_regex,
}

pub record UserAgentInfo : Type 0 where
  pub original : Text
  pub name : Text
  pub version : Text
  pub os_name : Text
  pub os_version : Text
  pub device : Text

-- Group 1, or the empty text
abbrev first_group : Option (List Text) → Text
first_group none = []
first_group (some ms) = get_or ms 1 []

abbrev version_in : Regex → Text → Text
version_in r ua = first_group (find_submatch r 1 ua)

abbrev with_client : Text → Text → Text → UserAgentInfo → UserAgentInfo
with_client name version device info = record info {
  name = name;
  version = version;
  device = device;
}

abbrev has_word : Text → String → Bool
has_word s word = contains s (txt word)

abbrev bot : String → UserAgentInfo → UserAgentInfo
bot name info = with_client (txt name) [] (txt "Bot") info

unfoldable pub with_bot : Text → UserAgentInfo → UserAgentInfo
with_bot lower info =
    if has_word lower "googlebot"
    then with_client (txt "Googlebot") (version_in googlebot_regex info.original) (txt "Bot") info
    else if has_word lower "bingbot"
    then with_client (txt "Bingbot") (version_in bingbot_regex info.original) (txt "Bot") info
    else if has_word lower "baiduspider"
    then bot "Baiduspider" info
    else if has_word lower "yandexbot"
    then bot "YandexBot" info
    else if has_word lower "duckduckbot"
    then bot "DuckDuckBot" info
    else if has_word lower "facebookexternalhit" || has_word lower "facebot"
    then bot "FacebookBot" info
    else if has_word lower "twitterbot"
    then bot "Twitterbot" info
    else if has_word lower "slackbot"
    then bot "Slackbot" info
    else info

abbrev at_match :
    (Text → UserAgentInfo → UserAgentInfo)
    → Option (List Text)
    → UserAgentInfo
    → UserAgentInfo
    → UserAgentInfo
at_match f none info rest = rest
at_match f (some ms) info rest = f (get_or ms 1 []) info

-- The first pattern of a table that matches names the client.
abbrev by_pattern : List (Regex × Text) → Text → UserAgentInfo → UserAgentInfo → UserAgentInfo
by_pattern [] device info rest = rest
by_pattern ((r, name) ∷ rs) device info rest =
    at_match (λ v i. with_client name v device i) (find_submatch r 1 info.original) info
      (by_pattern rs device info rest)

abbrev tool_patterns : List (Regex × Text)
tool_patterns =
    (curl_regex, txt "curl")
    ∷ (wget_regex, txt "Wget")
    ∷ (postman_regex, txt "Postman")
    ∷ (requests_regex, txt "python-requests")
    ∷ (aiohttp_regex, txt "aiohttp")
    ∷ (go_client_regex, txt "Go-http-client")
    ∷ (apache_http_regex, txt "Apache-HttpClient")
    ∷ (java_regex, txt "Java")
    ∷ []

unfoldable pub with_tool : Text → UserAgentInfo → UserAgentInfo
with_tool lower info =
    if not (is_empty info.name)
    then info
    else if has_word lower "elb-healthchecker"
    then with_client (txt "ELB-HealthChecker") (version_in elb_health_regex info.original)
        (txt "AWS") info
    else if has_word lower "amazon cloudfront"
    then with_client (txt "Amazon CloudFront") [] (txt "AWS") info
    else by_pattern tool_patterns (txt "Tool") info info

abbrev browser_patterns : List (Regex × Text)
browser_patterns =
    (edg_regex, txt "Edge")
    ∷ (opr_regex, txt "Opera")
    ∷ (samsung_regex, txt "Samsung Internet")
    ∷ (chrome_regex, txt "Chrome")
    ∷ (firefox_regex, txt "Firefox")
    ∷ (safari_ver_regex, txt "Safari")
    ∷ []

abbrev explorer_patterns : List (Regex × Text)
explorer_patterns =
    (msie_regex, txt "Internet Explorer") ∷ (trident_regex, txt "Internet Explorer") ∷ []

-- The fallback for a name and a version
abbrev with_generic : Option (List Text) → UserAgentInfo → UserAgentInfo
with_generic none info = info
with_generic (some ms) info =
    if equal_fold (get_or ms 1 []) (txt "mozilla")
    then info
    else with_client (get_or ms 1 []) (get_or ms 2 []) (txt "Tool") info

unfoldable pub with_browser : UserAgentInfo → UserAgentInfo
with_browser info =
    if not (is_empty info.name)
    then info
    else by_pattern browser_patterns info.device info (
        if has_word info.original "Safari/"
        then with_client (txt "Safari") (version_in safari_raw_regex info.original) info.device info
        else by_pattern explorer_patterns info.device info
            (with_generic (find_submatch generic_tool_regex 2 info.original) info))

abbrev device_or : UserAgentInfo → Text → Text
device_or info d = if is_empty info.device then d else info.device

abbrev with_os : String → Text → Text → UserAgentInfo → UserAgentInfo
with_os name version device info = record info {
  os_name = txt name;
  os_version = version;
  device = device;
}

-- strings.ReplaceAll of "_" by "."
abbrev dotted : Text → Text
dotted v = map (λ c. if c == b'_' then b'.' else c) v

abbrev mobile_or_tablet : Text → Text
mobile_or_tablet lower = if has_word lower "mobile" then txt "Mobile" else txt "Tablet"

unfoldable pub with_operating_system : Text → UserAgentInfo → UserAgentInfo
with_operating_system lower info =
    let ua = info.original in
    at_match (λ v i. with_os "Windows" v (device_or i (txt "PC")) i)
      (find_submatch win_ver_regex 1 ua) info
      (if has_word ua "iPhone"
        then with_os "iOS" (dotted (version_in ios_ver_regex ua)) (txt "iPhone") info
        else if has_word ua "iPad"
        then with_os "iOS" (dotted (version_in ios_ver_regex ua)) (txt "iPad") info
        else if has_word ua "Macintosh" || has_word ua "Mac OS X"
        then with_os "macOS" (dotted (version_in mac_ver_regex ua))
            (device_or info (txt "Macintosh")) info
        else at_match (λ v i. with_os "Android" v (device_or i (mobile_or_tablet lower)) i)
            (find_submatch android_regex 1 ua) info
            (if has_word ua "CrOS"
              then with_os "Chrome OS" [] (device_or info (txt "PC")) info
              else if has_word ua "Linux" || has_word ua "X11"
              then with_os "Linux" [] (device_or info (txt "PC")) info
              else info))

abbrev default_device : Text → Text
default_device lower =
    if has_word lower "mobile"
    then txt "Mobile"
    else if has_word lower "tablet"
    then txt "Tablet"
    else if has_word lower "bot" || has_word lower "spider" || has_word lower "crawl"
    then txt "Bot"
    else []

unfoldable pub with_device : Text → UserAgentInfo → UserAgentInfo
with_device lower info = record info { device = device_or info (default_device lower) }

abbrev nothing_known : Text → UserAgentInfo
nothing_known ua = record {
  original = ua;
  name = [];
  version = [];
  os_name = [];
  os_version = [];
  device = [];
}

abbrev parse_trimmed : Text → Option UserAgentInfo
parse_trimmed ua =
    let lower = to_lower ua in
    if is_empty ua || text_eq ua (txt "-")
    then none
    else some (
        with_device lower (
          with_operating_system lower
            (with_browser (with_tool lower (with_bot lower (nothing_known ua))))))

unfoldable pub parse_user_agent : Text → Option UserAgentInfo
parse_user_agent ua = parse_trimmed (trim_space ua)

module _ {fl : Floats} where
  abbrev both : String → String → Text → List (Add fl)
  both key key' v = if is_empty v then [] else attr key v ∷ attr key' v ∷ []

  abbrev user_agent_adds : Option UserAgentInfo → List (Add fl)
  user_agent_adds none = []
  user_agent_adds (some i) =
      both "user_agent.name" "browser.name" i.name
      ++ both "user_agent.version" "browser.version" i.version
      ++ both "user_agent.os.name" "os.name" i.os_name
      ++ both "user_agent.os.version" "os.version" i.os_version
      ++ (if is_empty i.device then [] else attr "device.name" i.device ∷ [])

  -- The calls that EnrichUserAgentAttributes makes
  unfoldable pub enrich_user_agent_attributes : Text → List (Add fl)
  enrich_user_agent_attributes ua = user_agent_adds (parse_user_agent ua)
