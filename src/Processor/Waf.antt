-- ===== src/Processor/Waf.antt =====
-- WAFAdapter of pkg/processor/waf_processor.go
use otel_aws_log_processor.Prelude.{
  ◌&&◌, ◌||◌, not, Bool, List, [], ◌∷◌, ◌++◌, Option, none, some, map, if◌then◌else◌, is_empty,
  Text, txt, text_eq, contains, has_prefix, equal_fold,
}
use otel_aws_log_processor.Prelude.Int.{ℤ, pos, leb_ℤ, wrap64, mul_ℕ}
use otel_aws_log_processor.Prelude.Strconv.{format_int}
use otel_aws_log_processor.Prelude.Floats.{Floats}
use otel_aws_log_processor.Model.{
  Attribute, LogRecord, Add, attr, int_attr, perform, string_attr, ensure_region_account,
}
use otel_aws_log_processor.Utils.Conversion.{is_blank}
use otel_aws_log_processor.Utils.Arn
use otel_aws_log_processor.Utils.TraceId.{parse_aws_trace_id}
use otel_aws_log_processor.Parser.Waf.{
  RuleGroup, RuleGroupRule, NonTerminatingRule, Header, WafLogEntry,
}
use otel_aws_log_processor.Utils.UserAgent.{enrich_user_agent_attributes}
use otel_aws_log_processor.Processor.Host.{Host}
use otel_aws_log_processor.Processor.Adapter.{LogAdapter, Severity, info, warn, error, when}

pub record WafAdapter : Type 0 where
  pub entry : WafLogEntry
  pub account_id : Text
  pub region : Text
  pub enrich_user_agent : Bool

pub record ProcessedRule : Type 0 where
  pub rule_id : Text
  pub action : Text
  pub kind : Text  -- Type

unfoldable pub matches : Text → Text → Bool
matches bucket key =
    has_prefix bucket (txt "aws-waf-logs-")
    && contains key (txt "/WAFLogs/")
    && contains key (txt "_waflogs_")

abbrev terminating : WafLogEntry → List ProcessedRule
terminating e =
    when (not (is_empty e.terminating_rule_id)) (
      (record { rule_id = e.terminating_rule_id; action = e.action; kind = txt "TERMINATING" })
      ∷ [])

abbrev non_terminating : List NonTerminatingRule → List ProcessedRule
non_terminating [] = []
non_terminating (r ∷ rs) =
    (record { rule_id = r.rule_id; action = r.action; kind = txt "NON_TERMINATING" })
    ∷ non_terminating rs

abbrev group_terminating : Option RuleGroupRule → List ProcessedRule
group_terminating none = []
group_terminating (some r) =
    (record { rule_id = r.rule_id; action = r.action; kind = txt "GROUP_TERMINATING" }) ∷ []

abbrev group_non_terminating : List RuleGroupRule → List ProcessedRule
group_non_terminating [] = []
group_non_terminating (r ∷ rs) =
    (record { rule_id = r.rule_id; action = r.action; kind = txt "GROUP_NON_TERMINATING" })
    ∷ group_non_terminating rs

abbrev of_groups : List RuleGroup → List ProcessedRule
of_groups [] = []
of_groups (g ∷ gs) =
    group_terminating g.terminating_rule
    ++ (group_non_terminating g.non_terminating_rules ++ of_groups gs)

unfoldable pub collect_processed_rules : WafLogEntry → List ProcessedRule
collect_processed_rules e =
    terminating e
    ++ (non_terminating e.non_terminating_matching_rules ++ of_groups e.rule_group_list)

unfoldable pub resource_key : WafAdapter → Text
resource_key a = a.entry.web_acl_id

-- The region of a web ACL whose ARN names none is "global".
abbrev extracted_region : Text → Text
extracted_region acl =
    if is_empty acl
    then []
    else if is_empty (Arn.parse_region_account acl).0
    then txt "global"
    else (Arn.parse_region_account acl).0

abbrev extracted_account : Text → Text
extracted_account acl = if is_empty acl then [] else (Arn.parse_region_account acl).1

abbrev or_else : Text → Text → Text
or_else s t = if is_empty s then t else s

abbrev base_attributes : {F : Type 0} → WafAdapter → List (Attribute F)
base_attributes a =
    string_attr "cloud.provider" (txt "aws")
    ∷ string_attr "cloud.platform" (txt "aws_waf")
    ∷ string_attr "cloud.service" (txt "waf")
    ∷ string_attr "service.name" (txt "waf-log-parser")
    ∷ string_attr "aws.waf.web_acl_id" a.entry.web_acl_id
    ∷ []

unfoldable pub resource_attributes : {F : Type 0} → WafAdapter → List (Attribute F)
resource_attributes a =
    let acl = a.entry.web_acl_id in
    ensure_region_account (base_attributes a) (or_else (extracted_region acl) a.region)
      (or_else (extracted_account acl) a.account_id)

abbrev at_least : ℤ → Option ℤ → Bool
at_least bound none = Bool.false
at_least bound (some code) = leb_ℤ bound code

unfoldable pub severity : WafLogEntry → Severity
severity e =
    if at_least (pos 500) e.response_code_sent
    then error
    else if text_eq e.action (txt "BLOCK") || at_least (pos 400) e.response_code_sent
    then warn
    else info

-- The first header of that name decides, whether or not its value is a trace id.
abbrev trace_of_headers : List Header → Text
trace_of_headers [] = []
trace_of_headers (h ∷ hs) =
    if equal_fold h.name (txt "X-Amzn-Trace-Id")
    then parse_aws_trace_id h.value
    else trace_of_headers hs

abbrev rule_texts : ProcessedRule → Text × Text × Text
rule_texts r = (r.rule_id, r.action, r.kind)

module _ {fl : Floats} where
  open fl use {Float}

  unfoldable pub trace_id : Host fl → WafLogEntry → Text
  trace_id host e =
      or_else
        (or_else (trace_of_headers e.http_request.headers)
          (parse_aws_trace_id e.http_request.request_id))
        host.trace_id

  abbrev header_adds : Host fl → Bool → List Header → List (Add fl)
  header_adds host enrich [] = []
  header_adds host enrich (h ∷ hs) =
      when (equal_fold h.name (txt "User-Agent")) (
        attr "user_agent.original" h.value
        ∷ when (enrich && not (is_blank h.value)) (enrich_user_agent_attributes h.value))
      ++ (when (equal_fold h.name (txt "Host")) (attr "server.address" h.value ∷ [])
          ++ header_adds host enrich hs)

  abbrev status_adds : Option ℤ → List (Add fl)
  status_adds none = []
  status_adds (some code) = int_attr "http.response.status_code" code ∷ []

  abbrev label_adds : Host fl → List Text → List (Add fl)
  label_adds host labels =
      when (not (is_empty labels)) (attr "aws.waf.labels" (host.marshal_texts labels) ∷ [])

  abbrev marshalled : Option Text → List (Add fl)
  marshalled none = []
  marshalled (some json) = attr "aws.waf.processed_rules" json ∷ []

  abbrev rule_adds : Host fl → List ProcessedRule → List (Add fl)
  rule_adds host rules =
      when (not (is_empty rules)) (marshalled (host.marshal_rules (map rule_texts rules)))

  unfoldable pub adds : Host fl → WafAdapter → List (Add fl)
  adds host a =
      let e = a.entry in
      let req = a.entry.http_request in
      (attr "aws.waf.terminating_rule_id" e.terminating_rule_id
        ∷ attr "aws.waf.terminating_rule_type" e.terminating_rule_type
        ∷ attr "aws.waf.action" e.action
        ∷ attr "aws.waf.http_source_name" e.http_source_name
        ∷ attr "aws.waf.http_source_id" e.http_source_id
        ∷ attr "http.request.method" req.http_method
        ∷ attr "url.path" req.uri
        ∷ attr "url.query" req.args
        ∷ attr "network.protocol.version" req.http_version
        ∷ attr "client.address" req.client_ip
        ∷ status_adds e.response_code_sent)
      ++ (header_adds host a.enrich_user_agent req.headers
          ++ ((attr "client.geo.country_iso_code" req.country
                ∷ int_attr "http.request.body.size" e.request_body_size
                ∷ int_attr "aws.waf.request_body_size_inspected" e.request_body_size_inspected
                ∷ attr "tls.client.ja3" e.ja3_fingerprint
                ∷ attr "tls.client.ja4" e.ja4_fingerprint
                ∷ label_adds host e.labels)
              ++ rule_adds host (collect_processed_rules e)))

  unfoldable pub build_attributes : Host fl → WafAdapter → List (Attribute Float)
  build_attributes host a = perform fl [] (adds host a)

  unfoldable pub to_otel : Host fl → WafAdapter → LogRecord Float
  to_otel host a =
      let e = a.entry in
      let req = a.entry.http_request in
      record {
        time_unix_nano = format_int (wrap64 (mul_ℕ e.timestamp 1000000));
        severity_number = (severity e).number;
        severity_text = (severity e).text;
        body = req.http_method ++ (txt " " ++ (req.uri ++ (txt " " ++ e.action)));
        attributes = build_attributes host a;
        trace_id = trace_id host e;
        span_id = host.span_id;
      }

  unfoldable pub adapter : Host fl → WafAdapter → LogAdapter Float
  unfolding resource_key resource_attributes build_attributes to_otel
  adapter host a = record {
    get_resource_key = resource_key a;
    get_resource_attributes = resource_attributes a;
    build_attributes = build_attributes host a;
    to_otel = to_otel host a;
  }
