-- ===== src/Parser/Waf.antt =====
-- pkg/parser/waf_parser.go. encoding/json decodes a line; the entry's fields that are not read
-- again (match details, rate-based rules, inserted headers, excluded rules) are left out.
use otel_aws_log_processor.Prelude.{
  List, Option, none, some, if◌then◌else◌, is_empty, Text, trim_space,
}
use otel_aws_log_processor.Prelude.Int.{ℤ}
use otel_aws_log_processor.Parser.Line.{Line, skipped, failed, entry}

pub record RuleGroupRule : Type 0 where
  pub rule_id : Text
  pub action : Text

pub record RuleGroup : Type 0 where
  pub rule_group_id : Text
  pub terminating_rule : Option RuleGroupRule
  pub non_terminating_rules : List RuleGroupRule

pub record NonTerminatingRule : Type 0 where
  pub rule_id : Text
  pub action : Text

pub record Header : Type 0 where
  pub name : Text
  pub value : Text

pub record HttpRequest : Type 0 where
  pub client_ip : Text
  pub country : Text
  pub headers : List Header
  pub uri : Text
  pub args : Text
  pub http_version : Text
  pub http_method : Text
  pub request_id : Text

pub record WafLogEntry : Type 0 where
  pub timestamp : ℤ
  pub format_version : ℤ
  pub web_acl_id : Text
  pub terminating_rule_id : Text
  pub terminating_rule_type : Text
  pub action : Text
  pub http_source_name : Text
  pub http_source_id : Text
  pub rule_group_list : List RuleGroup
  pub non_terminating_matching_rules : List NonTerminatingRule
  pub response_code_sent : Option ℤ
  pub http_request : HttpRequest
  pub labels : List Text
  pub request_body_size : ℤ
  pub request_body_size_inspected : ℤ
  pub ja3_fingerprint : Text
  pub ja4_fingerprint : Text

abbrev of_json : Option WafLogEntry → Line WafLogEntry
of_json none = failed
of_json (some e) = entry e

-- json.Unmarshal into a WAFLogEntry is the parameter.
unfoldable pub parse_log_line : (Text → Option WafLogEntry) → Text → Line WafLogEntry
parse_log_line unmarshal line =
    let line' = trim_space line in if is_empty line' then skipped else of_json (unmarshal line')
