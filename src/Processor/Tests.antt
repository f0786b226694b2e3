-- ===== src/Processor/Tests.antt =====
-- Runs of the theorems on attributes and on the registry of processors.
use otel_aws_log_processor.Prelude.{
  ℕ, ◌≡◌, ==_iff, ◌==◌, refl, true, false, not, ◌||◌, List, [], ◌∷◌, ◌++◌, none, some, is_empty,
  length, codes, Text, All,
}
use otel_aws_log_processor.Prelude.Int.{pos}
use otel_aws_log_processor.Prelude.Floats.{Floats}
use otel_aws_log_processor.Model.{Attribute, string_attr, has_key, ensure_region_account}
use otel_aws_log_processor.Model.Laws.{HasSetValue, ensure_region_account_lem, missing}
use otel_aws_log_processor.Parser.Alb as AlbParser
use otel_aws_log_processor.Parser.Nlb as NlbParser
use otel_aws_log_processor.Parser.Nlb.Laws.{Verdict, parse_log_line-Verdict}
use otel_aws_log_processor.Parser.CloudFront as CloudFrontParser
use otel_aws_log_processor.Parser.Waf.{WafLogEntry}
use otel_aws_log_processor.Processor.Host.{Host}
use otel_aws_log_processor.Processor.Alb
use otel_aws_log_processor.Processor.Nlb
use otel_aws_log_processor.Processor.CloudFront
use otel_aws_log_processor.Processor.Waf
use otel_aws_log_processor.Processor.Attributes.{adapters-HasContent}
use otel_aws_log_processor.Processor.Registry.{Kind, LogProcessor, Registry, new}
use otel_aws_log_processor.Processor.Registry.Laws.{
  Op, apply_all, AllConfigured, new-AllConfigured, all_bring_no_more,
}

-- A float is the length of its text here.
abbrev lengths : Floats
lengths = record {
  Float = ℕ;
  zero = 0;
  is_zero = λ x. x == 0;
  is_zero_iff = λ x. ==_iff x 0;
  parse_float = length;
}

abbrev host : Host lengths
host = record {
  now = pos 7;
  parse_micros = λ s. none;
  parse_rfc3339 = λ s. none;
  span_id = codes "0123456789abcdef";
  trace_id = codes "0123456789abcdef0123456789abcdef";
  parse_url = λ s. none;
  query_unescape = λ s. some s;
  marshal_texts = λ s. codes "[]";
  marshal_rules = λ s. none;
}

abbrev alb_adapter : Alb.AlbAdapter ℕ
alb_adapter = record {
  entry = AlbParser.entry_of_matches lengths (
      codes "line"
      ∷ codes "https"
      ∷ codes "2024-01-01T00:00:00.000000Z"
      ∷ codes "app/lb"
      ∷ codes "-"
      ∷ []);
  account_id = codes "123456789012";
  region = codes "eu-west-1";
  enrich_user_agent = true;
}

abbrev nlb_adapter : Nlb.NlbAdapter ℕ
nlb_adapter = record {
  entry =
      NlbParser.base_entry lengths (codes "tcp" ∷ codes "2.0" ∷ codes "-" ∷ codes "net/lb" ∷ []);
  account_id = codes "123456789012";
  region = codes "eu-west-1";
}

abbrev cloud_front_adapter : CloudFront.CloudFrontAdapter ℕ
cloud_front_adapter = record {
  entry =
      CloudFrontParser.entry_of_fields lengths
        (codes "2024-01-01" ∷ codes "00:00:00" ∷ codes "-" ∷ []);
  distribution_id = codes "EABCDEF";
  account_id = codes "123456789012";
  region = codes "eu-west-1";
  enrich_user_agent = false;
}

abbrev waf_entry : WafLogEntry
waf_entry = record {
  timestamp = pos 1700000000000;
  format_version = pos 1;
  web_acl_id = codes "arn:aws:wafv2:eu-west-1:123456789012:regional/webacl/a/b";
  terminating_rule_id = codes "Default_Action";
  terminating_rule_type = codes "REGULAR";
  action = codes "ALLOW";
  http_source_name = codes "ALB";
  http_source_id = codes "-";
  rule_group_list = [];
  non_terminating_matching_rules = [];
  response_code_sent = none;
  http_request = record {
    client_ip = codes "10.0.0.1";
    country = codes "-";
    headers = [];
    uri = codes "/";
    args = [];
    http_version = codes "HTTP/1.1";
    http_method = codes "GET";
    request_id = [];
  };
  labels = [];
  request_body_size = pos 0;
  request_body_size_inspected = pos 0;
  ja3_fingerprint = [];
  ja4_fingerprint = [];
}

abbrev waf_adapter : Waf.WafAdapter
waf_adapter = record { entry = waf_entry; account_id = []; region = []; enrich_user_agent = false }

adapters-IsSet_example :
    All (HasSetValue lengths) (Alb.adapter host alb_adapter).to_otel.attributes
    × (All (HasSetValue lengths) (Nlb.adapter lengths host nlb_adapter).to_otel.attributes
        × (All
              (HasSetValue lengths)
              (CloudFront.adapter host cloud_front_adapter).to_otel.attributes
            × All (HasSetValue lengths) (Waf.adapter host waf_adapter).to_otel.attributes))
adapters-IsSet_example =
    adapters-HasContent lengths host alb_adapter nlb_adapter cloud_front_adapter waf_adapter

abbrev one_attribute : List (Attribute ℕ)
one_attribute = string_attr "cloud.region" (codes "eu-west-1") ∷ []

abbrev ensured : List (Attribute ℕ)
unfolding ensure_region_account
ensured = ensure_region_account one_attribute (codes "us-east-1") (codes "123456789012")

-- The region that came in stays.
ensured_both : ensured ≡ one_attribute ++ string_attr "cloud.account.id" (codes "123456789012") ∷ []
unfolding ensured ensure_region_account
ensured_both = refl

ensure_region_account_lem_example :
    (ensure_region_account one_attribute (codes "us-east-1") (codes "123456789012")
      ≡ one_attribute ++ missing one_attribute (codes "us-east-1") (codes "123456789012"))
    × ((has_key "cloud.account.id"
            (ensure_region_account one_attribute (codes "us-east-1") (codes "123456789012"))
          ≡ (has_key "cloud.account.id" one_attribute || not (is_empty (codes "123456789012"))))
        × ((has_key "cloud.region"
                (ensure_region_account one_attribute (codes "us-east-1") (codes "123456789012"))
              ≡ (has_key "cloud.region" one_attribute || not (is_empty (codes "us-east-1"))))
            × (ensure_region_account
                  (ensure_region_account one_attribute (codes "us-east-1") (codes "123456789012"))
                  (codes "us-east-1")
                  (codes "123456789012")
                ≡ ensure_region_account one_attribute (codes "us-east-1") (codes "123456789012"))))
ensure_region_account_lem_example =
    ensure_region_account_lem one_attribute (codes "us-east-1") (codes "123456789012")

abbrev processor_of : Kind → LogProcessor
processor_of k = record { kind = k; byte_tracker = false; enrich_user_agent = false }

abbrev ops : List Op
ops =
    Op.processor (processor_of Kind.alb)
    ∷ Op.tracker true
    ∷ Op.user_agent true
    ∷ Op.processor (processor_of Kind.nlb)
    ∷ Op.user_agent false
    ∷ []

ops-bring_no_more : all_bring_no_more new ops ≡ true
unfolding all_bring_no_more
ops-bring_no_more = refl

new-AllConfigured_example : AllConfigured (apply_all new ops)
new-AllConfigured_example = new-AllConfigured ops ops-bring_no_more

abbrev two_processors : Registry
two_processors = record {
  processors = processor_of Kind.alb ∷ processor_of Kind.nlb ∷ [];
  byte_tracker = false;
  enrich_user_agent = false;
}

-- A TCP line of ten fields whose target port is no number.
abbrev tcp_line : Text
tcp_line = codes "tcp 2.0 2024-01-01T00:00:00 net/lb l-1 10.0.0.1:5000 10.0.0.2:x 12 34 56"

parse_log_line-Verdict_example :
    Verdict lengths tcp_line (NlbParser.parse_log_line lengths tcp_line)
parse_log_line-Verdict_example = parse_log_line-Verdict lengths tcp_line
