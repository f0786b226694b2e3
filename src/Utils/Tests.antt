-- ===== src/Utils/Tests.antt =====
-- Runs of the theorems on trace ids and ARNs.
use otel_aws_log_processor.Prelude.{
  ◌≡◌, refl, [], Option, none, some, Text, trim_space, contains, txt, codes, trim_prefix, split,
  to_lower, byte_len,
}
use otel_aws_log_processor.Utils.TraceId.{parse_aws_trace_id}
use otel_aws_log_processor.Utils.TraceId.Laws.{IsTraceId, parse_aws_trace_id-IsTraceId}
use otel_aws_log_processor.Utils.UserAgent.{
  UserAgentInfo, parse_user_agent, with_device, with_operating_system, with_browser, with_tool,
  with_bot,
}
use otel_aws_log_processor.Prelude.Regexp.{find_submatch}
use otel_aws_log_processor.Utils.Arn.{parse_region_account}
use otel_aws_log_processor.Utils.Arn.Laws.{arn_of, parse_region_account-arn_of}

parse_aws_trace_id-IsTraceId_example :
    IsTraceId (parse_aws_trace_id (codes "Root=1-5759e988-bd862e3fe1be46a994272793"))
parse_aws_trace_id-IsTraceId_example =
    parse_aws_trace_id-IsTraceId (codes "Root=1-5759e988-bd862e3fe1be46a994272793")

-- The two parts of the id are joined.
joined :
    parse_aws_trace_id (codes "Root=1-5759E988-bd862e3fe1be46a994272793")
    ≡ codes "5759e988bd862e3fe1be46a994272793"
unfolding parse_aws_trace_id txt trim_prefix split to_lower byte_len
joined = refl

parse_region_account-arn_of_example :
    parse_region_account (
      arn_of
        (codes "arn")
        (codes "aws")
        (codes "elasticloadbalancing")
        (codes "eu-west-1")
        (codes "123456789012")
        (codes "targetgroup/app/73e2d6bc24d8a067"))
    ≡ (codes "eu-west-1", codes "123456789012")
parse_region_account-arn_of_example =
    parse_region_account-arn_of (codes "arn") (codes "aws") (codes "elasticloadbalancing")
      (codes "eu-west-1") (codes "123456789012") (codes "targetgroup/app/73e2d6bc24d8a067") refl
      refl refl refl refl

abbrev iphone_agent : Text
iphone_agent =
    codes "Mozilla/5.0 (iPhone; CPU iPhone OS 17_2 like Mac OS X) Version/17.2 Safari/604.1"

abbrev name_and_system : Option UserAgentInfo → Text × Text × Text × Text
name_and_system none = ([], [], [], [])
name_and_system (some i) = (i.name, i.version, i.os_name, i.os_version)

iphone_agent-is_safari :
    name_and_system (parse_user_agent iphone_agent)
    ≡ (codes "Safari", codes "17.2", codes "iOS", codes "17.2")
unfolding parse_user_agent trim_space txt with_device with_operating_system find_submatch
    with_browser with_tool with_bot contains to_lower
iphone_agent-is_safari = refl

-- The version of a masquerading Edge is its own, and not that of Chrome.
edge_agent-is_edge :
    name_and_system (
      parse_user_agent (codes "Mozilla/5.0 (Windows NT 10.0) Chrome/120.0 Safari/537.36 Edg/119.0"))
    ≡ (codes "Edge", codes "119.0", codes "Windows", codes "10.0")
unfolding parse_user_agent trim_space txt with_device with_operating_system find_submatch
    with_browser with_tool with_bot contains to_lower
edge_agent-is_edge = refl
