-- ===== src/Parser/Alb/Tests.antt =====
-- pkg/parser/alb_parser.go on a line of an access log.
use otel_aws_log_processor.Prelude.{◌≡◌, refl, none, some, List, [], get_or, codes, Text}
use otel_aws_log_processor.Prelude.Regexp.{find_submatch}
use otel_aws_log_processor.Parser.Alb.Pattern.{alb_log_pattern}

abbrev line : Text
line =
    codes
      "http 2018-07-02T22:23:00.186641Z app/my-loadbalancer/50dc6c495c0c9188 192.168.131.39:2817 10.0.0.1:80 0.000 0.001 0.000 200 200 34 366 \"GET http://www.example.com:80/ HTTP/1.1\" \"curl/7.46.0\" - - arn:aws:elasticloadbalancing:us-east-2:123456789012:targetgroup/my-targets/73e2d6bc24d8a067 \"Root=1-58337262-36d228ad5d99923122bbe354\" \"-\" \"-\" 0 2018-07-02T22:22:48.364000Z \"forward\" \"-\" \"-\" \"10.0.0.1:80\" \"200\" \"-\" \"-\" TID_1"

abbrev matched : List Text
matched = elim (find_submatch alb_log_pattern 37 line) [ none ↦ [] | some ms ↦ ms ]

url : get_or matched 16 [] ≡ codes "http://www.example.com:80/"
unfolding find_submatch
url = refl

conn_trace_id : get_or matched 34 [] ≡ codes "TID_1"
unfolding find_submatch
conn_trace_id = refl
