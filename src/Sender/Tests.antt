-- ===== src/Sender/Tests.antt =====
-- Runs of the sender's theorems on small inputs.
use mathlib.Core.List.{Perm}
use otel_aws_log_processor.Prelude.{
  ℕ, ◌≡◌, ◌<◌, zero, suc, refl, true, false, List, [], ◌∷◌, Option, some, arith, Text, codes,
  is_empty, trim_space, if◌then◌else◌, Bool,
}
use otel_aws_log_processor.Prelude.Int.{pos}
use otel_aws_log_processor.Prelude.Assoc.{lookup}
use otel_aws_log_processor.Prelude.Sets.{nodup}
use otel_aws_log_processor.Utils.Env.{Environ}
use otel_aws_log_processor.Model.{Attribute, LogRecord, Payload}
use otel_aws_log_processor.Processor.Adapter.{LogAdapter}
use otel_aws_log_processor.Sender.Dispatch.{
  State, Reach, here, next, start, result, success, dispatch, deliver,
}
use otel_aws_log_processor.Sender.Dispatch.Accounts.{Accounts, start-Accounts, success-sends_all}
use otel_aws_log_processor.Sender.Retry.{
  Reply, network_error, http, delivered, exhausted, is_retryable_status, send_with_retry,
}
use otel_aws_log_processor.Sender.Retry.Laws.{
  IsRetried, Ends, DeliveredAt, send_with_retry-first_final, send_with_retry-exhausted,
  send_with_retry-delivered,
}
use otel_aws_log_processor.Sender.Batches.{group_entries, plan}
use otel_aws_log_processor.Sender.Batches.Groups.{keys, grouped, records_of, group_entries-grouped}
use otel_aws_log_processor.Sender.Batches.Laws.{Splits, plan-Splits}
use otel_aws_log_processor.Sender.Headers.{parse_headers_from_env}
use otel_aws_log_processor.Sender.Headers.Laws.{or_else, headers_of, parse_headers_from_env-lookup}

-- Two payloads, delivered in the other order.
abbrev last : State ℕ
last = record {
  todo = [];
  running = [];
  sent = 8 ∷ 7 ∷ [];
  failed = false;
  parent_done = false;
  cancelled = false;
}

two_sent : Reach (start (7 ∷ 8 ∷ [])) last
unfolding start
two_sent =
    next
      (next (next (next here (dispatch 7 (8 ∷ []) refl refl)) (dispatch 8 [] refl refl))
        (deliver (7 ∷ []) 8 [] refl))
      (deliver [] 7 [] refl)

last-success : result last ≡ success
unfolding result
last-success = refl

success-sends_all_example : Perm {A = ℕ} (8 ∷ 7 ∷ []) (7 ∷ 8 ∷ [])
success-sends_all_example =
    success-sends_all (7 ∷ 8 ∷ []) last two_sent (record { no_todo = refl; no_running = refl })
      last-success

start-Accounts_example : Accounts (7 ∷ 8 ∷ []) last
start-Accounts_example = start-Accounts (7 ∷ 8 ∷ []) two_sent

-- The endpoint is busy once, and takes the second request.
abbrev busy_once : ℕ → Reply
busy_once n = elim n [ zero ↦ http 503 (codes "2") | suc m ↦ http 200 [] ]

abbrev never : ℕ → Bool
never n = false

at_0 : (j : ℕ) → j < 1 → j ≡ 0
at_0 j h = omega arith

busy_first : (j : ℕ) → j < 1 → IsRetried 1000 never busy_once j
unfolding is_retryable_status
busy_first j h = rw (at_0 j h) (refl, refl)

send_with_retry-first_final_example :
    Ends (send_with_retry 1000 never busy_once (pos 3)) delivered 2
send_with_retry-first_final_example =
    send_with_retry-first_final 1000 never busy_once 1 3 delivered (omega arith) busy_first refl
      refl

busy_once-delivered : (send_with_retry 1000 never busy_once (pos 3)).outcome ≡ delivered
busy_once-delivered = two_requests.0
  where
    two_requests : Ends (send_with_retry 1000 never busy_once (pos 3)) delivered 2
    two_requests =
        send_with_retry-first_final 1000 never busy_once 1 3 delivered (omega arith) busy_first refl
          refl

send_with_retry-delivered_example :
    DeliveredAt 1000 never busy_once 0 4 (send_with_retry 1000 never busy_once (pos 3)).requests
send_with_retry-delivered_example =
    send_with_retry-delivered 1000 never busy_once 3 busy_once-delivered

abbrev no_network : ℕ → Reply
no_network n = network_error

send_with_retry-exhausted_example : Ends (send_with_retry 1000 never no_network (pos 3)) exhausted 4
send_with_retry-exhausted_example =
    send_with_retry-exhausted 1000 never no_network 3 (λ j h. (refl, refl))

-- Three entries of two resources; floats do not matter here.
abbrev record_of : Text → LogRecord ℕ
record_of body = record {
  time_unix_nano = codes "0";
  severity_number = 9;
  severity_text = codes "INFO";
  body = body;
  attributes = [];
  trace_id = [];
  span_id = [];
}

abbrev pub entry_of : Text → Text → LogAdapter ℕ
entry_of key body = record {
  get_resource_key = key;
  get_resource_attributes = [];
  build_attributes = [];
  to_otel = record_of body;
}

abbrev three_entries : List (LogAdapter ℕ)
three_entries =
    entry_of (codes "lb-1") (codes "a")
    ∷ entry_of (codes "lb-2") (codes "b")
    ∷ entry_of (codes "lb-1") (codes "c")
    ∷ []

abbrev unstamped : List (Attribute ℕ) → List (Attribute ℕ)
unstamped attrs = attrs

group_entries-grouped_example :
    (nodup (keys (group_entries unstamped three_entries [])) ≡ true)
    × ((k : Text)
        → grouped k (group_entries unstamped three_entries []) ≡ records_of k three_entries)
group_entries-grouped_example = group_entries-grouped unstamped three_entries

plan-Splits_example :
    (ps : List (Payload ℕ)) × (plan unstamped (codes "1.0") 1 three_entries ≡ some ps)
    × Splits 1 (group_entries unstamped three_entries []) ps
plan-Splits_example = plan-Splits unstamped (codes "1.0") 1 three_entries (omega arith)

abbrev plain_text : Text → Option Text
plain_text s = some s

-- Every variable of the environment has the same headers.
abbrev two_headers : Environ
two_headers name = codes "a=1,b=2"

parse_headers_from_env-lookup_example :
    lookup (codes "b") (parse_headers_from_env plain_text two_headers)
    ≡ or_else
        (lookup (codes "b") (headers_of plain_text (two_headers "OTEL_EXPORTER_OTLP_LOGS_HEADERS")))
        (if is_empty (trim_space (two_headers "OTEL_EXPORTER_OTLP_HEADERS"))
          then lookup (codes "b") (headers_of plain_text (two_headers "OTLP_HEADERS"))
          else lookup
              (codes "b")
              (headers_of plain_text (two_headers "OTEL_EXPORTER_OTLP_HEADERS")))
parse_headers_from_env-lookup_example =
    parse_headers_from_env-lookup plain_text two_headers (codes "b")
