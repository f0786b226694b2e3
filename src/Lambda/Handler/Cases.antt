-- ===== src/Lambda/Handler/Cases.antt =====
-- How handler of cmd/lambda/main.go answers a batch
use otel_aws_log_processor.Utils.Env.{get_env}
use otel_aws_log_processor.Prelude.{
  map, text_eq, ◌++◌, ◌≡◌, Bool, true, false, List, [], Option, none, some, if◌then◌else◌, is_empty,
  Text, txt, to_lower,
}
use otel_aws_log_processor.License.Error.{Error, is_deterministic}
use otel_aws_log_processor.Lambda.Handler.{Runtime, Response}
use otel_aws_log_processor.Lambda.Messages.{SqsMessage}
use otel_aws_log_processor.Processor.Adapter.{LogAdapter}
use otel_aws_log_processor.Lambda.Handler.Laws.{Reports}

abbrev AllDeterministic : Option Error → Type 0
AllDeterministic o = (e : Error) → o ≡ some e → is_deterministic e ≡ true

module _ {F : Type 0} where
  abbrev goes_to_dlq : Runtime F → Bool
  goes_to_dlq rt =
      text_eq (to_lower (get_env rt.host.env "DIVMORA_LICENSE_FAILURE_ACTION" (txt "discard")))
        (txt "dlq")

  -- The answer to a license that is refused: nothing is sent and the invocation has no error. For
  -- the dead-letter queue every message is reported, and otherwise none.
  pub record IsRefused (rt : Runtime F) (records : List SqsMessage) (r : Response F) : Type 0 where
    pub nothing_sent : r.sent ≡ []
    pub no_error : r.error ≡ none
    pub to_dlq :
        goes_to_dlq rt ≡ true
        → (ids : List Text) × (r.failures ≡ ids ++ map (λ m. m.message_id) records)
    pub discarded : goes_to_dlq rt ≡ false → r.failures ≡ []

  -- The answer to a license that is accepted: these messages are reported, these entries are sent,
  -- and the error is that of SendLogs.
  pub record IsSent (rt : Runtime F) (ids : List Text) (es : List (LogAdapter F)) (r : Response F)
      : Type 0 where
    pub reports : Reports r ids es
    pub error_of_send : r.error ≡ (if is_empty es then none else rt.send_logs es)
