-- ===== src/Events.antt =====
-- ParseBodyAsS3 of pkg/events/s3_event.go. json.Unmarshal into the three formats and
-- url.QueryUnescape are parameters. The fuel bounds the depth of SNS messages inside one another;
-- out of fuel is none.
pub mod Laws
use otel_aws_log_processor.Prelude.{
  ℕ, zero, suc, Bool, true, false, not, ◌&&◌, List, [], ◌∷◌, map, Option, none, some, ◌⊎◌, inl, inr,
  if◌then◌else◌, is_empty, length, Text, txt, text_eq,
}
use otel_aws_log_processor.License.Error.{Error, plain}

-- The part of an events.S3EventRecord that the program reads
pub record S3EventRecord : Type 0 where
  pub bucket : Text
  pub key : Text
  pub region : Text

pub record EventBridgeS3Event : Type 0 where
  pub source : Text
  pub region : Text
  pub bucket : Text
  pub key : Text

pub record SnsMessage : Type 0 where
  pub kind : Text
  pub message : Text

pub record Decoders : Type 0 where
  pub event_bridge : Text → Option EventBridgeS3Event
  pub s3_event : Text → Option (List S3EventRecord)
  pub sns_message : Text → Option SnsMessage
  pub query_unescape : Text → Option Text

abbrev pub Parsing : Type 0
Parsing = Error ⊎ List S3EventRecord

abbrev of_event_bridge : Option EventBridgeS3Event → Option (List S3EventRecord)
of_event_bridge none = none
of_event_bridge (some e) =
    if text_eq e.source (txt "aws.s3") && not (is_empty e.bucket)
    then some ((record { bucket = e.bucket; key = e.key; region = e.region }) ∷ [])
    else none

abbrev unescaped_key : Decoders → S3EventRecord → S3EventRecord
unescaped_key d r = elim (d.query_unescape r.key) [ none ↦ r | some k ↦ record r { key = k } ]

-- Records, the first of which has a bucket
abbrev of_s3_event : Decoders → Option (List S3EventRecord) → Option (List S3EventRecord)
of_s3_event d none = none
of_s3_event d (some []) = none
of_s3_event d (some (r ∷ rs)) =
    if is_empty r.bucket then none else some (map (unescaped_key d) (r ∷ rs))

-- The message inside a notification
unfoldable pub inner_message : Option SnsMessage → Option Text
inner_message none = none
inner_message (some m) =
    if text_eq m.kind (txt "Notification") && not (is_empty m.message) then some m.message else none

abbrev pub no_format : Parsing
no_format =
    inl (plain (txt "body does not match EventBridge, direct S3, or SNS-wrapped S3 event format"))

abbrev first_records :
    Option (List S3EventRecord) → Option (List S3EventRecord) → Option (List S3EventRecord)
first_records none o = o
first_records (some rs) o = some rs

-- The first two formats
abbrev pub direct : Decoders → Text → Option (List S3EventRecord)
direct d body =
    first_records (of_event_bridge (d.event_bridge body)) (of_s3_event d (d.s3_event body))

unfoldable pub parse_body_as_s3 : ℕ → Decoders → Text → Option Parsing
parse_body_as_s3 zero d body = none
parse_body_as_s3 (suc f) d body = elim (direct d body) [
  | some rs ↦ some (inr rs)
  | none ↦ elim (inner_message (d.sns_message body)) [
    | none ↦ some no_format
    | some m ↦ parse_body_as_s3 f d m
  ]
]

-- With fuel for every depth that a body of this length can have
unfoldable pub parse_body : Decoders → Text → Option Parsing
parse_body d body = parse_body_as_s3 (suc (length body)) d body
