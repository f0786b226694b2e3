-- ===== src/Lambda/Messages.antt =====
-- The processing of the SQS messages in handler of cmd/lambda/main.go. The goroutines put their
-- results together under a lock, in the order in which they finish. The parsing of an object, with
-- its download from S3, is a parameter: none is an error.
pub mod Laws
use otel_aws_log_processor.Prelude.{
  ℕ, Bool, true, false, not, ◌&&◌, ◌||◌, List, [], ◌∷◌, ◌++◌, Option, none, some, ◌⊎◌, inl, inr,
  if◌then◌else◌, is_empty, Text, txt, has_suffix,
}
use otel_aws_log_processor.Prelude.Sets.{insert, insert_all}
use otel_aws_log_processor.Events.{S3EventRecord, Decoders, Parsing, parse_body}
use otel_aws_log_processor.Processor.Adapter.{LogAdapter}
use otel_aws_log_processor.Processor.Registry.{
  Registry, LogProcessor, Kind, alb, nlb, cloud_front, waf, find,
}

pub record SqsMessage : Type 0 where
  pub message_id : Text
  pub body : Text
  pub sent_timestamp : Option Text

pub record MessageResult (F : Type 0) : Type 0 where
  pub failed : Bool
  pub entries : List (LogAdapter F)
  pub keys : List Text
  pub buckets : List Text
  pub features : List Text

-- What the goroutines have put together
pub record Gathered (F : Type 0) : Type 0 where
  pub failures : List Text
  pub entries : List (LogAdapter F)
  pub keys : List Text
  pub buckets : List Text
  pub features : List Text

abbrev pub parser_feature : Kind → Text → Text
parser_feature alb key = txt "parser.alb"
parser_feature nlb key = txt "parser.nlb"
parser_feature cloud_front key =
    if has_suffix key (txt ".parquet")
    then txt "parser.cloudfront.parquet"
    else txt "parser.cloudfront.gzip"
parser_feature waf key = txt "parser.waf"

abbrev reads_user_agent : Kind → Bool
reads_user_agent nlb = false
reads_user_agent k = true

abbrev features_of : Bool → LogProcessor → Text → List Text
features_of enrich p key =
    if enrich && reads_user_agent p.kind
    then parser_feature p.kind key ∷ txt "enrichment.useragent" ∷ []
    else parser_feature p.kind key ∷ []

-- The records of a body; one that cannot be parsed has none.
abbrev pub records_of : Option Parsing → List S3EventRecord
records_of none = []
records_of (some (inl e)) = []
records_of (some (inr rs)) = rs

module _ {F : Type 0} where
  abbrev empty_result : MessageResult F
  empty_result = record { failed = false; entries = []; keys = []; buckets = []; features = [] }

  abbrev with_bucket : Text → MessageResult F → MessageResult F
  with_bucket b r = record r { buckets = insert b r.buckets }

  abbrev failing : MessageResult F → MessageResult F
  failing r = record r { failed = true }

  -- Features are noted for an object that has entries.
  abbrev with_object :
      Bool → LogProcessor → Text → List (LogAdapter F) → MessageResult F → MessageResult F
  with_object enrich p key es r = record r {
    entries = r.entries ++ es;
    keys = r.keys ++ key ∷ [];
    features = if is_empty es then r.features else insert_all (features_of enrich p key) r.features;
  }

  -- The loop over the S3 records of a message; the first error ends it.
  unfoldable pub process_records :
      (LogProcessor → Text → Text → Option (List (LogAdapter F)))
      → Registry
      → Bool
      → List S3EventRecord
      → MessageResult F
      → MessageResult F
  process_records process reg enrich [] r = r
  process_records process reg enrich (s ∷ rest) r =
      if is_empty s.bucket || is_empty s.key
      then process_records process reg enrich rest r
      else elim (find reg s.bucket s.key) [
        | none ↦ process_records process reg enrich rest (with_bucket s.bucket r)
        | some p ↦ elim (process p s.bucket s.key) [
          | none ↦ failing (with_bucket s.bucket r)
          | some es ↦
              process_records process reg enrich rest
                (with_object enrich p s.key es (with_bucket s.bucket r))
        ]
      ]

  unfoldable pub process_message :
      (LogProcessor → Text → Text → Option (List (LogAdapter F)))
      → Decoders
      → Registry
      → Bool
      → SqsMessage
      → MessageResult F
  process_message process d reg enrich m =
      process_records process reg enrich (records_of (parse_body d m.body)) empty_result

  abbrev pub nothing_gathered : Gathered F
  nothing_gathered = record { failures = []; entries = []; keys = []; buckets = []; features = [] }

  -- The part under the lock: a message that failed is reported, and nothing of it is kept.
  unfoldable pub merge : Gathered F → SqsMessage → MessageResult F → Gathered F
  merge g m r =
      if r.failed then record g { failures = g.failures ++ m.message_id ∷ [] } else record g {
        entries = g.entries ++ r.entries;
        keys = g.keys ++ r.keys;
        buckets = insert_all r.buckets g.buckets;
        features = insert_all r.features g.features;
      }

  -- The messages in the order in which their goroutines finish
  unfoldable pub gather : (SqsMessage → MessageResult F) → List SqsMessage → Gathered F → Gathered F
  gather run [] g = g
  gather run (m ∷ ms) g = gather run ms (merge g m (run m))
