-- ===== src/Lambda/Requests.antt =====
-- What handler of cmd/lambda/main.go hands to PreflightEnforce and Enforce
use text.Mathlib.Text.{◌==◌ as str_eq}
use otel_aws_log_processor.Prelude.{
  Bool, not, ◌&&◌, List, [], ◌∷◌, Option, none, some, if◌then◌else◌, is_empty, length, any, Text,
  txt, text_eq, trim_space, sort_texts, ◌==◌,
}
use otel_aws_log_processor.Prelude.Int.{ℤ}
use otel_aws_log_processor.Prelude.Sets.{insert}
use otel_aws_log_processor.Prelude.Strconv
use otel_aws_log_processor.Events.{S3EventRecord, Decoders, parse_body}
use otel_aws_log_processor.License.Claims.{detect_environment}
use otel_aws_log_processor.License.Extract.{
  Resource, extract_resource_from_attributes, extract_resource_from_s3_key,
}
use otel_aws_log_processor.License.Host.{Host}
use otel_aws_log_processor.License.Quota.{Time}
use otel_aws_log_processor.License.Token.{extract_caller_account_id}
use otel_aws_log_processor.License.Enforce.Options.{EnforcementOptions}
use otel_aws_log_processor.Model.{Attribute}
use otel_aws_log_processor.Processor.Adapter.{LogAdapter}
use otel_aws_log_processor.Utils.Env.{get_env}
use otel_aws_log_processor.Utils.S3Key.{parse_region_account}
use otel_aws_log_processor.Lambda.Messages.{SqsMessage, Gathered, records_of}

-- The first SentTimestamp that is a time other than zero
abbrev parsed_time : (ℤ → Time) → Strconv.Parsed → Time
parsed_time unix_milli p = elim p.err [ none ↦ unix_milli p.value | some e ↦ 0 ]

abbrev time_of : (ℤ → Time) → Option Text → Time
time_of unix_milli none = 0
time_of unix_milli (some s) = if is_empty s then 0 else parsed_time unix_milli (Strconv.parse_int s)

unfoldable pub authoritative_time : (ℤ → Time) → List SqsMessage → Time
authoritative_time unix_milli [] = 0
authoritative_time unix_milli (m ∷ ms) =
    let t = time_of unix_milli m.sent_timestamp in
    let rest = authoritative_time unix_milli ms in if t == 0 then rest else t

abbrev add_buckets : List S3EventRecord → List Text → List Text
add_buckets [] seen = seen
add_buckets (r ∷ rs) seen =
    add_buckets rs (if is_empty r.bucket then seen else insert r.bucket seen)

unfoldable pub preflight_buckets : Decoders → List SqsMessage → List Text → List Text
preflight_buckets d [] seen = sort_texts seen
preflight_buckets d (m ∷ ms) seen =
    preflight_buckets d ms (add_buckets (records_of (parse_body d m.body)) seen)

abbrev pub first_text : List Text → Text
first_text [] = []
first_text (b ∷ bs) = b

abbrev project_name : Host → Text
project_name h = trim_space (get_env h.env "PROJECT_NAME" [])

abbrev pub preflight_request : Host → Text → List Text → EnforcementOptions
preflight_request h bucket buckets = record {
  environment = detect_environment h.env;
  project_name = project_name h;
  license_key = [];
  license_file = [];
  crl = [];
  crl_file = [];
  crl_url = [];
  enforcement_mode = [];
  caller_account_id = extract_caller_account_id h;
  source_account_ids = [];
  source_resource_arns = [];
  batch_record_count = 0;
  bucket_name = bucket;
  bucket_names = buckets;
  exercised_features = [];
  public_key = [];
  evaluation_time = 0;
  authoritative_time = 0;
}

abbrev add_nonempty : Text → List Text → List Text
add_nonempty t seen = if is_empty t then seen else insert t seen

abbrev key_accounts : List Text → List Text → List Text
key_accounts [] seen = seen
key_accounts (k ∷ ks) seen = key_accounts ks (add_nonempty (parse_region_account k).0 seen)

-- The ARN, or else the short identifier, if there is one
abbrev add_resource : Resource → List Text → List Text
add_resource (arn, id) seen = if is_empty arn then add_nonempty id seen else insert arn seen

abbrev key_resources : List Text → List Text → List Text
key_resources [] seen = seen
key_resources (k ∷ ks) seen = key_resources ks (add_resource (extract_resource_from_s3_key k) seen)

abbrev is_other : Text → Text → Bool
is_other caller a = not (is_empty a) && not (text_eq a caller)

module _ {F : Type 0} where
  abbrev account_of : Attribute F → Option Text
  account_of a = if str_eq a.key "cloud.account.id" then a.value.string_value else none

  abbrev add_accounts : List (Attribute F) → List Text → List Text
  add_accounts [] seen = seen
  add_accounts (a ∷ rest) seen =
      add_accounts rest (elim (account_of a) [ none ↦ seen | some t ↦ insert t seen ])

  abbrev entry_accounts : List (LogAdapter F) → List Text → List Text
  entry_accounts [] seen = seen
  entry_accounts (e ∷ es) seen = entry_accounts es (add_accounts e.get_resource_attributes seen)

  unfoldable pub source_accounts : Gathered F → List Text
  source_accounts g = key_accounts g.keys (entry_accounts g.entries [])

  abbrev entry_resources : List (LogAdapter F) → List Text → List Text
  entry_resources [] seen = seen
  entry_resources (e ∷ es) seen =
      entry_resources es
        (add_resource (extract_resource_from_attributes e.get_resource_attributes) seen)

  unfoldable pub source_resources : Gathered F → List Text
  source_resources g = key_resources g.keys (entry_resources g.entries [])

  unfoldable pub exercised : Text → Gathered F → List Text
  exercised caller g =
      if not (is_empty caller) && any (is_other caller) (source_accounts g)
      then insert (txt "scope.cross_account") g.features
      else g.features

  abbrev processed_buckets : Gathered F → List Text → List Text
  processed_buckets g preflight = if is_empty g.buckets then preflight else sort_texts g.buckets

  abbrev pub batch_request : Host → Gathered F → List Text → EnforcementOptions
  batch_request h g preflight =
      record (preflight_request h (first_text (processed_buckets g preflight))
        (processed_buckets g preflight)) {
          source_account_ids = source_accounts g;
          source_resource_arns = source_resources g;
          exercised_features = exercised (extract_caller_account_id h) g;
          batch_record_count = length g.entries;
        }
