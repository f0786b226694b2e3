-- ===== src/Processor/Adapter.antt =====
-- What the four adapters share: the LogAdapter interface of pkg/processor/processor.go, the
-- severity of a status code, and the URL attributes of pkg/utils/otel_utils.go.
use otel_aws_log_processor.Prelude.{
  ℕ, Bool, not, List, [], ◌∷◌, ◌++◌, Option, none, some, if◌then◌else◌, is_empty, Text, txt,
}
use otel_aws_log_processor.Prelude.Int.{ℤ, pos, leb_ℤ}
use otel_aws_log_processor.Prelude.Floats.{Floats}
use otel_aws_log_processor.Model.{Attribute, LogRecord, Add, attr}
use otel_aws_log_processor.Utils.Conversion.{is_blank}
use otel_aws_log_processor.Processor.Host.{Url, Host}

pub record LogAdapter (F : Type 0) : Type 0 where
  pub get_resource_key : Text
  pub get_resource_attributes : List (Attribute F)
  pub build_attributes : List (Attribute F)
  pub to_otel : LogRecord F

pub record Severity : Type 0 where
  pub number : ℕ
  pub text : Text

abbrev pub info : Severity
info = record { number = 9; text = txt "INFO" }

abbrev pub warn : Severity
warn = record { number = 13; text = txt "WARN" }

abbrev pub error : Severity
error = record { number = 17; text = txt "ERROR" }

-- The ladder of ALBAdapter.ToOTel and CloudFrontAdapter.ToOTel.
unfoldable pub severity_of_status : ℤ → Severity
severity_of_status status =
    if leb_ℤ (pos 500) status then error else if leb_ℤ (pos 400) status then warn else info

-- `if b { … }` around some calls
abbrev pub when {ℓ} : {A : Type ℓ} → Bool → List A → List A
when b adds = if b then adds else []

-- `if v != "" { attrs = append(attrs, …) }`
abbrev pub given {ℓ} : {A : Type ℓ} → Text → A → List A
given v a = when (not (is_empty v)) (a ∷ [])

module _ {fl : Floats} where
  abbrev url_attrs : Option Url → List (Add fl)
  url_attrs none = []
  url_attrs (some u) =
      when (not (is_empty u.scheme)) (attr "http.scheme" u.scheme ∷ [])
      ++ when (not (is_empty u.path)) (
          attr "url.path" u.path
          ∷ (if not (is_empty u.raw_query)
              then attr "url.query" u.raw_query
                ∷ attr "http.target" (u.path ++ (txt "?" ++ u.raw_query))
                ∷ []
              else attr "http.target" u.path ∷ []))

  -- ParseRequestURL. Its map is read in an unspecified order; here it is the order of the writes.
  unfoldable pub parse_request_url : Host fl → Text → List (Add fl)
  parse_request_url host url = if is_blank url then [] else url_attrs (host.parse_url url)
