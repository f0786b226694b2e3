-- ===== src/Utils/Conversion.antt =====
-- pkg/utils/conversion.go
use otel_aws_log_processor.Prelude.{
  ℕ, Bool, ◌||◌, List, [], if◌then◌else◌, leb, length, get_or, is_empty, Text, txt, text_eq,
}
use otel_aws_log_processor.Prelude.Int.{ℤ, pos}
use otel_aws_log_processor.Prelude.Strconv
use otel_aws_log_processor.Prelude.Floats.{Floats}

abbrev pub is_dash : Text → Bool
unfolding txt
is_dash s = text_eq s (txt "-")

-- The guard `s == "" || s == "-"` of several functions.
abbrev pub is_blank : Text → Bool
is_blank s = is_empty s || is_dash s

unfoldable pub safe_string : Text → Text
unfolding txt
safe_string s = if is_dash s then [] else s

unfoldable pub get_match : List Text → ℕ → Text
unfolding safe_string
get_match matches index =
    if leb (length matches) index then [] else safe_string (get_or matches index [])

-- ParseInt and ParseInt64, which differ in the Go type alone on a 64-bit platform.
unfoldable pub parse_int : Text → ℤ
unfolding txt
parse_int s = if is_blank s then pos 0 else (Strconv.parse_int s).value

module _ (fl : Floats) where
  open fl use {Float, zero as zero_float, parse_float as strconv_parse_float}

  unfoldable pub parse_float : Text → Float
  unfolding txt
  parse_float s = if is_blank s then zero_float else strconv_parse_float s
