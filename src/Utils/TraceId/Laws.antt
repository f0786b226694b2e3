-- ===== src/Utils/TraceId/Laws.antt =====
-- The shape of what ParseAWSTraceID of pkg/utils/otel_utils.go returns.
use otel_aws_log_processor.Prelude.{
  ℕ, ◌≡◌, refl, ◌∙◌, Bool, true, false, ◌&&◌, ◌||◌, List, [], ◌∷◌, leb, ◌==◌, ==_iff, if◌then◌else◌,
  all, Text, txt, split, trim_prefix, get_or, length, ◌++◌, to_lower, lower_code, byte_len, arith,
  inl, inr, ◌⊎◌,
}
use otel_aws_log_processor.Utils.Conversion.{is_blank}
use otel_aws_log_processor.Utils.TraceId.{
  is_hex_digit, is_hex, checked, from_parts, parse_aws_trace_id,
}

abbrev pub is_lower_hex_digit : ℕ → Bool
is_lower_hex_digit c = (leb b'0' c && leb c b'9') || (leb b'a' c && leb c b'f')

-- 32 lower-case hexadecimal digits, or nothing.
abbrev pub IsTraceId : Text → Type 0
IsTraceId id = (id ≡ []) ⊎ ((byte_len id ≡ 32) × (all is_lower_hex_digit id ≡ true))

lower-is_lower : (c : ℕ) → is_hex_digit c ≡ true → is_lower_hex_digit (lower_code c) ≡ true
lower-is_lower c h = ground arith

to_lower-is_lower : (s : Text) → is_hex s ≡ true → all is_lower_hex_digit (to_lower s) ≡ true
unfolding is_hex to_lower
to_lower-is_lower [] h = refl
to_lower-is_lower (c ∷ s) h = ground (arith, lower-is_lower c, to_lower-is_lower s)

byte_len-to_lower : (s : Text) → is_hex s ≡ true → byte_len (to_lower s) ≡ byte_len s
unfolding is_hex to_lower byte_len
byte_len-to_lower [] h = refl
byte_len-to_lower (c ∷ s) h = ground (arith, byte_len-to_lower s)

guarded : (b : Bool) (id : Text) → (b ≡ true → IsTraceId id) → IsTraceId (if b then id else [])
guarded true id h = h refl
guarded false id h = inl refl

checked-IsTraceId : (id : Text) → IsTraceId (checked id)
checked-IsTraceId id = guarded ((byte_len id == 32) && is_hex id) (to_lower id) (λ h. inr (
  byte_len-to_lower id (ground arith) ∙ (==_iff (byte_len id) 32).0 (ground arith),
  to_lower-is_lower id (ground arith),
))

from_parts-IsTraceId : (parts : List Text) → IsTraceId (from_parts parts)
from_parts-IsTraceId parts =
    guarded (leb 3 (length parts)) _
      (λ h. checked-IsTraceId (get_or parts 1 [] ++ get_or parts 2 []))

guarded_not : (b : Bool) (id : Text) → IsTraceId id → IsTraceId (if b then [] else id)
guarded_not true id h = inl refl
guarded_not false id h = h

-- ParseAWSTraceID returns nothing or 32 lower-case hexadecimal digits, whatever header it is
-- given.
pub parse_aws_trace_id-IsTraceId : (s : Text) → IsTraceId (parse_aws_trace_id s)
unfolding parse_aws_trace_id
parse_aws_trace_id-IsTraceId s =
    guarded_not (is_blank s) (from_parts (split (trim_prefix s (txt "Root=")) b'-'))
      (from_parts-IsTraceId (split (trim_prefix s (txt "Root=")) b'-'))
