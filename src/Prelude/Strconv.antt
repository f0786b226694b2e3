-- ===== src/Prelude/Strconv.antt =====
-- strconv.ParseInt in base 10 (Atoi on a 64-bit platform has the same result), ParseBool, and the
-- %d of package fmt. A failed call returns a value beside its error, and the program uses it.
use otel_aws_log_processor.Prelude.{
  ℕ, zero, suc, ◌+◌, ◌-◌, ◌*◌, ◌/◌, ◌%◌, ◌^◌, Bool, true, false, ◌&&◌, [], ◌∷◌, ◌++◌, Option, none,
  some, ltb, leb, ◌==◌, if◌then◌else◌, any, Text, codes, text_eq,
}
use otel_aws_log_processor.Prelude.Int.{ℤ, pos, negsuc}

pub data NumError : Type 0 where
  bad_syntax out_of_range : NumError

pub record Parsed : Type 0 where
  pub value : ℤ
  pub err : Option NumError

pub data Unsigned : Type 0 where
  ok : ℕ → Unsigned
  fail : NumError → Unsigned

abbrev pub is_digit : ℕ → Bool
is_digit c = leb b'0' c && leb c b'9'

-- The loop of ParseUint: it stops at the first byte that is no digit or makes the value too large.
unfoldable pub scan_digits : Text → ℕ → Unsigned
scan_digits [] n = ok n
scan_digits (c ∷ s) n =
    let rest = scan_digits s (n * 10 + (c - b'0')) in
    if is_digit c
    then (if leb (2 ^ 64) (n * 10 + (c - b'0')) then fail out_of_range else rest)
    else fail bad_syntax

unfoldable pub parse_uint : Text → Unsigned
unfolding scan_digits
parse_uint [] = fail bad_syntax
parse_uint (c ∷ s) = scan_digits (c ∷ s) 0

abbrev max_int64 : ℤ
max_int64 = pos (2 ^ 63 - 1)

abbrev min_int64 : ℤ
min_int64 = negsuc (2 ^ 63 - 1)

abbrev negate : ℕ → ℤ
negate zero = pos 0
negate (suc n) = negsuc n

abbrev signed : Bool → Unsigned → Parsed
signed neg (fail bad_syntax) = record { value = pos 0; err = some bad_syntax }
signed true (fail out_of_range) = record { value = min_int64; err = some out_of_range }
signed false (fail out_of_range) = record { value = max_int64; err = some out_of_range }
signed true (ok u) =
    if ltb (2 ^ 63) u
    then record { value = min_int64; err = some out_of_range }
    else record { value = negate u; err = none }
signed false (ok u) =
    if leb (2 ^ 63) u
    then record { value = max_int64; err = some out_of_range }
    else record { value = pos u; err = none }

unfoldable pub parse_int : Text → Parsed
unfolding parse_uint
parse_int [] = record { value = pos 0; err = some bad_syntax }
parse_int (c ∷ s) =
    if c == b'-'
    then signed true (parse_uint s)
    else if c == b'+'
    then signed false (parse_uint s)
    else signed false (parse_uint (c ∷ s))

unfoldable pub parse_bool : Text → Option Bool
parse_bool s =
    if any (text_eq s)
      (codes "1" ∷ codes "t" ∷ codes "T" ∷ codes "TRUE" ∷ codes "true" ∷ codes "True" ∷ [])
    then some true
    else if any (text_eq s)
        (codes "0" ∷ codes "f" ∷ codes "F" ∷ codes "FALSE" ∷ codes "false" ∷ codes "False" ∷ [])
    then some false
    else none

-- The fuel is the number itself: it has at most that many digits, or one.
unfoldable pub digits : ℕ → ℕ → Text
digits zero n = (b'0' + n % 10) ∷ []
digits (suc f) n = elim (ltb n 10) [
  | true ↦ (b'0' + n) ∷ []
  | false ↦ digits f (n / 10) ++ (b'0' + n % 10) ∷ []
]

unfoldable pub format_nat : ℕ → Text
unfolding digits
format_nat n = digits n n

-- fmt.Sprintf("%d", i)
unfoldable pub format_int : ℤ → Text
unfolding format_nat
format_int (pos n) = format_nat n
format_int (negsuc n) = b'-' ∷ format_nat (suc n)
