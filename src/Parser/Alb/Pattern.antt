-- ===== src/Parser/Alb/Pattern.antt =====
-- albLogPattern of pkg/parser/alb_parser.go
use otel_aws_log_processor.Prelude.{◌||◌, not, ◌==◌, codes}
use otel_aws_log_processor.Prelude.Strconv.{is_digit}
use otel_aws_log_processor.Prelude.Regexp.{
  Regex, empty, start, set, seq, alt, star, lazy_star, group, literal, plus, optional, within,
  other_than, ◌⋯◌,
}

abbrev sp : Regex
sp = set (λ c. c == 32)

abbrev quote : Regex
quote = set (λ c. c == b'"')

-- [^ ]*
abbrev word : Regex
word = star (set (other_than 32))

-- [^"]*
abbrev unquoted : Regex
unquoted = star (set (other_than b'"'))

-- [0-9]*
abbrev digits : Regex
digits = star (set is_digit)

-- [-.0-9]*
abbrev decimal : Regex
decimal = star (set (λ c. c == b'-' || c == b'.' || is_digit c))

-- [-0-9]*
abbrev status : Regex
status = star (set (λ c. c == b'-' || is_digit c))

-- [A-Z0-9-_]+
abbrev cipher : Regex
cipher = plus (set (λ c. within b'A' b'Z' c || is_digit c || c == b'-' || c == b'_'))

-- [A-Za-z0-9.-]*
abbrev protocol : Regex
protocol =
    star
      (set (λ c. within b'A' b'Z' c || within b'a' b'z' c || is_digit c || c == b'.' || c == b'-'))

-- [^\\s]
abbrev non_space : Regex
non_space = set (λ c. not (c == 9 || c == 10 || c == 12 || c == 13 || c == 32))

abbrev pub alb_log_pattern : Regex
alb_log_pattern =
    start
    ⋯ group 1 word
    ⋯ sp
    ⋯ group 2 word
    ⋯ sp
    ⋯ group 3 word
    ⋯ sp
    ⋯ group 4 word
    ⋯ literal (codes ":")
    ⋯ group 5 digits
    ⋯ sp
    ⋯ group 6 word
    ⋯ set (λ c. c == b':' || c == b'-')
    ⋯ group 7 digits
    ⋯ sp
    ⋯ group 8 decimal
    ⋯ sp
    ⋯ group 9 decimal
    ⋯ sp
    ⋯ group 10 decimal
    ⋯ sp
    ⋯ group 11 (alt empty status)
    ⋯ sp
    ⋯ group 12 (alt (literal (codes "-")) status)
    ⋯ sp
    ⋯ group 13 status
    ⋯ sp
    ⋯ group 14 status
    ⋯ sp
    ⋯ quote
    ⋯ group 15 word
    ⋯ sp
    ⋯ group 16 (star (set (other_than 10)))
    ⋯ sp
    ⋯ group 17 (alt (literal (codes "- ")) word)
    ⋯ quote
    ⋯ sp
    ⋯ quote
    ⋯ group 18 unquoted
    ⋯ quote
    ⋯ sp
    ⋯ group 19 cipher
    ⋯ sp
    ⋯ group 20 protocol
    ⋯ sp
    ⋯ group 21 word
    ⋯ sp
    ⋯ quote
    ⋯ group 22 unquoted
    ⋯ quote
    ⋯ sp
    ⋯ quote
    ⋯ group 23 unquoted
    ⋯ quote
    ⋯ sp
    ⋯ quote
    ⋯ group 24 unquoted
    ⋯ quote
    ⋯ sp
    ⋯ group 25 decimal
    ⋯ sp
    ⋯ group 26 word
    ⋯ sp
    ⋯ quote
    ⋯ group 27 unquoted
    ⋯ quote
    ⋯ sp
    ⋯ quote
    ⋯ group 28 unquoted
    ⋯ quote
    ⋯ sp
    ⋯ quote
    ⋯ group 29 word
    ⋯ quote
    ⋯ sp
    ⋯ quote
    ⋯ group 30 (seq non_space (lazy_star non_space))
    ⋯ quote
    ⋯ sp
    ⋯ quote
    ⋯ group 31 (plus non_space)
    ⋯ quote
    ⋯ sp
    ⋯ quote
    ⋯ group 32 word
    ⋯ quote
    ⋯ sp
    ⋯ quote
    ⋯ group 33 word
    ⋯ quote
    ⋯ sp
    ⋯ group 34 word
    ⋯ optional (sp ⋯ quote ⋯ group 35 unquoted ⋯ quote)
    ⋯ optional (sp ⋯ quote ⋯ group 36 unquoted ⋯ quote)
    ⋯ optional (sp ⋯ quote ⋯ group 37 unquoted ⋯ quote)
