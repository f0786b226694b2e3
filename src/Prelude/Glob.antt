-- ===== src/Prelude/Glob.antt =====
-- path.Match: `*` stands for any characters but "/", `?` for one such character, `[…]` for one of a
-- class, and `\` escapes. A malformed pattern matches nothing.
use otel_aws_log_processor.Prelude.{
  ℕ, zero, suc, Bool, true, false, not, ◌&&◌, ◌||◌, List, [], ◌∷◌, Option, none, some, leb, ◌==◌,
  if◌then◌else◌, any, is_empty, length, Text,
}

pub data Token : Type 0 where
  star : Token
  one : (ℕ → Bool) → Token

-- getEsc: one character of a class, and a rest that is not empty
abbrev followed : ℕ → Text → Option (ℕ × Text)
followed c [] = none
followed c (d ∷ rest) = some (c, d ∷ rest)

abbrev escaped : Text → Option (ℕ × Text)
escaped [] = none
escaped (c ∷ rest) = followed c rest

abbrev get_esc : Text → Option (ℕ × Text)
get_esc [] = none
get_esc (c ∷ rest) =
    if c == b'-' || c == b']' then none else if c == 92 then escaped rest else followed c rest

-- lo, or lo-hi
abbrev with_high : ℕ → Option (ℕ × Text) → Option ((ℕ × ℕ) × Text)
with_high lo none = none
with_high lo (some (hi, rest)) = some ((lo, hi), rest)

abbrev range_from : ℕ → Text → Option ((ℕ × ℕ) × Text)
range_from lo [] = none
range_from lo (c ∷ rest) =
    if c == b'-' then with_high lo (get_esc rest) else some ((lo, lo), c ∷ rest)

abbrev get_range : Text → Option ((ℕ × ℕ) × Text)
get_range p = elim (get_esc p) [ none ↦ none | some (lo, rest) ↦ range_from lo rest ]

abbrev cons_range : ℕ × ℕ → Option (List (ℕ × ℕ) × Text) → Option (List (ℕ × ℕ) × Text)
cons_range r none = none
cons_range r (some (rs, rest)) = some (r ∷ rs, rest)

-- The ranges up to the bracket, after `seen` ones; the fuel is the length of the pattern, and each
-- range takes a character.
unfoldable pub ranges : ℕ → Bool → Text → Option (List (ℕ × ℕ) × Text)
ranges zero seen p = none
ranges (suc f) seen [] = none
ranges (suc f) seen (c ∷ p) = if seen && c == b']' then some ([], p) else elim (get_range (c ∷ p)) [
  | none ↦ none
  | some (r, rest) ↦ cons_range r (ranges f true rest)
]

abbrev in_range : ℕ → ℕ × ℕ → Bool
in_range c (lo, hi) = leb lo c && leb c hi

abbrev of_class : Bool → List (ℕ × ℕ) → ℕ → Bool
of_class negated rs c = if negated then not (any (in_range c) rs) else any (in_range c) rs

abbrev class_body : Text → Bool × Text
class_body [] = (false, [])
class_body (c ∷ p) = if c == b'^' then (true, p) else (false, c ∷ p)

abbrev class_token : Bool → Option (List (ℕ × ℕ) × Text) → Option (Token × Text)
class_token negated none = none
class_token negated (some (rs, rest)) = some (one (of_class negated rs), rest)

abbrev literal_token : Text → Option (Token × Text)
literal_token [] = none
literal_token (c ∷ p) = some (one (λ d. d == c), p)

abbrev next_token : ℕ → ℕ → Text → Option (Token × Text)
unfolding ranges
next_token f c p =
    if c == b'*'
    then some (star, p)
    else if c == b'?'
    then some (one (λ d. not (d == b'/')), p)
    else if c == b'['
    then class_token (class_body p).0 (ranges f false (class_body p).1)
    else if c == 92
    then literal_token p
    else some (one (λ d. d == c), p)

abbrev cons_token : Token → Option (List Token) → Option (List Token)
cons_token t none = none
cons_token t (some ts) = some (t ∷ ts)

unfoldable pub tokens : ℕ → Text → Option (List Token)
unfolding next_token
tokens f [] = some []
tokens zero (c ∷ p) = none
tokens (suc f) (c ∷ p) = elim (next_token (length p) c p) [
  | none ↦ none
  | some (t, rest) ↦ cons_token t (tokens f rest)
]

-- Some suffix that is reached without a "/" goes on.
abbrev star_run : (Text → Bool) → Text → Bool
star_run k [] = k []
star_run k (c ∷ s) = k (c ∷ s) || (not (c == b'/') && star_run k s)

unfoldable pub glob : List Token → Text → Bool
glob [] s = is_empty s
glob (star ∷ ts) s = star_run (glob ts) s
glob (one p ∷ ts) [] = false
glob (one p ∷ ts) (c ∷ s) = p c && glob ts s

unfoldable pub path_match : Text → Text → Bool
unfolding tokens glob
path_match pattern name = elim (tokens (length pattern) pattern) [
  | none ↦ false
  | some ts ↦ glob ts name
]
