-- ===== src/Prelude/Regexp.antt =====
-- The regular expressions of package regexp that the program uses. A search takes the leftmost
-- match, and of those the one that backtracking finds first, with the texts of its groups.
use otel_aws_log_processor.Prelude.{
  ℕ, zero, suc, ◌+◌, ◌-◌, Bool, true, false, not, ◌&&◌, List, [], ◌∷◌, Option, none, some, leb,
  ◌==◌, if◌then◌else◌, length, take, is_empty, Text, lower_code,
}

pub data Regex : Type 0 where
  empty : Regex
  start : Regex  -- ^
  finish : Regex  -- $
  set : (ℕ → Bool) → Regex
  seq : Regex → Regex → Regex
  alt : Regex → Regex → Regex
  star : Regex → Regex  -- r*
  lazy_star : Regex → Regex  -- r*?
  group : ℕ → Regex → Regex

pub record Cursor : Type 0 where
  pub position : ℕ
  pub rest : Text
  pub groups : List (ℕ × Text)

abbrev advance : (ℕ → Bool) → Text → Cursor → (Cursor → Option Cursor) → Option Cursor
advance p [] c k = none
advance p (x ∷ xs) c k = elim (p x) [
  | true ↦ k (record c { position = c.position + 1; rest = xs })
  | false ↦ none
]

abbrev first : Option Cursor → Option Cursor → Option Cursor
first (some m) n = some m
first none n = n

-- Greedy repetition: one more round if it leads to a match, else go on. A round consumes a
-- character, so the length of the rest is enough fuel.
unfoldable pub repeat :
    (Cursor → (Cursor → Option Cursor) → Option Cursor)
    → ℕ
    → Cursor
    → (Cursor → Option Cursor)
    → Option Cursor
repeat round zero c k = k c
repeat round (suc n) c k = elim (round c (λ c'. repeat round n c' k)) [
  | some m ↦ some m
  | none ↦ k c
]

unfoldable pub repeat_lazy :
    (Cursor → (Cursor → Option Cursor) → Option Cursor)
    → ℕ
    → Cursor
    → (Cursor → Option Cursor)
    → Option Cursor
repeat_lazy round zero c k = k c
repeat_lazy round (suc n) c k = elim (k c) [
  | some m ↦ some m
  | none ↦ round c (λ c'. repeat_lazy round n c' k)
]

abbrev close : ℕ → Cursor → Cursor → Cursor
close i c c' = record c' { groups = (i, take (length c.rest - length c'.rest) c.rest) ∷ c'.groups }

unfoldable pub run : Regex → Cursor → (Cursor → Option Cursor) → Option Cursor
unfolding repeat repeat_lazy
run empty c k = k c
run start c k = elim (c.position == 0) [ true ↦ k c | false ↦ none ]
run finish c k = elim (is_empty c.rest) [ true ↦ k c | false ↦ none ]
run (set p) c k = advance p c.rest c k
run (seq a b) c k = run a c (λ c'. run b c' k)
run (alt a b) c k = elim (run a c k) [ some m ↦ some m | none ↦ run b c k ]
run (star r) c k = repeat (run r) (length c.rest) c k
run (lazy_star r) c k = repeat_lazy (run r) (length c.rest) c k
run (group i r) c k = run r c (λ c'. k (close i c c'))

abbrev cursor : ℕ → Text → Cursor
cursor n s = record { position = n; rest = s; groups = [] }

unfoldable pub search_from : Regex → ℕ → Text → Option Cursor
unfolding run
search_from r n [] = run r (cursor n []) some
search_from r n (c ∷ s) = elim (run r (cursor n (c ∷ s)) some) [
  | some m ↦ some m
  | none ↦ search_from r (n + 1) s
]

-- The text of a group; a group that took no part has the empty text.
abbrev pub group_text : ℕ → List (ℕ × Text) → Text
group_text i [] = []
group_text i ((j, s) ∷ gs) = if i == j then s else group_text i gs

abbrev pub submatches_upto : ℕ → ℕ → List (ℕ × Text) → List Text
submatches_upto i zero gs = []
submatches_upto i (suc n) gs = group_text i gs ∷ submatches_upto (i + 1) n gs

-- FindStringSubmatch of an expression with n groups: none, or the match and its groups.
unfoldable pub find_submatch : Regex → ℕ → Text → Option (List Text)
unfolding search_from
find_submatch r n s = elim (search_from (group 0 r) 0 s) [
  | none ↦ none
  | some m ↦ some (submatches_upto 0 (n + 1) m.groups)
]

-- MatchString
unfoldable pub matches : Regex → Text → Bool
unfolding search_from
matches r s = elim (search_from r 0 s) [ none ↦ false | some m ↦ true ]

abbrev pub literal : Text → Regex
literal [] = empty
literal (c ∷ s) = seq (set (λ x. x == c)) (literal s)

-- (?i) over a literal of small letters
abbrev pub literal_fold : Text → Regex
literal_fold [] = empty
literal_fold (c ∷ s) = seq (set (λ x. lower_code x == c)) (literal_fold s)

abbrev pub plus : Regex → Regex
plus r = seq r (star r)

abbrev pub optional : Regex → Regex
optional r = alt r empty

-- r{n}
abbrev pub times : ℕ → Regex → Regex
times zero r = empty
times (suc n) r = seq r (times n r)

-- at most n more
abbrev pub up_to : ℕ → Regex → Regex
up_to zero r = empty
up_to (suc n) r = optional (seq r (up_to n r))

infixr 60 ◌⋯◌
abbrev pub ◌⋯◌ : Regex → Regex → Regex
a ⋯ b = seq a b

abbrev pub within : ℕ → ℕ → ℕ → Bool
within lo hi c = leb lo c && leb c hi

abbrev pub other_than : ℕ → ℕ → Bool
other_than c x = not (x == c)
