-- ===== src/Parser/Line.antt =====
-- A call of ParseLogLine (pkg/parser/parser.go) returns no entry and no error, an error, or an
-- entry.
use otel_aws_log_processor.Prelude.{Bool, ◌||◌, is_empty, Text, txt, has_prefix}

pub data Line {ℓ} (A : Type ℓ) : Type ℓ where
  skipped : Line A
  failed : Line A
  entry : A → Line A

-- The lines that the parsers of text logs skip: `line == "" || strings.HasPrefix(line, "#")`.
abbrev pub is_skipped : Text → Bool
is_skipped line = is_empty line || has_prefix line (txt "#")
