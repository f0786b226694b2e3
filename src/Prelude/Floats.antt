-- ===== src/Prelude/Floats.antt =====
-- float64 is not computed with: the program parses a float, tests it against 0 and hands it on.
use otel_aws_log_processor.Prelude.{◌≡◌, Bool, true, ◌↔◌, Text}

pub record Floats : Type 1 where
  pub Float : Type 0
  pub zero : Float
  pub is_zero : Float → Bool
  pub is_zero_iff : (x : Float) → (is_zero x ≡ true) ↔ (x ≡ zero)
  -- the value that strconv.ParseFloat(s, 64) returns, beside an error or none
  pub parse_float : Text → Float
