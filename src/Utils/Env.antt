-- ===== src/Utils/Env.antt =====
-- pkg/utils/env.go. The environment is a function; an unset variable has the empty text.
use otel_aws_log_processor.Prelude.{Bool, String, none, some, Text, if◌then◌else◌, is_empty}
use otel_aws_log_processor.Prelude.Int.{ℤ}
use otel_aws_log_processor.Prelude.Strconv

abbrev pub Environ : Type 0
Environ = String → Text

unfoldable pub get_env : Environ → String → Text → Text
get_env env key default = if is_empty (env key) then default else env key

abbrev value_or : Strconv.Parsed → ℤ → ℤ
value_or p d = elim p.err [ none ↦ p.value | some e ↦ d ]

unfoldable pub get_env_int : Environ → String → ℤ → ℤ
get_env_int env key default =
    if is_empty (env key) then default else value_or (Strconv.parse_int (env key)) default

unfoldable pub get_env_bool : Environ → String → Bool → Bool
get_env_bool env key default =
    if is_empty (env key)
    then default
    else elim (Strconv.parse_bool (env key)) [ none ↦ default | some b ↦ b ]
