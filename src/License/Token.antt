-- ===== src/License/Token.antt =====
-- ResolveToken and ExtractCallerAccountID of pkg/license/enforcer.go
use otel_aws_log_processor.Prelude.{
  Bool, true, false, [], ◌∷◌, none, some, ◌⊎◌, inl, inr, not, any, if◌then◌else◌, is_empty, Text,
  txt, concat, trim_space,
}
use otel_aws_log_processor.Utils.Arn.{extract_account_id}
use otel_aws_log_processor.License.Error.{Error, Sentinel, license_not_found, wrap}
use otel_aws_log_processor.License.Host.{Host}

abbrev is_not_found : Sentinel → Bool
is_not_found license_not_found = true
is_not_found s = false

abbrev from_library : Error ⊎ Text → Error ⊎ Text
from_library (inl e) = if any is_not_found e.sentinels then inr [] else inl e
from_library (inr t) = inr (trim_space t)

abbrev from_file : Text → Error ⊎ Text → Error ⊎ Text
from_file file (inl e) = inl (wrap (concat (txt "failed to read license file " ∷ file ∷ [])) e)
from_file file (inr s) = inr (trim_space s)

-- The key, or else the file, or else what the library finds; "" if there is no token.
unfoldable pub resolve_token : Host → Text → Text → Error ⊎ Text
resolve_token h key file =
    if not (is_empty (trim_space key))
    then inr (trim_space key)
    else if not (is_empty (trim_space file))
    then from_file (trim_space file) (h.read_file (trim_space file))
    else from_library h.resolve_token

unfoldable pub extract_caller_account_id : Host → Text
unfolding extract_account_id
extract_caller_account_id h = elim h.invoked_function_arn [
  | none ↦ []
  | some arn ↦ extract_account_id arn
]
