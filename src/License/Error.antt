-- ===== src/License/Error.antt =====
-- The errors of pkg/license: the sentinels that errors.Is finds in one, and its text.
use otel_aws_log_processor.Prelude.{
  Bool, true, false, ◌||◌, List, [], ◌∷◌, ◌++◌, any, Text, txt, contains,
}

pub data Sentinel : Type 0 where
  commercial_license_required feature_not_entitled license_revoked : Sentinel
  resource_quota_exceeded resource_not_allowed registry_access_denied : Sentinel
  expired not_yet_valid product_mismatch invalid_signature invalid_license_format : Sentinel
  license_not_found scope_mismatch version_not_entitled maintenance_expired : Sentinel

pub record Error : Type 0 where
  pub sentinels : List Sentinel
  pub message : Text

-- fmt.Errorf("%s", message), errors.New
abbrev pub plain : Text → Error
plain m = record { sentinels = []; message = m }

-- fmt.Errorf("%s: %w", message, err)
abbrev pub wrap : Text → Error → Error
wrap m e = record { sentinels = e.sentinels; message = m ++ (txt ": " ++ e.message) }

-- Every sentinel of the list above stands in the condition of IsDeterministicLicenseError.
abbrev pub has_sentinel : List Sentinel → Bool
has_sentinel [] = false
has_sentinel (s ∷ ss) = true

abbrev pub phrases : List Text
phrases =
    txt "COMMERCIAL LICENSE"
    ∷ txt "license verification failed"
    ∷ txt "ACCOUNT MISMATCH"
    ∷ txt "RESOURCE QUOTA EXCEEDED"
    ∷ txt "RESOURCE NOT ALLOWED"
    ∷ txt "not authorized"
    ∷ txt "AccessDenied"
    ∷ []

-- IsDeterministicLicenseError of an error that is not nil
unfoldable pub is_deterministic : Error → Bool
is_deterministic e = has_sentinel e.sentinels || any (contains e.message) phrases
