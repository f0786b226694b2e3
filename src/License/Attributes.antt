-- ===== src/License/Attributes.antt =====
-- AppendLicenseAttributes of pkg/license/enforcer.go
use otel_aws_log_processor.Prelude.{
  false, List, [], ◌∷◌, Option, none, some, if◌then◌else◌, is_empty, Text, txt,
}
use otel_aws_log_processor.Prelude.Int.{pos, ltb_ℤ}
use otel_aws_log_processor.Model.{Attribute, add_attr, add_int_attr}
use otel_aws_log_processor.License.Claims.{Claims, get_claims_plan, get_max_resources}
use otel_aws_log_processor.License.Host.{Host}
use otel_aws_log_processor.License.Production.{project_or_env}
use otel_aws_log_processor.License.Status.{ValidationStatus, Reason, bare, reason_text}

abbrev or_unlicensed : Option ValidationStatus → ValidationStatus
or_unlicensed none = bare false Reason.unlicensed_production []
or_unlicensed (some s) = s

-- The tier and the license id
abbrev tier_and_id : Host → Option Claims → Text → Text × Text
tier_and_id h (some c) env = (get_claims_plan (some c), c.id)
tier_and_id h none env =
    if h.is_non_production env
    then (txt "non-production", txt "bsl1.1-free")
    else (txt "none", txt "unlicensed")

abbrev project_text : Host → List Text → Text
project_text h [] = project_or_env h []
project_text h (p ∷ ps) = project_or_env h p

module _ {F : Type 0} where
  abbrev with_account : Text → List (Attribute F) → List (Attribute F)
  with_account account attrs =
      if is_empty account then attrs else add_attr attrs "divmora.license.account" account

  abbrev with_project : Text → List (Attribute F) → List (Attribute F)
  with_project p attrs = if is_empty p then attrs else add_attr attrs "divmora.license.project" p

  abbrev with_limit : Option Claims → List (Attribute F) → List (Attribute F)
  with_limit none attrs = attrs
  with_limit (some c) attrs =
      if ltb_ℤ (pos 0) (get_max_resources (some c))
      then add_int_attr attrs "divmora.license.max_resources" (get_max_resources (some c))
      else attrs

  abbrev identity_attributes :
      ValidationStatus → Text × Text → Text → List (Attribute F) → List (Attribute F)
  identity_attributes s (tier, id) env attrs =
      add_attr
        (add_attr
          (add_attr (add_attr attrs "divmora.license.status" (reason_text s.status_reason))
            "divmora.license.tier" tier)
          "divmora.license.id" id)
        "divmora.license.environment" env

  unfoldable pub append_license_attributes :
      Host
      → List (Attribute F)
      → Option ValidationStatus
      → Text
      → Text
      → List Text
      → List (Attribute F)
  append_license_attributes h attrs status env account project =
      let s = or_unlicensed status in
      with_limit s.claims (
        with_project (project_text h project)
          (with_account account (identity_attributes s (tier_and_id h s.claims env) env attrs)))
