-- ===== src/License/Validator.antt =====
-- The validators of pkg/license/verifier.go. The default validator is package state, which is made
-- at the first use after a reset; a failure leaves it unset.
use otel_aws_log_processor.Prelude.{
  ◌*◌, true, false, ◌||◌, List, [], ◌∷◌, ◌++◌, Option, none, some, ◌⊎◌, inl, inr, if◌then◌else◌,
  is_empty, Text, txt, text_eq, trim_space, has_prefix, contains,
}
use otel_aws_log_processor.License.Crl.{resolve_offline_crl}
use otel_aws_log_processor.License.Error.{Error, wrap}
use otel_aws_log_processor.License.Host.{
  Host, Validator, ValidatorOption, with_product, with_expected_fingerprint, with_current_version,
  with_additional_public_key, with_revocation_list, with_revocation_list_file,
  with_allow_env_key_override, with_auto_fingerprint, with_auto_resolved_revocation_list,
  with_max_clock_drift, with_build_date, with_crl_url, ResolvedCrl,
}
use otel_aws_log_processor.License.Quota.{Time, second}
use otel_aws_log_processor.Version.Info.{get, release_time}
use otel_aws_log_processor.Version.Provenance.{get_release_verification_public_key}

abbrev release_key_options : Error ⊎ Text → List ValidatorOption
release_key_options (inl e) = []
release_key_options (inr k) = if is_empty k then [] else with_additional_public_key k ∷ []

abbrev fingerprint_option : Text → ValidatorOption
fingerprint_option fp =
    if is_empty fp then with_auto_fingerprint true else with_expected_fingerprint fp

abbrev version_options : Text → List ValidatorOption
version_options v = if is_empty v || text_eq v (txt "dev") then [] else with_current_version v ∷ []

abbrev build_date_options : Option Time → List ValidatorOption
build_date_options none = []
build_date_options (some t) = with_build_date t ∷ []

abbrev cache_path : Host → Text
cache_path h =
    if is_empty (trim_space (h.env "DIVMORA_CRL_CACHE_FILE"))
    then h.build.join_path h.temp_dir (txt "divmora-crl.cache")
    else trim_space (h.env "DIVMORA_CRL_CACHE_FILE")

abbrev online_option : Host → Text → ValidatorOption
online_option h url =
    if is_empty url
    then with_auto_resolved_revocation_list false
    else with_crl_url url (cache_path h) (5 * second)

-- The offline list if there is one that is not blank
abbrev crl_option : Host → Error ⊎ ResolvedCrl → ValidatorOption
crl_option h (inl e) = online_option h (trim_space (h.env "DIVMORA_CRL_URL"))
crl_option h (inr c) =
    if is_empty (trim_space c.content)
    then online_option h (trim_space (h.env "DIVMORA_CRL_URL"))
    else with_revocation_list c.content

unfoldable pub default_validator_options : Host → Text → List ValidatorOption
unfolding get release_time get_release_verification_public_key resolve_offline_crl
default_validator_options h crl_override =
    (with_product (txt "otel-aws-log-processor")
      ∷ with_allow_env_key_override false
      ∷ with_max_clock_drift (900 * second)
      ∷ [])
    ++ (release_key_options (get_release_verification_public_key h.build)
        ++ (fingerprint_option (trim_space (h.env "DIVMORA_FINGERPRINT"))
            ∷ (version_options (get h.build).version
                ++ (build_date_options (release_time h.build (get h.build))
                    ++ crl_option h (resolve_offline_crl h crl_override []) ∷ []))))

abbrev pub default_public_key : Text
default_public_key = txt "o5nIs/8K/bCGz6jRB33Ig1h0ONr37yvVHpddzNnL46U="

abbrev pub stored : Error ⊎ Validator → Option Validator × (Error ⊎ Validator)
stored (inl e) = (none, inl (wrap (txt "failed to initialize license validator") e))
stored (inr v) = (some v, inr v)

-- InitDefaultValidator where no validator is stored yet
unfoldable pub init_default_validator : Host → Text → Option Validator × (Error ⊎ Validator)
unfolding default_validator_options
init_default_validator h crl_override = stored (
    h.new_validator_with_fallback_key default_public_key (default_validator_options h crl_override))

unfoldable pub get_default_validator :
    Host → Text → Option Validator → Option Validator × (Error ⊎ Validator)
unfolding init_default_validator
get_default_validator h crl_override (some v) = (some v, inr v)
get_default_validator h crl_override none = init_default_validator h crl_override

unfoldable pub get_validator :
    Host → Text → Option Validator → Text → Option Validator × (Error ⊎ Validator)
unfolding get_default_validator default_validator_options
get_validator h crl_override v key =
    if is_empty key
    then get_default_validator h crl_override v
    else (v, h.new_validator key (default_validator_options h crl_override))

-- An inline list, or else a file
abbrev pub crl_source_options : Host → Text → List ValidatorOption
crl_source_options h src =
    if is_empty src
    then []
    else if has_prefix src (h.crl_prefix ++ txt ".") || contains src h.crl_pem_type
    then with_revocation_list src ∷ []
    else with_revocation_list_file src ∷ []

abbrev pub made : Host → Text → List ValidatorOption → Error ⊎ Validator
made h key options =
    if is_empty key
    then h.new_validator_with_fallback_key default_public_key options
    else h.new_validator key options
