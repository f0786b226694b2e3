-- ===== src/License/Features.antt =====
-- The feature and scope entitlements of Claims in pkg/license/model.go. A non-empty scope is
-- matched by the external license library, whose two matchers are parameters.
use otel_aws_log_processor.Prelude.{
  ℕ, Bool, true, false, ◌&&◌, ◌||◌, List, [], ◌∷◌, ◌++◌, Option, none, some, any, is_empty,
  if◌then◌else◌, Text, txt, text_eq, to_lower, trim_space, ◌==◌,
}
use otel_aws_log_processor.Prelude.Assoc.{lookup}
use otel_aws_log_processor.Prelude.Glob.{path_match}
use otel_aws_log_processor.License.Claims.{Claims, LicenseScope}
use otel_aws_log_processor.License.Error.{Error, feature_not_entitled}

-- strings.ToLower(strings.TrimSpace(s))
abbrev pub normal : Text → Text
normal s = to_lower (trim_space s)

abbrev is_wildcard : ℕ → Bool
is_wildcard c = c == b'*' || c == b'?' || c == b'['

-- One entry of a list of features, in lower case, against a target
unfoldable pub covers : Text → Text → Bool
unfolding txt
covers f target =
    text_eq f (txt "*")
    || text_eq f (txt "all")
    || text_eq f target
    || (any is_wildcard f && path_match f target)

unfoldable pub has_feature_in_list : Text → List Text → Bool
unfolding covers
has_feature_in_list target [] = false
has_feature_in_list target (f ∷ fs) = covers (normal f) target || has_feature_in_list target fs

abbrev pub tier_list : Option (List Text) → List Text
tier_list none = []
tier_list (some fs) = fs

abbrev pub plan_or_community : Text → Text
plan_or_community p = if is_empty p then txt "community" else p

unfoldable pub has_feature_with_tiers : Claims → Text → List (Text × List Text) → Bool
unfolding has_feature_in_list lookup
has_feature_with_tiers c feature tiers =
    has_feature_in_list (normal feature) c.features
    || has_feature_in_list (normal feature)
        (tier_list (lookup (plan_or_community (normal c.plan)) tiers))

unfoldable pub has_feature : Option Claims → Text → Bool
unfolding has_feature_with_tiers has_feature_in_list
has_feature none feature = false
has_feature (some c) feature =
    if is_empty c.tier_features
    then has_feature_in_list (normal feature) c.features
    else has_feature_with_tiers c (normal feature) c.tier_features

-- Claims.AssertFeature. The text of the library's ErrFeatureNotEntitled is a parameter.
unfoldable pub assert_claimed : Text → Option Claims → Text → Option Error
unfolding has_feature
assert_claimed format c feature =
    if has_feature c feature
    then none
    else some (record {
      sentinels = feature_not_entitled ∷ [];
      message = format ++ (txt ": " ++ feature);
    })

abbrev pub community_features : List Text
community_features =
    txt "runtime.non_prod"
    ∷ txt "parser.alb"
    ∷ txt "parser.nlb"
    ∷ txt "parser.cloudfront.gzip"
    ∷ txt "parser.waf"
    ∷ txt "sender.otlp_http"
    ∷ txt "security.secrets_manager"
    ∷ txt "metrics.emf"
    ∷ []

abbrev pub pro_features : List Text
pro_features =
    txt "parser.alb"
    ∷ txt "parser.nlb"
    ∷ txt "parser.cloudfront.gzip"
    ∷ txt "parser.waf"
    ∷ txt "sender.otlp_http"
    ∷ txt "security.secrets_manager"
    ∷ txt "metrics.emf"
    ∷ []

unfoldable pub default_tier_features : List (Text × List Text)
default_tier_features =
    (txt "community", community_features)
    ∷ (txt "pro", pro_features)
    ∷ (txt "enterprise", txt "*" ∷ [])
    ∷ []

unfoldable pub with_tier_features : Claims → List (Text × List Text) → Claims
with_tier_features c tiers = record c { tier_features = tiers }

abbrev pub scope_of : Option Claims → Option LicenseScope
scope_of none = none
scope_of (some c) = c.scope

unfoldable pub get_allowed_accounts : Option Claims → List Text
get_allowed_accounts c = elim (scope_of c) [ none ↦ [] | some s ↦ s.accounts ]

unfoldable pub get_resources : Option Claims → List Text
get_resources c = elim (scope_of c) [ none ↦ [] | some s ↦ s.resources ]

-- `allowed` is the library's LicenseScope.IsAccountAllowed.
unfoldable pub is_account_allowed : (LicenseScope → Text → Bool) → Option Claims → Text → Bool
is_account_allowed allowed c account = elim (scope_of c) [
  | none ↦ true
  | some s ↦ if is_empty s.accounts then true else allowed s account
]

-- `allowed` is the library's LicenseScope.IsResourceAllowed.
unfoldable pub is_resource_allowed : (LicenseScope → Text → Bool) → Option Claims → Text → Bool
is_resource_allowed allowed c arn = elim (scope_of c) [
  | none ↦ true
  | some s ↦ if is_empty s.resources then true else allowed s arn
]
