-- ===== src/License/Enforce/Licensed.antt =====
-- When a commercial license covers an execution: what Enforce promises in production, without the
-- order of its checks, its messages and its modes.
pub mod Laws
pub mod Grants
use otel_aws_log_processor.Prelude.{
  ℕ, ◌&&◌, ◌||◌, not, if◌then◌else◌, ◌≡◌, ◌∙◌, ap, sym, inl, inr, refl, Bool, true, false, ◌⊎◌,
  List, [], ◌∷◌, Option, none, some, arith, is_empty, all, Text, trim_space, Option-cases,
  Sum-cases,
}
use otel_aws_log_processor.Prelude.Int.{ℤ, pos, ltb_ℤ}
use otel_aws_log_processor.License.Claims.{Claims, get_max_resources}
use otel_aws_log_processor.License.Error.{Error}
use otel_aws_log_processor.License.Host.{Host}
use otel_aws_log_processor.License.Status.{ValidationStatus, assert_feature}
use otel_aws_log_processor.License.Token.{resolve_token}
use otel_aws_log_processor.License.Verify.{VerifyResult}
use otel_aws_log_processor.License.Enforce.Checks.{
  account_ok, resource_ok, project_ok, licensed_project,
}
use otel_aws_log_processor.License.Enforce.Commercial.{
  caller_of, verify_token, entitlement_key, registry_for,
}
use otel_aws_log_processor.License.Enforce.Context.{Context}
use otel_aws_log_processor.License.Enforce.NonProd.{tracked, active_resources, fatal, Counting}
use otel_aws_log_processor.License.Enforce.Options.{EnforcementOptions, Container, EnforceOutcome}

-- The execution goes on, as one that is authorized.
abbrev pub grants : VerifyResult → Bool
grants (none, e) = false
grants (some s, none) = s.valid
grants (some s, some e) = false

abbrev pub is_none {ℓ} : {A : Type ℓ} → Option A → Bool
is_none none = true
is_none (some a) = false

abbrev pub is_entitled : Host → Text → ValidationStatus → Text → Bool
is_entitled h env s f = is_empty (trim_space f) || is_none (assert_feature h s env (trim_space f)).1

abbrev pub within : ℕ → ℤ → Bool
within n max = not (ltb_ℤ (pos 0) max && ltb_ℤ max (pos n))

-- The registry did not fail for good, and the resources are within the limit of the license.
abbrev pub count_covers : Context → ValidationStatus → Counting → Bool
count_covers x s (c, n, err) =
    is_none (fatal x.is_strict err) && within n (get_max_resources s.claims)

-- The resources that are active, this execution's included
abbrev pub active_under :
    Host → EnforcementOptions → Context → Container → ValidationStatus → Counting
active_under h o x c s =
    active_resources h c (registry_for c s) (entitlement_key h x s) o.source_resource_arns x.time

abbrev pub covers_scope : Host → EnforcementOptions → Context → ValidationStatus → Bool
covers_scope h o x s =
    account_ok h s.claims (caller_of h o)
    && all (account_ok h s.claims) o.source_account_ids
    && all (is_entitled h x.env s) o.exercised_features
    && all (λ a. resource_ok h s.claims (trim_space a)) o.source_resource_arns

-- The license of a verified status covers the caller and every source account, feature and
-- resource, the project, and the number of active resources.
abbrev pub covers_execution :
    Host → EnforcementOptions → Context → Container → ValidationStatus → Bool
covers_execution h o x c s =
    covers_scope h o x s
    && project_ok (licensed_project s.claims) x.project
    && count_covers x s (active_under h o x (tracked c c.quota_tracker o.source_resource_arns) s)

abbrev pub covers_verified : Host → EnforcementOptions → Context → EnforceOutcome → Bool
covers_verified h o x (c, (none, e)) = false
covers_verified h o x (c, (some s, none)) = covers_execution h o x c s
covers_verified h o x (c, (some s, some e)) = false

abbrev pub covers_token : Host → EnforcementOptions → Context → Container → Error ⊎ Text → Bool
covers_token h o x c (inl e) = false
covers_token h o x c (inr t) = not (is_empty t) && covers_verified h o x (verify_token h o x c)

-- There is a token, it is verified, and its license covers the execution.
unfoldable pub is_licensed : Host → EnforcementOptions → Context → Container → Bool
is_licensed h o x c = covers_token h o x c (resolve_token h o.license_key o.license_file)
