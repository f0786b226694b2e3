-- ===== src/License/Enforce/Licensed/Laws.antt =====
-- Outside the exemption, Enforce of pkg/license/enforcer.go grants what the license covers.
use otel_aws_log_processor.Prelude.{
  ℕ, ◌&&◌, ◌||◌, if◌then◌else◌, ◌≡◌, ◌∙◌, ap, sym, inl, inr, refl, Bool, true, false, List, [], ◌∷◌,
  Option, none, some, arith, is_empty, all, Text, trim_space, Option-cases,
}
use otel_aws_log_processor.Prelude.Int.{ℤ}
use otel_aws_log_processor.License.Claims.{Claims}
use otel_aws_log_processor.License.Error.{Error}
use otel_aws_log_processor.License.Features.{is_resource_allowed, with_tier_features}
use otel_aws_log_processor.License.Host.{Host}
use otel_aws_log_processor.License.Status.{ValidationStatus, assert_feature, assert_in}
use otel_aws_log_processor.License.Enforce.Checks.{
  Rejection, account_ok, resource_ok, project_ok, licensed_project, caller_check, source_check,
  feature_at, feature_check, resource_check, project_check, scope_check, scope_rest, or_else,
  then_resources, rejection_of,
}
use otel_aws_log_processor.License.Enforce.Checks.Keeps.{
  tiered, feature_at-keeps, feature_check-keeps,
}
use otel_aws_log_processor.License.Enforce.Commercial.{scoped, quota_check, caller_of}
use otel_aws_log_processor.License.Enforce.Context.{Context}
use otel_aws_log_processor.License.Enforce.Licensed.{is_none, is_entitled, within, covers_scope}
use otel_aws_log_processor.License.Enforce.Options.{EnforcementOptions}

pub quota_check-within :
    (h : Host) (n : ℕ) (max : ℤ) (key : Text) → is_none (quota_check h n max key) ≡ within n max
unfolding quota_check
quota_check-within h n max key = ground arith

caller_check-none :
    (h : Host) (c : Option Claims) (a : Text) → is_none (caller_check h c a) ≡ account_ok h c a
unfolding caller_check
caller_check-none h c a = ground arith

source_check-all :
    (h : Host) (c : Option Claims) (sources : List Text)
    → is_none (source_check h c sources) ≡ all (account_ok h c) sources
unfolding source_check
source_check-all h c [] = refl
source_check-all h c (a ∷ sources) = ground (arith, source_check-all h c sources)

resource_check-all :
    (h : Host) (c : Option Claims) (arns : List Text)
    → is_none (resource_check h c arns) ≡ all (λ a. resource_ok h c (trim_space a)) arns
unfolding resource_check
resource_check-all h c [] = refl
resource_check-all h c (a ∷ arns) = ground (arith, resource_check-all h c arns)

pub project_check-none :
    (h : Host) (c : Option Claims) (p : Text)
    → is_none (project_check h c p) ≡ project_ok (licensed_project c) p
unfolding project_check
project_check-none h c p = ground arith

rejection_of-none :
    (f : Text) (p : ValidationStatus × Option Error) → is_none (rejection_of f p).1 ≡ is_none p.1
rejection_of-none f (s, none) = refl
rejection_of-none f (s, some e) = refl

none-if :
    (b c : Bool) (r q : ValidationStatus × Option Rejection)
    → is_none r.1 ≡ true
    → is_none q.1 ≡ c
    → is_none (if b then r else q).1 ≡ (b || c)
none-if true c r q p p' = p
none-if false c r q p p' = p'

feature_at-none :
    (h : Host) (env f : Text) (s : ValidationStatus)
    → is_none (feature_at h env (trim_space f) s).1 ≡ is_entitled h env s f
unfolding feature_at
feature_at-none h env f s =
    none-if (is_empty (trim_space f)) _ _ _ refl
      (rejection_of-none (trim_space f) (assert_feature h s env (trim_space f)))

assert_feature-tiered :
    (h : Host) (env f : Text) (s : ValidationStatus) (c : Claims)
    → s.claims ≡ some c
    → is_none (assert_feature h (tiered s c) env f).1 ≡ is_none (assert_feature h s env f).1
unfolding assert_feature assert_in
assert_feature-tiered h env f s c p = ground (arith, p)

entitled-tiered :
    (h : Host) (env : Text) (fs : List Text) (s : ValidationStatus) (c : Claims)
    → s.claims ≡ some c
    → all (is_entitled h env (tiered s c)) fs ≡ all (is_entitled h env s) fs
entitled-tiered h env [] s c p = refl
entitled-tiered h env (f ∷ fs) s c p =
    ground (arith, assert_feature-tiered h env (trim_space f) s c p, entitled-tiered h env fs s c p)

feature_check-all :
    (h : Host) (env : Text) (fs : List Text) (s : ValidationStatus)
    → is_none (feature_check h env fs s).1 ≡ all (is_entitled h env s) fs
unfolding feature_check
feature_check-all h env [] s = refl
feature_check-all h env (f ∷ fs) s = elim (Option-cases (feature_at h env (trim_space f) s).1) [
  | inl p ↦
      rw (feature_check, p)
        (feature_check-all h env fs (feature_at h env (trim_space f) s).0
          ∙ feature_at-keeps (λ k. all (is_entitled h env k) fs) (entitled-tiered h env fs) h env
              (trim_space f) s
          ∙ ap (λ b. b && all (is_entitled h env s) fs)
              (ap is_none (sym p) ∙ feature_at-none h env f s))
  | inr (r, p) ↦
      rw (feature_check, p)
        (ap (λ b. b && all (is_entitled h env s) fs)
          (ap is_none (sym p) ∙ feature_at-none h env f s))
]

resources-tiered :
    (h : Host) (arns : List Text) (s : ValidationStatus) (c : Claims)
    → s.claims ≡ some c
    → all (λ a. resource_ok h (tiered s c).claims (trim_space a)) arns
      ≡ all (λ a. resource_ok h s.claims (trim_space a)) arns
unfolding is_resource_allowed resource_ok with_tier_features
resources-tiered h arns s c p = ap (λ k. all (λ a. resource_ok h k (trim_space a)) arns) (sym p)

then_resources-none :
    (h : Host) (arns : List Text) (p : ValidationStatus × Option Rejection)
    → is_none (then_resources h arns p).1
      ≡ (is_none p.1 && all (λ a. resource_ok h p.0.claims (trim_space a)) arns)
unfolding then_resources
then_resources-none h arns (s, none) = resource_check-all h s.claims arns
then_resources-none h arns (s, some r) = refl

scope_rest-none :
    (h : Host) (env : Text) (fs arns : List Text) (s : ValidationStatus) (r : Option Rejection)
    → is_none (scope_rest h env fs arns s r).1 ≡ (
        is_none r
        && (all (is_entitled h env s) fs && all (λ a. resource_ok h s.claims (trim_space a)) arns))
unfolding scope_rest
scope_rest-none h env fs arns s none =
    rw
      (
        then_resources-none h arns (feature_check h env fs s),
        feature_check-all h env fs s,
        feature_check-keeps (λ k. all (λ a. resource_ok h k.claims (trim_space a)) arns)
            (resources-tiered h arns) h env fs s,
      )
      refl
scope_rest-none h env fs arns s (some r) = refl

or_else-none : (r q : Option Rejection) → is_none (or_else r q) ≡ (is_none r && is_none q)
or_else-none none q = refl
or_else-none (some r) q = refl

pub scoped-none :
    (h : Host) (o : EnforcementOptions) (x : Context) (s : ValidationStatus)
    → is_none (scoped h o x s).1 ≡ covers_scope h o x s
unfolding scope_check
scoped-none h o x s = ground (
  arith,
  scope_rest-none h x.env o.exercised_features o.source_resource_arns s (
      or_else (caller_check h s.claims (caller_of h o))
        (source_check h s.claims o.source_account_ids)),
  or_else-none (caller_check h s.claims (caller_of h o))
      (source_check h s.claims o.source_account_ids),
  caller_check-none h s.claims (caller_of h o),
  source_check-all h s.claims o.source_account_ids,
)
