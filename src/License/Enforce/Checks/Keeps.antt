-- ===== src/License/Enforce/Checks/Keeps.antt =====
-- The checks of Enforce change a status at most by the tier features of its claims: what does not
-- read them is kept.
use otel_aws_log_processor.Prelude.{
  ◌≡◌, ◌∙◌, inl, inr, refl, Bool, true, false, List, [], ◌∷◌, Option, none, some, is_empty,
  if◌then◌else◌, Text, trim_space, Option-cases,
}
use otel_aws_log_processor.License.Claims.{Claims}
use otel_aws_log_processor.License.Error.{Error}
use otel_aws_log_processor.License.Features.{with_tier_features, default_tier_features}
use otel_aws_log_processor.License.Host.{Host}
use otel_aws_log_processor.License.Status.{ValidationStatus, assert_feature, assert_in}
use otel_aws_log_processor.License.Enforce.Checks.{
  Rejection, feature_at, feature_check, rejection_of, scope_check, scope_rest, then_resources,
  or_else, caller_check, source_check,
}

-- The status with the default tiers in its claims
abbrev pub tiered : ValidationStatus → Claims → ValidationStatus
tiered s c = record s { claims = some (with_tier_features c default_tier_features) }

module _ {A : Type 0} (g : ValidationStatus → A)
    (keeps : (s : ValidationStatus) (c : Claims) → s.claims ≡ some c → g (tiered s c) ≡ g s) where
  assert_in-keeps :
      (h : Host) (s : ValidationStatus) (c : Option Claims) (f : Text)
      → s.claims ≡ c
      → g (assert_in h s c f).0 ≡ g s
  unfolding assert_in
  assert_in-keeps h s none f p = refl
  assert_in-keeps h s (some c) f p = keeps s c p

  keeps-if :
      (b : Bool) (a : A) (r q : ValidationStatus × Option Error)
      → g r.0 ≡ a
      → g q.0 ≡ a
      → g (if b then r else q).0 ≡ a
  keeps-if true a r q p p' = p
  keeps-if false a r q p p' = p'

  assert_feature-keeps :
      (h : Host) (s : ValidationStatus) (env f : Text) → g (assert_feature h s env f).0 ≡ g s
  unfolding assert_feature
  assert_feature-keeps h s env f =
      keeps-if (h.is_non_production env) (g s) _ _ refl
        (keeps-if _ (g s) _ _ refl (assert_in-keeps h s s.claims f refl))

  rejection_of-keeps :
      (f : Text) (p : ValidationStatus × Option Error) → g (rejection_of f p).0 ≡ g p.0
  rejection_of-keeps f (s, none) = refl
  rejection_of-keeps f (s, some e) = refl

  checked-if :
      (b : Bool) (a : A) (r q : ValidationStatus × Option Rejection)
      → g r.0 ≡ a
      → g q.0 ≡ a
      → g (if b then r else q).0 ≡ a
  checked-if true a r q p p' = p
  checked-if false a r q p p' = p'

  pub feature_at-keeps :
      (h : Host) (env f : Text) (s : ValidationStatus) → g (feature_at h env f s).0 ≡ g s
  unfolding feature_at
  feature_at-keeps h env f s =
      checked-if (is_empty f) (g s) _ _ refl
        (rejection_of-keeps f (assert_feature h s env f) ∙ assert_feature-keeps h s env f)

  pub feature_check-keeps :
      (h : Host) (env : Text) (fs : List Text) (s : ValidationStatus)
      → g (feature_check h env fs s).0 ≡ g s
  unfolding feature_check
  feature_check-keeps h env [] s = refl
  feature_check-keeps h env (f ∷ fs) s = elim (Option-cases (feature_at h env (trim_space f) s).1) [
    | inl p ↦
        rw (feature_check, p)
          (feature_check-keeps h env fs (feature_at h env (trim_space f) s).0
            ∙ feature_at-keeps h env (trim_space f) s)
    | inr (r, p) ↦ rw (feature_check, p) (feature_at-keeps h env (trim_space f) s)
  ]

  then_resources-keeps :
      (h : Host) (arns : List Text) (p : ValidationStatus × Option Rejection)
      → g (then_resources h arns p).0 ≡ g p.0
  unfolding then_resources
  then_resources-keeps h arns (s, none) = refl
  then_resources-keeps h arns (s, some r) = refl

  scope_rest-keeps :
      (h : Host) (env : Text) (fs arns : List Text) (s : ValidationStatus) (r : Option Rejection)
      → g (scope_rest h env fs arns s r).0 ≡ g s
  unfolding scope_rest
  scope_rest-keeps h env fs arns s none =
      then_resources-keeps h arns (feature_check h env fs s) ∙ feature_check-keeps h env fs s
  scope_rest-keeps h env fs arns s (some r) = refl

  pub scope_check-keeps :
      (h : Host) (env caller : Text) (sources fs arns : List Text) (s : ValidationStatus)
      → g (scope_check h env caller sources fs arns s).0 ≡ g s
  unfolding scope_check
  scope_check-keeps h env caller sources fs arns s =
      scope_rest-keeps h env fs arns s
        (or_else (caller_check h s.claims caller) (source_check h s.claims sources))
