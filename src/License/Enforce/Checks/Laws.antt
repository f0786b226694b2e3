-- ===== src/License/Enforce/Checks/Laws.antt =====
-- The rejections of Enforce are errors that IsDeterministicLicenseError finds.
use otel_aws_log_processor.Prelude.{
  ◌≡◌, sym, ap, ◌∙◌, inl, inr, refl, Bool, true, false, ◌||◌, List, [], ◌∷◌, if◌then◌else◌,
  Option-cases, Option, none, some, arith, is_empty, Text, txt, has_prefix, contains, trim_space,
}
use otel_aws_log_processor.License.Claims.{Claims}
use otel_aws_log_processor.License.Error.{Error, is_deterministic}
use otel_aws_log_processor.License.Host.{Host}
use otel_aws_log_processor.License.Status.{ValidationStatus, assert_feature}
use otel_aws_log_processor.License.Enforce.Checks.{
  Rejection, caller_check, source_check, feature_at, feature_check, resource_check, project_check,
  scope_check, scope_rest, account_ok, resource_ok, project_ok, licensed_project, or_else,
  rejection_of, then_resources,
}

contains-has_prefix : (s p : Text) → has_prefix s p ≡ true → contains s p ≡ true
unfolding contains has_prefix
contains-has_prefix [] [] h = refl
contains-has_prefix [] (c ∷ p) h = h
contains-has_prefix (c ∷ s) p h = ground (arith, h)

or_right : (a b : Bool) → b ≡ true → (a || b) ≡ true
or_right a b h = ground arith

pub commercial-is_deterministic :
    (e : Error) → has_prefix e.message (txt "COMMERCIAL LICENSE") ≡ true → is_deterministic e ≡ true
unfolding is_deterministic
commercial-is_deterministic e h =
    ground (arith, contains-has_prefix e.message (txt "COMMERCIAL LICENSE") h)

abbrev pub is_final : Option Rejection → Bool
is_final none = true
is_final (some r) = is_deterministic r.error

pub is_final-if :
    (b : Bool) (r q : Option Rejection)
    → is_final r ≡ true
    → is_final q ≡ true
    → is_final (if b then r else q) ≡ true
is_final-if true r q p p' = p
is_final-if false r q p p' = p'

module _ (h : Host) (c : Option Claims) where
  caller_check-is_final : (a : Text) → is_final (caller_check h c a) ≡ true
  unfolding caller_check txt has_prefix
  caller_check-is_final a =
      is_final-if (account_ok h c a) none _ refl (commercial-is_deterministic _ refl)

  source_check-is_final : (accounts : List Text) → is_final (source_check h c accounts) ≡ true
  unfolding source_check txt has_prefix
  source_check-is_final [] = refl
  source_check-is_final (a ∷ accounts) =
      is_final-if (account_ok h c a) _ _ (source_check-is_final accounts)
        (commercial-is_deterministic _ refl)

  resource_check-is_final : (rs : List Text) → is_final (resource_check h c rs) ≡ true
  unfolding resource_check is_deterministic
  resource_check-is_final [] = refl
  resource_check-is_final (r ∷ rs) =
      is_final-if (resource_ok h c (trim_space r)) _ _ (resource_check-is_final rs) refl

  pub project_check-is_final : (p : Text) → is_final (project_check h c p) ≡ true
  unfolding project_check is_deterministic
  project_check-is_final p = is_final-if (project_ok (licensed_project c) p) none _ refl refl

pair_final-if :
    (b : Bool) (r q : ValidationStatus × Option Rejection)
    → is_final r.1 ≡ true
    → is_final q.1 ≡ true
    → is_final (if b then r else q).1 ≡ true
pair_final-if true r q p p' = p
pair_final-if false r q p p' = p'

rejection_of-is_final :
    (f : Text) (p : ValidationStatus × Option Error) → is_final (rejection_of f p).1 ≡ true
unfolding txt has_prefix
rejection_of-is_final f (s, none) = refl
rejection_of-is_final f (s, some e) = commercial-is_deterministic _ refl

feature_at-is_final :
    (h : Host) (env f : Text) (s : ValidationStatus) → is_final (feature_at h env f s).1 ≡ true
unfolding feature_at
feature_at-is_final h env f s =
    pair_final-if (is_empty f) _ _ refl (rejection_of-is_final f (assert_feature h s env f))

feature_check-is_final :
    (h : Host) (env : Text) (fs : List Text) (s : ValidationStatus)
    → is_final (feature_check h env fs s).1 ≡ true
unfolding feature_check
feature_check-is_final h env [] s = refl
feature_check-is_final h env (f ∷ fs) s =
    elim (Option-cases (feature_at h env (trim_space f) s).1) [
      | inl p ↦
          rw (feature_check, p)
            (feature_check-is_final h env fs (feature_at h env (trim_space f) s).0)
      | inr (r, p) ↦
          rw (feature_check, p) (sym (ap is_final p) ∙ feature_at-is_final h env (trim_space f) s)
    ]

then_resources-is_final :
    (h : Host) (arns : List Text) (p : ValidationStatus × Option Rejection)
    → is_final p.1 ≡ true
    → is_final (then_resources h arns p).1 ≡ true
unfolding then_resources
then_resources-is_final h arns (s, none) q = resource_check-is_final h s.claims arns
then_resources-is_final h arns (s, some r) q = q

or_else-is_final :
    (r q : Option Rejection) → is_final r ≡ true → is_final q ≡ true → is_final (or_else r q) ≡ true
or_else-is_final none q p p' = p'
or_else-is_final (some r) q p p' = p

scope_rest-is_final :
    (h : Host) (env : Text) (fs arns : List Text) (s : ValidationStatus) (r : Option Rejection)
    → is_final r ≡ true
    → is_final (scope_rest h env fs arns s r).1 ≡ true
unfolding scope_rest
scope_rest-is_final h env fs arns s none p =
    then_resources-is_final h arns _ (feature_check-is_final h env fs s)
scope_rest-is_final h env fs arns s (some r) p = p

-- A rejection of an account, a feature or a resource is an error that is not retried.
pub scope_check-is_final :
    (h : Host) (env caller : Text) (sources fs arns : List Text) (s : ValidationStatus)
    → is_final (scope_check h env caller sources fs arns s).1 ≡ true
unfolding scope_check
scope_check-is_final h env caller sources fs arns s = scope_rest-is_final h env fs arns s _ (
    or_else-is_final _ _ (caller_check-is_final h s.claims caller)
      (source_check-is_final h s.claims sources))
