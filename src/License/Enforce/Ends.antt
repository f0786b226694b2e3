-- ===== src/License/Enforce/Ends.antt =====
-- How a call of Enforce in pkg/license/enforcer.go can end
use otel_aws_log_processor.Prelude.{
  ℕ, ◌&&◌, ◌||◌, not, if◌then◌else◌, ◌≡◌, ◌∙◌, inl, inr, refl, Bool, true, false, ◌⊎◌, Option, none,
  some, arith, is_empty, Text, Option-cases,
}
use otel_aws_log_processor.Prelude.Int.{ℤ, pos, ltb_ℤ}
use otel_aws_log_processor.License.Claims.{get_max_resources, get_max_monthly_gb}
use otel_aws_log_processor.License.Quota.{QuotaTracker}
use otel_aws_log_processor.License.Verify.Laws.{
  is_sound, parse_and_verify_at-is_sound, parse_and_verify_with_crl-is_sound,
  parse_and_verify_with_crl_url-is_sound,
}
use otel_aws_log_processor.License.Enforce.Checks.Laws.{
  is_final, is_final-if, scope_check-is_final, project_check-is_final,
}
use otel_aws_log_processor.License.Enforce.Checks.Keeps.{scope_check-keeps}
use otel_aws_log_processor.License.Error.{Error, is_deterministic}
use otel_aws_log_processor.License.Host.{Host}
use otel_aws_log_processor.License.Status.{ValidationStatus}
use otel_aws_log_processor.License.Token.{resolve_token}
use otel_aws_log_processor.License.Verify.{
  VerifyResult, fails, parse_and_verify_at, parse_and_verify_with_crl,
  parse_and_verify_with_crl_url,
}
use otel_aws_log_processor.License.Enforce.Checks.{Rejection, reject}
use otel_aws_log_processor.License.Enforce.Commercial.{
  commercial, with_token, missing_token, unverified, verified, scoped, verify_token, counted,
  after_quota, after_project, after_scope, after_verification, quota_check, caller_of, throughput,
  over_throughput, with_validator,
}
use otel_aws_log_processor.License.Enforce.Context.{Context, is_exempt}
use otel_aws_log_processor.License.Enforce.NonProd.{
  non_prod, non_prod_counting, fair_of, non_prod_counted, non_prod_result, suspected, fatal,
  tracked, Counting,
}
use otel_aws_log_processor.License.Enforce.Options.{EnforcementOptions, Container, EnforceOutcome}
use otel_aws_log_processor.License.Enforce.Run.{enforce_in, exempt}

module _ (h : Host) (o : EnforcementOptions) (x : Context) where
  pub data Ends : VerifyResult → Type 0 where
    is_suspected : (why : Text) → Ends (suspected h x why)
    is_non_prod : (why : Option Text) → Ends (non_prod_result h x why)
    is_registry_error :
        (s : ValidationStatus) (e : Error)
        → x.is_strict ≡ true
        → is_deterministic e ≡ true
        → Ends (some s, some e)
    is_token_error :
        (e : Error)
        → x.is_strict ≡ true
        → resolve_token h o.license_key o.license_file ≡ inl e
        → Ends (fails e)
    is_missing : Ends (missing_token x)
    is_unverified : (s : Option ValidationStatus) (e : Error) → Ends (unverified x s e)
    is_rejected :
        (s : ValidationStatus) (r : Rejection)
        → is_deterministic r.error ≡ true
        → Ends (reject x s r)
    is_granted : (s : ValidationStatus) → s.valid ≡ true → Ends (some s, none)

  fatal-strict :
      (e : Option Error) (e' : Error)
      → fatal x.is_strict e ≡ some e'
      → (x.is_strict ≡ true) × (is_deterministic e' ≡ true)
  fatal-strict none e' p = ground (arith, p)
  fatal-strict (some e) e' p = ground (arith, p)

  fatal-Ends :
      (s : ValidationStatus) (f : Option Error) (e : Error)
      → fatal x.is_strict f ≡ some e
      → Ends (some s, some e)
  fatal-Ends s f e p = let (q, d) = fatal-strict f e p in is_registry_error s e q d

  pub throughput-valid :
      (q : Option QuotaTracker) (gb : ℤ) (s : ValidationStatus)
      → (throughput h q x.time gb s).1.valid ≡ s.valid
  unfolding throughput over_throughput
  throughput-valid none gb s = refl
  throughput-valid (some q) gb s = ground arith

  after_quota-Ends :
      (c : Container) (s : ValidationStatus) (r : Option Rejection)
      → s.valid ≡ true
      → is_final r ≡ true
      → Ends (after_quota h x c s r).1
  unfolding after_quota
  after_quota-Ends c s none v f =
      is_granted _ (throughput-valid c.quota_tracker (get_max_monthly_gb s.claims) s ∙ v)
  after_quota-Ends c s (some r) v f = is_rejected s r f

  quota_check-is_final : (n : ℕ) (max : ℤ) (key : Text) → is_final (quota_check h n max key) ≡ true
  unfolding quota_check is_deterministic
  quota_check-is_final n max key =
      is_final-if (ltb_ℤ (pos 0) max && ltb_ℤ max (pos n)) _ none refl refl

  counted-Ends :
      (s : ValidationStatus) (key : Text) (n : Counting)
      → s.valid ≡ true
      → Ends (counted h x s key n).1
  unfolding counted
  counted-Ends s key (c, n, err) v = elim (Option-cases (fatal x.is_strict err)) [
    | inl p ↦
        rw (counted, p)
          (after_quota-Ends c s (quota_check h n (get_max_resources s.claims) key) v
            (quota_check-is_final n (get_max_resources s.claims) key))
    | inr (e, p) ↦ rw (counted, p) (fatal-Ends s err e p)
  ]

  after_project-Ends :
      (c : Container) (s : ValidationStatus) (r : Option Rejection)
      → s.valid ≡ true
      → is_final r ≡ true
      → Ends (after_project h o x c s r).1
  unfolding after_project
  after_project-Ends c s none v f = counted-Ends s _ _ v
  after_project-Ends c s (some r) v f = is_rejected s r f

  after_scope-Ends :
      (c : Container) (p : ValidationStatus × Option Rejection)
      → p.0.valid ≡ true
      → is_final p.1 ≡ true
      → Ends (after_scope h o x c p).1
  unfolding after_scope
  after_scope-Ends c (s, none) v f =
      after_project-Ends _ s _ v (project_check-is_final h s.claims x.project)
  after_scope-Ends c (s, some r) v f = is_rejected s r f

  after_verification-Ends :
      (v : EnforceOutcome) → is_sound v.1 ≡ true → Ends (after_verification h o x v).1
  unfolding after_verification verified
  after_verification-Ends (c, (s, some e)) p = is_unverified s e
  after_verification-Ends (c, (none, none)) p = ground (arith, p)
  after_verification-Ends (c, (some s, none)) p =
      after_scope-Ends c (scoped h o x s)
        (scope_check-keeps (λ s. s.valid) (λ s c p. refl) h x.env (caller_of h o)
            o.source_account_ids o.exercised_features o.source_resource_arns s
          ∙ p)
        (scope_check-is_final h x.env (caller_of h o) o.source_account_ids o.exercised_features
          o.source_resource_arns s)

  sound-if :
      (b : Bool) (r q : EnforceOutcome)
      → is_sound r.1 ≡ true
      → is_sound q.1 ≡ true
      → is_sound (if b then r else q).1 ≡ true
  sound-if true r q p p' = p
  sound-if false r q p p' = p'

  abbrev with_crl : Container → VerifyResult
  with_crl c =
      parse_and_verify_with_crl h c.crl_override x.token o.public_key x.time
        (if is_empty o.crl then o.crl_file else o.crl)

  abbrev with_url : Container → VerifyResult
  with_url c = parse_and_verify_with_crl_url h c.crl_override x.token o.public_key x.time o.crl_url

  abbrev by_default : Container → EnforceOutcome
  by_default c =
      with_validator c
        (parse_and_verify_at h c.crl_override c.default_validator x.token o.public_key x.time)

  pub verify_token-is_sound : (c : Container) → is_sound (verify_token h o x c).1 ≡ true
  unfolding verify_token
  verify_token-is_sound c =
      sound-if (not (is_empty o.crl) || not (is_empty o.crl_file)) (c, with_crl c)
        (if not (is_empty o.crl_url) then (c, with_url c) else by_default c)
        (parse_and_verify_with_crl-is_sound h c.crl_override x.token o.public_key x.time
          (if is_empty o.crl then o.crl_file else o.crl))
        (sound-if (not (is_empty o.crl_url)) (c, with_url c) (by_default c)
          (parse_and_verify_with_crl_url-is_sound h c.crl_override x.token o.public_key x.time
            o.crl_url)
          (parse_and_verify_at-is_sound h c.crl_override c.default_validator x.token o.public_key
            x.time))

  Ends-if : (b : Bool) (r q : EnforceOutcome) → Ends r.1 → Ends q.1 → Ends (if b then r else q).1
  Ends-if true r q p p' = p
  Ends-if false r q p p' = p'

  Ends-choice :
      (b : Bool) (r q : VerifyResult) → (b ≡ true → Ends r) → Ends q → Ends (if b then r else q)
  Ends-choice true r q p p' = p refl
  Ends-choice false r q p p' = p'

  with_token-Ends :
      (c : Container) (t : Error ⊎ Text)
      → resolve_token h o.license_key o.license_file ≡ t
      → Ends (with_token h o x c t).1
  unfolding with_token
  with_token-Ends c (inl e) p =
      Ends-choice x.is_strict (fails e) (missing_token x) (λ q. is_token_error e q p) is_missing
  with_token-Ends c (inr t) p =
      Ends-if (is_empty t) _ _ is_missing
        (after_verification-Ends (verify_token h o x c) (verify_token-is_sound c))

  non_prod_counted-Ends : (why : Option Text) (n : Counting) → Ends (non_prod_counted h x why n).1
  unfolding non_prod_counted
  non_prod_counted-Ends why (c, n, err) = elim (Option-cases (fatal x.is_strict err)) [
    | inl p ↦ rw (non_prod_counted, p) (is_non_prod _)
    | inr (e, p) ↦ rw (non_prod_counted, p) (fatal-Ends _ err e p)
  ]

  exempt-Ends : (c : Container) (i : Option Text) → Ends (exempt h o x c i).1
  unfolding exempt non_prod
  exempt-Ends c none =
      non_prod_counted-Ends (fair_of o c).1
        (non_prod_counting h o x (tracked c (fair_of o c).0 o.source_resource_arns))
  exempt-Ends c (some why) = is_suspected why

  pub enforce_in-Ends : (c : Container) → Ends (enforce_in h o x c).1
  unfolding enforce_in commercial
  enforce_in-Ends c =
      Ends-if (is_exempt x && is_empty x.token) _ _ (exempt-Ends c x.indicator)
        (with_token-Ends c _ refl)
