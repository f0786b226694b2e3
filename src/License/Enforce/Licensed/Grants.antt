-- ===== src/License/Enforce/Licensed/Grants.antt =====
-- Outside the exemption, Enforce of pkg/license/enforcer.go grants what the license covers.
use otel_aws_log_processor.Prelude.{
  ◌&&◌, ◌≡◌, ◌∙◌, ap, sym, inl, inr, refl, Bool, true, false, ◌⊎◌, Option, none, some, arith, Text,
  Option-cases,
}
use otel_aws_log_processor.License.Claims.{
  Claims, get_max_resources, get_max_monthly_gb, meta, resolve_entitlement_key, claims_key,
}
use otel_aws_log_processor.License.Error.{Error}
use otel_aws_log_processor.License.Features.{with_tier_features}
use otel_aws_log_processor.License.Host.{Host}
use otel_aws_log_processor.License.Status.{ValidationStatus}
use otel_aws_log_processor.License.Token.{resolve_token}
use otel_aws_log_processor.License.Verify.Laws.{is_sound}
use otel_aws_log_processor.License.Enforce.Checks.{
  Rejection, reject, project_ok, licensed_project, project_check,
}
use otel_aws_log_processor.License.Enforce.Checks.Keeps.{tiered, scope_check-keeps}
use otel_aws_log_processor.License.Enforce.Commercial.{
  commercial, with_token, missing_token, unverified, verified, scoped, verify_token, counted,
  after_quota, after_project, after_scope, after_verification, quota_check, entitlement_key,
  registry_for, caller_of,
}
use otel_aws_log_processor.License.Enforce.Context.{
  Context, context, evaluation_time, is_converted, is_exempt,
}
use otel_aws_log_processor.License.Enforce.Ends.{throughput-valid, verify_token-is_sound}
use otel_aws_log_processor.License.Enforce.Licensed.{
  grants, is_none, count_covers, active_under, covers_execution, covers_verified, covers_token,
  is_licensed,
}
use otel_aws_log_processor.License.Enforce.Licensed.Laws.{
  quota_check-within, project_check-none, scoped-none,
}
use otel_aws_log_processor.License.Enforce.NonProd.{tracked, fatal, Counting}
use otel_aws_log_processor.License.Enforce.Options.{EnforcementOptions, Container, EnforceOutcome}
use otel_aws_log_processor.License.Enforce.Run.{enforce, enforce_in}

-- The project and the number of resources, for the claims of a status
abbrev covers_rest : Host → EnforcementOptions → Context → Container → ValidationStatus → Bool
covers_rest h o x c s =
    project_ok (licensed_project s.claims) x.project && count_covers x s (active_under h o x c s)

module _ (h : Host) (o : EnforcementOptions) (x : Context) (p : is_exempt x ≡ false) where
  reject-refuses : (s : ValidationStatus) (r : Rejection) → grants (reject x s r) ≡ false
  unfolding reject
  reject-refuses s r = ground (arith, p)

  missing_token-refuses : grants (missing_token x) ≡ false
  unfolding missing_token
  missing_token-refuses = ground arith

  after_quota-grants :
      (c : Container) (s : ValidationStatus) (r : Option Rejection)
      → s.valid ≡ true
      → grants (after_quota h x c s r).1 ≡ is_none r
  unfolding after_quota
  after_quota-grants c s none v =
      throughput-valid h o x c.quota_tracker (get_max_monthly_gb s.claims) s ∙ v
  after_quota-grants c s (some r) v = reject-refuses s r

  counted-grants :
      (s : ValidationStatus) (key : Text) (n : Counting)
      → s.valid ≡ true
      → grants (counted h x s key n).1 ≡ count_covers x s n
  unfolding counted
  counted-grants s key (c, n, err) v = elim (Option-cases (fatal x.is_strict err)) [
    | inl q ↦
        rw (counted, q)
          (after_quota-grants c s (quota_check h n (get_max_resources s.claims) key) v
            ∙ quota_check-within h n (get_max_resources s.claims) key)
    | inr (e, q) ↦ rw (counted, q) refl
  ]

  after_project-grants :
      (c : Container) (s : ValidationStatus) (r : Option Rejection)
      → s.valid ≡ true
      → grants (after_project h o x c s r).1
        ≡ (is_none r && count_covers x s (active_under h o x c s))
  unfolding after_project
  after_project-grants c s none v =
      counted-grants s (entitlement_key h x s) (active_under h o x c s) v
  after_project-grants c s (some r) v = reject-refuses s r

  after_scope-grants :
      (c : Container) (s : ValidationStatus) (r : Option Rejection)
      → s.valid ≡ true
      → grants (after_scope h o x c (s, r)).1
        ≡ (is_none r && covers_rest h o x (tracked c c.quota_tracker o.source_resource_arns) s)
  unfolding after_scope
  after_scope-grants c s none v =
      after_project-grants (tracked c c.quota_tracker o.source_resource_arns) s
        (project_check h s.claims x.project) v
      ∙ ap
          (λ b.
            b
            && count_covers x s
                (active_under h o x (tracked c c.quota_tracker o.source_resource_arns) s))
          (project_check-none h s.claims x.project)
  after_scope-grants c s (some r) v = reject-refuses s r

  rest-tiered :
      (c : Container) (s : ValidationStatus) (k : Claims)
      → s.claims ≡ some k
      → covers_rest h o x c (tiered s k) ≡ covers_rest h o x c s
  unfolding with_tier_features get_max_resources resolve_entitlement_key claims_key meta
      registry_for entitlement_key licensed_project
  rest-tiered c s k q = ap (λ j. covers_rest h o x c (record s { claims = j })) (sym q)

  scoped-rest :
      (c : Container) (s : ValidationStatus)
      → covers_rest h o x c (scoped h o x s).0 ≡ covers_rest h o x c s
  scoped-rest c s =
      scope_check-keeps (λ k. covers_rest h o x c k) (rest-tiered c) h x.env (caller_of h o)
        o.source_account_ids o.exercised_features o.source_resource_arns s

  scoped-valid : (s : ValidationStatus) → (scoped h o x s).0.valid ≡ s.valid
  scoped-valid s =
      scope_check-keeps (λ k. k.valid) (λ k c q. refl) h x.env (caller_of h o) o.source_account_ids
        o.exercised_features o.source_resource_arns s

  verified-grants :
      (c : Container) (s : ValidationStatus)
      → s.valid ≡ true
      → grants (verified h o x c s).1 ≡ covers_execution h o x c s
  unfolding verified
  verified-grants c s v =
      let c' : Container = tracked c c.quota_tracker o.source_resource_arns in
      ground (
        arith,
        after_scope-grants c (scoped h o x s).0 (scoped h o x s).1 (scoped-valid s ∙ v),
        scoped-none h o x s,
        scoped-rest c' s,
      )

  after_verification-grants :
      (v : EnforceOutcome)
      → is_sound v.1 ≡ true
      → grants (after_verification h o x v).1 ≡ covers_verified h o x v
  unfolding after_verification unverified
  after_verification-grants (c, (none, some e)) q = ground (arith, p)
  after_verification-grants (c, (some s, some e)) q = ground (arith, p, q)
  after_verification-grants (c, (none, none)) q = refl
  after_verification-grants (c, (some s, none)) q = verified-grants c s q

  with_token-grants :
      (c : Container) (t : Error ⊎ Text) → grants (with_token h o x c t).1 ≡ covers_token h o x c t
  unfolding with_token
  with_token-grants c (inl e) = ground (arith, missing_token-refuses)
  with_token-grants c (inr t) = ground (
    arith,
    missing_token-refuses,
    after_verification-grants (verify_token h o x c) (verify_token-is_sound h o x c),
  )

enforce_in-grants :
    (h : Host) (o : EnforcementOptions) (x : Context) (c : Container)
    → is_exempt x ≡ false
    → grants (enforce_in h o x c).1 ≡ is_licensed h o x c
unfolding enforce_in commercial is_licensed
enforce_in-grants h o x c p =
    ground (arith, p, with_token-grants h o x p c (resolve_token h o.license_key o.license_file))

-- Outside the non-production exemption and before the conversion to Apache 2.0, Enforce grants an
-- execution exactly if there is a token, its verification succeeds, and the license covers the
-- caller, every source account, every exercised feature, every resource, the project and the number
-- of active resources, and the registry did not end the call. It is so in every mode.
pub enforce-grants :
    (h : Host) (o : EnforcementOptions) (c : Container)
    → is_converted h (evaluation_time h o) ≡ false
    → is_exempt (context h o (evaluation_time h o)) ≡ false
    → grants (enforce h o c).1 ≡ is_licensed h o (context h o (evaluation_time h o)) c
unfolding enforce
enforce-grants h o c q p =
    ground (arith, q, enforce_in-grants h o (context h o (evaluation_time h o)) c p)
