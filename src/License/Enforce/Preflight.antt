-- ===== src/License/Enforce/Preflight.antt =====
-- What PreflightEnforce of pkg/license/enforcer.go leaves as it is
use otel_aws_log_processor.Prelude.{
  ◌≡◌, ◌∙◌, ap, inl, inr, refl, ◌⊎◌, List, [], Option, none, some, arith, Text, Option-cases,
}
use otel_aws_log_processor.Prelude.Int.{ℤ}
use otel_aws_log_processor.License.Claims.{get_max_monthly_gb}
use otel_aws_log_processor.License.Error.{Error}
use otel_aws_log_processor.License.Host.{Host}
use otel_aws_log_processor.License.Quota.{
  Time, QuotaTracker, log_fair_use_warning_at, should_emit_fair_use_warning_at,
}
use otel_aws_log_processor.License.Registry.Types.{CloudWatchRegistry}
use otel_aws_log_processor.License.Resources.{ResourceTracker, track_all}
use otel_aws_log_processor.License.Status.{ValidationStatus}
use otel_aws_log_processor.License.Token.{resolve_token}
use otel_aws_log_processor.License.Enforce.Checks.{Rejection, project_check}
use otel_aws_log_processor.License.Enforce.Commercial.{
  commercial, with_token, verified, scoped, verify_token, counted, after_quota, after_project,
  after_scope, after_verification, registry_for, entitlement_key, throughput, over_throughput,
}
use otel_aws_log_processor.License.Enforce.Context.{Context, context, evaluation_time}
use otel_aws_log_processor.License.Enforce.NonProd.{
  non_prod, non_prod_counting, non_prod_counted, fair_of, fair_use, track_sources, tracked,
  active_resources, free_key, fatal, Counting,
}
use otel_aws_log_processor.License.Enforce.Options.{EnforcementOptions, Container, EnforceOutcome}
use otel_aws_log_processor.License.Enforce.Run.{
  enforce, enforce_in, exempt, preflight_enforce, preflight_options,
}

abbrev records_of : Option QuotaTracker → Option ℤ
records_of none = none
records_of (some q) = some q.container_records

-- The tracked resources, and the records counted for the container
abbrev pub Memory : Type 0
Memory = Option ResourceTracker × Option ℤ

abbrev pub memory : Container → Memory
memory c = (c.resource_tracker, records_of c.quota_tracker)

track_sources-none : (rt : Option ResourceTracker) → track_sources rt [] ≡ rt
unfolding track_sources track_all
track_sources-none none = refl
track_sources-none (some rt) = refl

fair_use-none : (q : Option QuotaTracker) → fair_use q 0 ≡ (q, none)
unfolding fair_use
fair_use-none none = refl
fair_use-none (some q) = refl

log-records :
    (q : QuotaTracker) (t : Time)
    → (log_fair_use_warning_at q t).0.container_records ≡ q.container_records
unfolding log_fair_use_warning_at should_emit_fair_use_warning_at
log-records q t = ground arith

throughput-records :
    (h : Host) (q : Option QuotaTracker) (t : Time) (gb : ℤ) (s : ValidationStatus)
    → records_of (throughput h q t gb s).0 ≡ records_of q
unfolding throughput over_throughput
throughput-records h none t gb s = refl
throughput-records h (some q) t gb s = ground (arith, log-records q t)

module _ (h : Host) (o : EnforcementOptions) (x : Context) where
  after_quota-memory :
      (c : Container) (s : ValidationStatus) (r : Option Rejection)
      → memory (after_quota h x c s r).0 ≡ memory c
  unfolding after_quota
  after_quota-memory c s none =
      ap (λ r. (c.resource_tracker, r))
        (throughput-records h c.quota_tracker x.time (get_max_monthly_gb s.claims) s)
  after_quota-memory c s (some r) = refl

  counted-memory :
      (s : ValidationStatus) (key : Text) (n : Counting)
      → memory (counted h x s key n).0 ≡ memory n.0
  unfolding counted
  counted-memory s key (c, n, err) = elim (Option-cases (fatal x.is_strict err)) [
    | inl p ↦ rw (counted, p) (after_quota-memory c s _)
    | inr (e, p) ↦ rw (counted, p) refl
  ]

  counting-memory :
      (c : Container) (r : Option CloudWatchRegistry) (key : Text) (arns : List Text) (t : Time)
      → memory (active_resources h c r key arns t).0 ≡ memory c
  unfolding active_resources
  counting-memory c none key arns t = refl
  counting-memory c (some r) key arns t = refl

  after_project-memory :
      (c : Container) (s : ValidationStatus) (r : Option Rejection)
      → memory (after_project h o x c s r).0 ≡ memory c
  unfolding after_project
  after_project-memory c s none =
      counted-memory s (entitlement_key h x s) (
        active_resources h c (registry_for c s) (entitlement_key h x s) o.source_resource_arns
          x.time)
      ∙ counting-memory c (registry_for c s) (entitlement_key h x s) o.source_resource_arns x.time
  after_project-memory c s (some r) = refl

  tracked-memory :
      (c : Container) (arns : List Text)
      → arns ≡ []
      → memory (tracked c c.quota_tracker arns) ≡ memory c
  tracked-memory c arns p =
      ap (λ r. (r, records_of c.quota_tracker))
        (ap (track_sources c.resource_tracker) p ∙ track_sources-none c.resource_tracker)

  after_scope-memory :
      (c : Container) (p : ValidationStatus × Option Rejection)
      → o.source_resource_arns ≡ []
      → memory (after_scope h o x c p).0 ≡ memory c
  unfolding after_scope
  after_scope-memory c (s, none) e =
      after_project-memory (tracked c c.quota_tracker o.source_resource_arns) s
        (project_check h s.claims x.project)
      ∙ tracked-memory c o.source_resource_arns e
  after_scope-memory c (s, some r) e = refl

  after_verification-memory :
      (v : EnforceOutcome)
      → o.source_resource_arns ≡ []
      → memory (after_verification h o x v).0 ≡ memory v.0
  unfolding after_verification verified
  after_verification-memory (c, (s, some e)) p = refl
  after_verification-memory (c, (none, none)) p = refl
  after_verification-memory (c, (some s, none)) p = after_scope-memory c (scoped h o x s) p

  with_token-memory :
      (c : Container) (t : Error ⊎ Text)
      → o.source_resource_arns ≡ []
      → memory (with_token h o x c t).0 ≡ memory c
  unfolding with_token verify_token
  with_token-memory c (inl e) p = refl
  with_token-memory c (inr t) p = ground (arith, after_verification-memory (verify_token h o x c) p)

  non_prod_counted-memory :
      (why : Option Text) (n : Counting) → memory (non_prod_counted h x why n).0 ≡ memory n.0
  unfolding non_prod_counted
  non_prod_counted-memory why (c, n, err) = elim (Option-cases (fatal x.is_strict err)) [
    | inl p ↦ rw (non_prod_counted, p) refl
    | inr (e, p) ↦ rw (non_prod_counted, p) refl
  ]

  fair_of-none : (c : Container) → o.batch_record_count ≡ 0 → (fair_of o c).0 ≡ c.quota_tracker
  fair_of-none c p =
      ap (λ n. (fair_use c.quota_tracker n).0) p ∙ ap (λ r. r.0) (fair_use-none c.quota_tracker)

  non_prod-memory :
      (c : Container)
      → o.source_resource_arns ≡ []
      → o.batch_record_count ≡ 0
      → memory (non_prod h o x c).0 ≡ memory c
  unfolding non_prod
  non_prod-memory c p e =
      let c' : Container = tracked c (fair_of o c).0 o.source_resource_arns in
      non_prod_counted-memory (fair_of o c).1 (non_prod_counting h o x c')
      ∙ counting-memory c' c'.cloudwatch_registry (free_key h x) o.source_resource_arns x.time
      ∙ ap (λ q. (track_sources c.resource_tracker o.source_resource_arns, records_of q))
          (fair_of-none c e)
      ∙ tracked-memory c o.source_resource_arns p

  exempt-memory :
      (c : Container) (i : Option Text)
      → o.source_resource_arns ≡ []
      → o.batch_record_count ≡ 0
      → memory (exempt h o x c i).0 ≡ memory c
  unfolding exempt
  exempt-memory c none p e = non_prod-memory c p e
  exempt-memory c (some why) p e = refl

  enforce_in-memory :
      (c : Container)
      → o.source_resource_arns ≡ []
      → o.batch_record_count ≡ 0
      → memory (enforce_in h o x c).0 ≡ memory c
  unfolding enforce_in commercial
  enforce_in-memory c p e = ground (
    arith,
    exempt-memory c x.indicator p e,
    with_token-memory c (resolve_token h o.license_key o.license_file) p,
  )

enforce-memory :
    (h : Host) (o : EnforcementOptions) (c : Container)
    → o.source_resource_arns ≡ []
    → o.batch_record_count ≡ 0
    → memory (enforce h o c).0 ≡ memory c
unfolding enforce
enforce-memory h o c p e =
    ground (arith, enforce_in-memory h o (context h o (evaluation_time h o)) c p e)

-- The preflight check leaves no trace in what is counted: the tracked resources, the records of the
-- container and the distributed registry are the same afterwards, whatever it decides.
pub preflight_enforce-memory :
    (h : Host) (o : EnforcementOptions) (c : Container)
    → (memory (preflight_enforce h o c).0 ≡ memory c)
      × ((preflight_enforce h o c).0.cloudwatch_registry ≡ c.cloudwatch_registry)
unfolding preflight_enforce
preflight_enforce-memory h o c = (
  enforce-memory h (preflight_options o) (record c { cloudwatch_registry = none }) refl refl,
  refl,
)
