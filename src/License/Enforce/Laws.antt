-- ===== src/License/Enforce/Laws.antt =====
-- What the enforcement mode decides in Enforce of pkg/license/enforcer.go
use otel_aws_log_processor.Prelude.{
  ◌<◌, ◌≡◌, inl, inr, refl, Bool, true, false, if◌then◌else◌, Option, none, some, arith, Text, txt,
  contains, has_prefix, Bool-cases,
}
use otel_aws_log_processor.License.Error.{Error, Sentinel, is_deterministic, wrap, plain}
use otel_aws_log_processor.License.Host.{Host}
use otel_aws_log_processor.License.Quota.{Time}
use otel_aws_log_processor.Version.Host.{change_period_years}
use otel_aws_log_processor.Version.Info.{get, release_time, is_apache_converted, change_date}
use otel_aws_log_processor.License.Status.{ValidationStatus}
use otel_aws_log_processor.License.Token.{resolve_token}
use otel_aws_log_processor.License.Verify.{VerifyResult}
use otel_aws_log_processor.License.Enforce.Checks.{reject}
use otel_aws_log_processor.License.Enforce.Commercial.{missing_token, missing_message, unverified}
use otel_aws_log_processor.License.Enforce.Context.{Context, context, evaluation_time, is_converted}
use otel_aws_log_processor.License.Enforce.Ends.{
  Ends, is_suspected, is_non_prod, is_registry_error, is_token_error, is_missing, is_unverified,
  is_rejected, is_granted, enforce_in-Ends,
}
use otel_aws_log_processor.License.Enforce.NonProd.{wrap_sentinel, suspected, non_prod_result}
use otel_aws_log_processor.License.Enforce.Options.{EnforcementOptions, Container}
use otel_aws_log_processor.License.Enforce.Run.{enforce, converted_status}

Ends-no_error :
    (h : Host) (o : EnforcementOptions) (x : Context) (r : VerifyResult)
    → Ends h o x r
    → x.is_strict ≡ false
    → r.1 ≡ none
unfolding suspected non_prod_result missing_token unverified reject
Ends-no_error h o x _ (is_suspected why) p = ground (arith, p)
Ends-no_error h o x _ (is_non_prod none) p = refl
Ends-no_error h o x _ (is_non_prod (some why)) p = ground (arith, p)
Ends-no_error h o x _ (is_registry_error s e q d) p = ground (arith, p, q)
Ends-no_error h o x _ (is_token_error e q t) p = ground (arith, p, q)
Ends-no_error h o x _ is_missing p = ground (arith, p)
Ends-no_error h o x _ (is_unverified s e) p = ground (arith, p)
Ends-no_error h o x _ (is_rejected s r d) p = ground (arith, p)
Ends-no_error h o x _ (is_granted s v) p = refl

-- Outside strict mode Enforce returns no error, whatever the license, the trackers, CloudWatch and
-- the external library say: a license problem does not stop the processing of logs there.
pub enforce-no_error :
    (h : Host) (o : EnforcementOptions) (c : Container)
    → (context h o (evaluation_time h o)).is_strict ≡ false
    → (enforce h o c).1.1 ≡ none
unfolding enforce
enforce-no_error h o c lax = ground (
  arith,
  Ends-no_error h o (context h o (evaluation_time h o)) _
      (enforce_in-Ends h o (context h o (evaluation_time h o)) c) lax,
)

-- A status that authorizes the execution
abbrev pub Authorized : VerifyResult → Type 0
Authorized r = (s : ValidationStatus) × (r.0 ≡ some s) × (s.valid ≡ true)

Ends-Authorized :
    (h : Host) (o : EnforcementOptions) (x : Context) (r : VerifyResult)
    → Ends h o x r
    → x.is_strict ≡ true
    → r.1 ≡ none
    → Authorized r
unfolding suspected non_prod_result missing_token unverified reject
Ends-Authorized h o x _ (is_suspected why) q p = ground (arith, p, q)
Ends-Authorized h o x _ (is_non_prod none) q p = (_, refl, refl)
Ends-Authorized h o x _ (is_non_prod (some why)) q p = ground (arith, p, q)
Ends-Authorized h o x _ (is_registry_error s e _ d) q p = ground (arith, p, q)
Ends-Authorized h o x _ (is_token_error e _ t) q p = ground (arith, p, q)
Ends-Authorized h o x _ is_missing q p = ground (arith, p, q)
Ends-Authorized h o x _ (is_unverified s e) q p = ground (arith, p, q)
Ends-Authorized h o x _ (is_rejected s r d) q p = ground (arith, p, q)
Ends-Authorized h o x _ (is_granted s v) q p = (s, refl, v)

-- In strict mode Enforce returns no error only with a status that authorizes the execution.
pub enforce-Authorized :
    (h : Host) (o : EnforcementOptions) (c : Container)
    → (context h o (evaluation_time h o)).is_strict ≡ true
    → (enforce h o c).1.1 ≡ none
    → Authorized (enforce h o c).1
unfolding enforce
enforce-Authorized h o c strict p = elim (Bool-cases (is_converted h (evaluation_time h o))) [
  | inl q ↦ (converted_status h, ground (arith, q), refl)
  | inr q ↦
      let (s, e, v) =
        Ends-Authorized h o (context h o (evaluation_time h o)) _
          (enforce_in-Ends h o (context h o (evaluation_time h o)) c) strict
          (ground (arith, p, q)) in
      (s, ground (arith, e, q), v)
]

-- Once a verified release is past its change date, three years after the release, Enforce grants
-- every execution without an error, whatever the license and the mode, and leaves the state alone.
pub enforce-converts :
    (h : Host) (o : EnforcementOptions) (c : Container) (r : Time)
    → (get h.build).provenance.verified ≡ true
    → release_time h.build (get h.build) ≡ some r
    → h.build.add_years r change_period_years < evaluation_time h o
    → (enforce h o c ≡ (c, (some (converted_status h), none))) × ((converted_status h).valid ≡ true)
unfolding enforce is_converted is_apache_converted change_date
enforce-converts h o c r v p l = (ground (arith, v, p, l), refl)

abbrev verification_failed : Text
verification_failed = txt "commercial license verification failed"

wrapped-is_deterministic : (e : Error) → is_deterministic (wrap verification_failed e) ≡ true
unfolding is_deterministic txt contains has_prefix
wrapped-is_deterministic e = ground arith

missing-is_deterministic : is_deterministic (plain missing_message) ≡ true
unfolding is_deterministic txt contains has_prefix
missing-is_deterministic = refl

error-of :
    (b : Bool) (e e' : Error)
    → (if b then some e' else none) ≡ some e
    → is_deterministic e' ≡ true
    → is_deterministic e ≡ true
error-of true e e' p d = ground (arith, p, d)
error-of false e e' p d = ground (arith, p)

pair_error-of :
    (b : Bool) (s s' : Option ValidationStatus) (e e' : Error)
    → (if◌then◌else◌ {A = VerifyResult} b (s, some e') (s', none)).1 ≡ some e
    → is_deterministic e' ≡ true
    → is_deterministic e ≡ true
pair_error-of true s s' e e' p d = ground (arith, p, d)
pair_error-of false s s' e e' p d = ground (arith, p)

sentinel-is_deterministic :
    (h : Host) (m : Text) (s : Sentinel) → is_deterministic (wrap_sentinel h m s) ≡ true
unfolding is_deterministic
sentinel-is_deterministic h m s = refl

Ends-is_deterministic :
    (h : Host) (o : EnforcementOptions) (x : Context) (r : VerifyResult) (e : Error)
    → Ends h o x r
    → ((t : Text) × (resolve_token h o.license_key o.license_file ≡ inr t))
    → r.1 ≡ some e
    → is_deterministic e ≡ true
unfolding suspected non_prod_result missing_token unverified reject
Ends-is_deterministic h o x _ e (is_suspected why) t p =
    pair_error-of x.is_strict _ _ e _ p
      (sentinel-is_deterministic h _ Sentinel.commercial_license_required)
Ends-is_deterministic h o x _ e (is_non_prod none) t p = ground (arith, p)
Ends-is_deterministic h o x _ e (is_non_prod (some why)) t p =
    pair_error-of x.is_strict _ _ e _ p
      (sentinel-is_deterministic h _ Sentinel.resource_quota_exceeded)
Ends-is_deterministic h o x _ e (is_registry_error s e' _ d) t p = ground (arith, p, d)
Ends-is_deterministic h o x _ e (is_token_error e' _ q) (t, t') p = ground (arith, p, q, t')
Ends-is_deterministic h o x _ e is_missing t p =
    error-of x.is_strict e (plain missing_message) p missing-is_deterministic
Ends-is_deterministic h o x _ e (is_unverified s e') t p =
    ground (arith, p, wrapped-is_deterministic e')
Ends-is_deterministic h o x _ e (is_rejected s r d) t p = ground (arith, p, d)
Ends-is_deterministic h o x _ e (is_granted s v) t p = ground (arith, p)

-- Where the token can be resolved, every error that Enforce returns is one that the handler does
-- not retry: it is found by IsDeterministicLicenseError.
pub enforce-is_deterministic :
    (h : Host) (o : EnforcementOptions) (c : Container) (t : Text) (e : Error)
    → resolve_token h o.license_key o.license_file ≡ inr t
    → (enforce h o c).1.1 ≡ some e
    → is_deterministic e ≡ true
unfolding enforce
enforce-is_deterministic h o c t e q p = elim (Bool-cases (is_converted h (evaluation_time h o))) [
  | inl k ↦ ground (arith, k, p)
  | inr k ↦
      Ends-is_deterministic h o (context h o (evaluation_time h o)) _ e
        (enforce_in-Ends h o (context h o (evaluation_time h o)) c) (t, q) (ground (arith, p, k))
]
