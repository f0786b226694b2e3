-- ===== src/License/Tests.antt =====
-- Runs of the license package's theorems on small inputs.
use otel_aws_log_processor.Prelude.{
  ◌+◌, ◌≡◌, refl, true, false, List, [], ◌∷◌, none, some, arith, Text, codes, ◌⊎◌,
}
use otel_aws_log_processor.Prelude.Int.{pos, ltb_ℤ}
use otel_aws_log_processor.Prelude.Sets.{mem, nodup}
use otel_aws_log_processor.Utils.Env.{Environ}
use otel_aws_log_processor.Prelude.{◌≤◌, ◌↔◌, Bool, is_empty, text_eq}
use otel_aws_log_processor.License.Claims.{
  Claims, day, is_perpetual, effective_expiration, resolve_entitlement_key, validate_claims_schema,
}
use otel_aws_log_processor.License.Claims.Laws.{
  Phase, phase, HasRequired, resolve_entitlement_key-nonempty, validate_claims_schema-HasRequired,
}
use otel_aws_log_processor.License.Quota.{
  QuotaTracker, new_quota_tracker, is_due, should_emit_fair_use_warning_at,
  record_and_check_container_quota,
}
use otel_aws_log_processor.License.Quota.Laws.{
  InRange, after_batches, sum, new_quota_tracker-ceilings, container_quota-counts_all,
  should_emit-rate,
}
use otel_aws_log_processor.License.Resources.{new_resource_tracker, track_all}
use otel_aws_log_processor.License.Resources.Laws.{mentions, track_all-distinct}
use otel_aws_log_processor.License.Registry.Types.{Client, ListPages, GetPages, new_registry}
use otel_aws_log_processor.License.Registry.Heartbeats.{unique_inputs}
use otel_aws_log_processor.License.Registry.Count.{register_and_count, entitlement_of}
use otel_aws_log_processor.License.Registry.Invariant.{
  IsConsistent, register_and_count-IsConsistent,
}
use otel_aws_log_processor.License.Registry.Known.{
  IsDenied, CountsInputs, register_and_count-CountsInputs,
}

abbrev thousands : Environ
thousands name = codes "1000"

new_quota_tracker-ceilings_example :
    InRange (new_quota_tracker thousands).max_batch_records 10_000
    × InRange (new_quota_tracker thousands).max_container_records 25_000
new_quota_tracker-ceilings_example = new_quota_tracker-ceilings thousands

container_quota-counts_all_example :
    (record_and_check_container_quota
      (after_batches (new_quota_tracker thousands) (400 ∷ 500 ∷ []))
      200).1
    ≡ ltb_ℤ (new_quota_tracker thousands).max_container_records (pos (sum (400 ∷ 500 ∷ []) + 200))
container_quota-counts_all_example =
    container_quota-counts_all thousands (400 ∷ 500 ∷ []) 200 (omega arith)

abbrev fresh : QuotaTracker
fresh = record {
  container_records = pos 0;
  bytes_processed = pos 0;
  compressed_bytes = pos 0;
  max_batch_records = pos 10;
  max_container_records = pos 25;
  last_warning_time = pos 0;
  throughput_exceeded = true;
}

fresh_emits : (should_emit_fair_use_warning_at fresh 63_900_000_000_000_000_000).1 ≡ true
unfolding should_emit_fair_use_warning_at is_due
fresh_emits = refl

should_emit-rate_example :
    should_emit_fair_use_warning_at
      (should_emit_fair_use_warning_at fresh 63_900_000_000_000_000_000).0
      63_900_001_000_000_000_000
    ≡ ((should_emit_fair_use_warning_at fresh 63_900_000_000_000_000_000).0, false)
should_emit-rate_example =
    should_emit-rate fresh 63_900_000_000_000_000_000 63_900_001_000_000_000_000 fresh_emits refl
      (omega arith) (omega arith)

abbrev load_balancers : List Text
load_balancers = codes "lb-1" ∷ codes " lb-2" ∷ codes "lb-1" ∷ []

track_all-distinct_example :
    (nodup (track_all new_resource_tracker load_balancers).resources ≡ true)
    × ((j : Text)
        → mem j (track_all new_resource_tracker load_balancers).resources
          ≡ mentions j load_balancers)
track_all-distinct_example = track_all-distinct load_balancers

-- CloudWatch knows one load balancer already.
abbrev cloud_watch : Client
cloud_watch = record {
  put_metric_data = λ key arns now. none;
  list_metrics = λ key. ListPages.last ((codes "ResourceARN", codes "lb-9") ∷ []);
  get_metric_data = λ qs from to. GetPages.last ((codes "r0", 1 ∷ []) ∷ []);
}

new_registry-IsConsistent : IsConsistent new_registry
unfolding new_registry
new_registry-IsConsistent = tt

register_and_count-IsConsistent_example :
    IsConsistent
      (register_and_count
        (some cloud_watch)
        new_registry
        (codes "acme")
        load_balancers
        63_900_000_000_000_000_000).0
register_and_count-IsConsistent_example =
    register_and_count-IsConsistent (some cloud_watch) new_registry (codes "acme") load_balancers
      63_900_000_000_000_000_000 new_registry-IsConsistent

register_and_count-CountsInputs_example :
    IsDenied
      (some cloud_watch)
      new_registry
      (entitlement_of (codes "acme"))
      (unique_inputs load_balancers [])
      63_900_000_000_000_000_000
      (register_and_count
        (some cloud_watch)
        new_registry
        (codes "acme")
        load_balancers
        63_900_000_000_000_000_000)
    ⊎ CountsInputs (entitlement_of (codes "acme")) (unique_inputs load_balancers []) (
        register_and_count
          (some cloud_watch)
          new_registry
          (codes "acme")
          load_balancers
          63_900_000_000_000_000_000)
register_and_count-CountsInputs_example =
    register_and_count-CountsInputs (some cloud_watch) new_registry (codes "acme") load_balancers
      63_900_000_000_000_000_000

-- A license with the default grace period, of a subscription.
abbrev subscribed : Claims
subscribed = record {
  id = codes "lic-1";
  customer_name = codes "Acme";
  customer_org_id = codes "org-1";
  product = codes "otel-aws-log-processor";
  plan = codes "pro";
  issued_at = 63_800_000_000_000_000_000;
  expires_at = 63_900_000_000_000_000_000;
  grace_period_days = pos 0;
  features = codes "security.*" ∷ [];
  limits = none;
  scope = some (record { accounts = codes "123456789012" ∷ []; resources = [] });
  metadata = (codes "subscription_id", codes "sub-7") ∷ [];
  tier_features = [];
}

subscribed-expires : is_perpetual (some subscribed) ≡ false
unfolding is_perpetual
subscribed-expires = refl

phase_example :
    Phase subscribed 63_900_000_000_000_000_001
    × (subscribed.expires_at + day ≤ effective_expiration (some subscribed))
phase_example = phase subscribed 63_900_000_000_000_000_001 subscribed-expires

abbrev no_variables : Environ
no_variables name = []

abbrev is_dev : Text → Bool
is_dev stage = text_eq stage (codes "dev")

resolve_entitlement_key-nonempty_example :
    is_empty (resolve_entitlement_key is_dev no_variables (some subscribed) (codes "dev") [])
    ≡ false
resolve_entitlement_key-nonempty_example =
    resolve_entitlement_key-nonempty is_dev no_variables (some subscribed) (codes "dev") []

validate_claims_schema-HasRequired_example :
    (validate_claims_schema (codes "invalid") subscribed ≡ none) ↔ HasRequired subscribed
validate_claims_schema-HasRequired_example =
    validate_claims_schema-HasRequired (codes "invalid") subscribed
