-- ===== src/License/Registry/Count.antt =====
-- RegisterAndCount of pkg/license/cloudwatch_registry.go
use otel_aws_log_processor.Prelude.{
  ℕ, List, [], ◌∷◌, Option, none, some, if◌then◌else◌, is_empty, Text, txt, trim_space,
}
use otel_aws_log_processor.Prelude.Assoc.{lookup, put}
use otel_aws_log_processor.License.Error.{Error, registry_access_denied}
use otel_aws_log_processor.License.Quota.{Time}
use otel_aws_log_processor.License.Registry.Types.{Client, CloudWatchRegistry}
use otel_aws_log_processor.License.Registry.Heartbeats.{
  unique_inputs, filter_heartbeats_to_publish, publish_heartbeats,
}
use otel_aws_log_processor.License.Registry.Leases.{
  Counted, state_of, store, merge_local, evaluate_active_count,
}

abbrev pub is_denied : Option Error → Option Error
is_denied none = none
is_denied (some e) = elim e.sentinels [ registry_access_denied ∷ ss ↦ some e | _ ↦ none ]

unfoldable pub after_publish :
    Client → Text → List Text → Time → CloudWatchRegistry × Option Error → Counted
after_publish c key inputs now (r, err) = elim (is_denied err) [
  | some e ↦ (r, 0, some e)
  | none ↦ evaluate_active_count c r key inputs now
]

unfoldable pub published :
    Client → CloudWatchRegistry → Text → List Text → Time → CloudWatchRegistry × Option Error
unfolding publish_heartbeats
published c r key to_publish now =
    if is_empty to_publish then (r, none) else publish_heartbeats c r key to_publish now

-- A blank key counts as one of its own.
unfoldable pub entitlement_of : Text → Text
unfolding txt
entitlement_of key = if is_empty (trim_space key) then txt "unlicensed" else trim_space key

-- RegisterAndCount of a registry that is not nil, at an evaluation time that is not zero.
unfoldable pub register_and_count :
    Option Client
    → CloudWatchRegistry
    → Text
    → List Text
    → Time
    → CloudWatchRegistry × ℕ × Option Error
unfolding unique_inputs merge_local lookup put filter_heartbeats_to_publish publish_heartbeats
    evaluate_active_count
register_and_count client r entitlement_key arns now =
    let key =
      if is_empty (trim_space entitlement_key)
      then txt "unlicensed"
      else trim_space entitlement_key in
    let inputs = unique_inputs arns [] in
    elim client [
      | none ↦
          let s = merge_local (state_of (lookup key r.leases)) inputs in
          (store r key s, s.cached_count, none)
      | some c ↦
          after_publish c key inputs now
            (published c r key (filter_heartbeats_to_publish r key inputs now) now)
    ]

unfoldable pub reset : CloudWatchRegistry → CloudWatchRegistry
reset r = record r { last_active_count = 0; leases = []; last_heartbeats = [] }
