-- ===== src/License/Registry/Leases.antt =====
-- evaluateActiveCount of pkg/license/cloudwatch_registry.go: the in-container leases.
use otel_aws_log_processor.Prelude.{
  ℕ, ◌+◌, Bool, not, ◌&&◌, List, [], ◌∷◌, Option, none, some, if◌then◌else◌, ltb, ◌==◌, length,
  Text,
}
use otel_aws_log_processor.Prelude.Assoc.{lookup, put}
use otel_aws_log_processor.Prelude.Sets.{mem, insert, insert_all}
use otel_aws_log_processor.License.Error.{Error}
use otel_aws_log_processor.License.Quota.{Time}
use otel_aws_log_processor.License.Registry.Types.{Client, EntitlementState, CloudWatchRegistry}
use otel_aws_log_processor.License.Registry.Fetch.{Fetched, fetched, error, fetch_active_set}

abbrev pub empty_state : EntitlementState
empty_state = record { cached_count = 0; lease_expires_at = 0; known_arns = [] }

abbrev pub state_of : Option EntitlementState → EntitlementState
state_of none = empty_state
state_of (some s) = s

unfoldable pub store : CloudWatchRegistry → Text → EntitlementState → CloudWatchRegistry
unfolding put
store r key s = record r { leases = put key s r.leases; last_active_count = s.cached_count }

abbrev pub lease_is_valid : EntitlementState → Time → Bool
lease_is_valid s now = not (s.lease_expires_at == 0) && ltb now s.lease_expires_at

-- The in-container paths: no client; a lease that is valid; a failed query.
unfoldable pub merge_local : EntitlementState → List Text → EntitlementState
unfolding insert_all
merge_local s inputs =
    let known = insert_all inputs s.known_arns in
    record s { known_arns = known; cached_count = length known }

-- delta counts the inputs that were not known
unfoldable pub learn : EntitlementState → Text → EntitlementState
unfolding insert
learn s a =
    if mem a s.known_arns
    then s
    else record s { known_arns = insert a s.known_arns; cached_count = s.cached_count + 1 }

unfoldable pub merge_lease : EntitlementState → List Text → EntitlementState
unfolding learn
merge_lease s [] = s
merge_lease s (a ∷ arns) = merge_lease (learn s a) arns

unfoldable pub merge_failed : EntitlementState → List Text → EntitlementState
unfolding insert_all
merge_failed s inputs =
    let known = insert_all inputs s.known_arns in
    record s {
      known_arns = known;
      cached_count = if ltb s.cached_count (length known) then length known else s.cached_count;
    }

unfoldable pub fresh_lease : CloudWatchRegistry → List Text → List Text → Time → EntitlementState
unfolding insert_all
fresh_lease r inputs active now =
    let known = insert_all inputs active in
    record {
      cached_count = length known;
      lease_expires_at = now + r.lease_duration;
      known_arns = known;
    }

abbrev pub Counted : Type 0
Counted = CloudWatchRegistry × ℕ × Option Error

unfoldable pub refreshed :
    CloudWatchRegistry → Text → List Text → Time → EntitlementState → Fetched → Counted
unfolding merge_failed fresh_lease store
refreshed r key inputs now s (error e) =
    let s' = merge_failed s inputs in (store r key s', s'.cached_count, some e)
refreshed r key inputs now s (fetched active) =
    let s' = fresh_lease r inputs active now in (store r key s', s'.cached_count, none)

unfoldable pub evaluate_active_count :
    Client → CloudWatchRegistry → Text → List Text → Time → CloudWatchRegistry × ℕ × Option Error
unfolding lookup merge_lease store refreshed
evaluate_active_count c r key inputs now =
    let s = state_of (lookup key r.leases) in
    let s' = merge_lease s inputs in
    let slow = refreshed r key inputs now s (fetch_active_set c r key now) in
    if lease_is_valid s now then (store r key s', s'.cached_count, none) else slow
