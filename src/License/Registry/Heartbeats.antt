-- ===== src/License/Registry/Heartbeats.antt =====
-- Heartbeats of pkg/license/cloudwatch_registry.go: which are due, and their publication.
use otel_aws_log_processor.Prelude.{
  ◌-◌, Bool, true, List, [], ◌∷◌, ◌++◌, Option, none, some, if◌then◌else◌, leb, is_empty, length,
  Text, txt, trim_space, contains,
}
use otel_aws_log_processor.Prelude.Assoc.{lookup, put}
use otel_aws_log_processor.Prelude.Sets.{insert}
use otel_aws_log_processor.Prelude.Chunks.{chunks}
use otel_aws_log_processor.License.Error.{Error, registry_access_denied, plain}
use otel_aws_log_processor.License.Quota.{Time}
use otel_aws_log_processor.License.Registry.Types.{minute, Client, CloudWatchRegistry}

-- The input ARNs, trimmed, without the empty ones, each once.
unfoldable pub unique_inputs : List Text → List Text → List Text
unfolding insert
unique_inputs [] seen = seen
unique_inputs (a ∷ arns) seen =
    unique_inputs arns (if is_empty (trim_space a) then seen else insert (trim_space a) seen)

abbrev pub heartbeat_key : Text → Text → Text
heartbeat_key key arn = key ++ 0 ∷ arn

abbrev is_due : Option Time → Time → Bool
is_due none now = true
is_due (some sent) now = leb minute (now - sent)

unfoldable pub filter_heartbeats_to_publish :
    CloudWatchRegistry → Text → List Text → Time → List Text
unfolding lookup
filter_heartbeats_to_publish r key [] now = []
filter_heartbeats_to_publish r key (a ∷ arns) now =
    let rest = filter_heartbeats_to_publish r key arns now in
    if is_due (lookup (heartbeat_key key a) r.last_heartbeats) now then a ∷ rest else rest

unfoldable pub mark_heartbeats_published :
    CloudWatchRegistry → Text → List Text → Time → CloudWatchRegistry
unfolding put
mark_heartbeats_published r key [] now = r
mark_heartbeats_published r key (a ∷ arns) now =
    mark_heartbeats_published
      (record r { last_heartbeats = put (heartbeat_key key a) now r.last_heartbeats }) key arns now

-- fmt.Errorf("%w: %v", ErrCloudWatchRegistryAccessDenied, err)
abbrev access_denied : Text → Error
access_denied m = record {
  sentinels = registry_access_denied ∷ [];
  message = txt "access denied to CloudWatch distributed resource registry" ++ (txt ": " ++ m);
}

-- How an error of a call is passed on: one that names AccessDenied has the sentinel.
abbrev pub passed_on : Text → Text → Error
passed_on context m =
    if contains m (txt "AccessDenied") then access_denied m else plain (context ++ m)

unfoldable pub publish_chunks :
    Client → CloudWatchRegistry → Text → List (List Text) → Time → CloudWatchRegistry × Option Error
unfolding mark_heartbeats_published
publish_chunks c r key [] now = (r, none)
publish_chunks c r key (arns ∷ rest) now = elim (c.put_metric_data key arns now) [
  | some m ↦ (r, some (passed_on [] m))
  | none ↦ publish_chunks c (mark_heartbeats_published r key arns now) key rest now
]

abbrev pub or_none : Option (List (List Text)) → List (List Text)
or_none none = []
or_none (some bs) = bs

-- Chunks of 20. The cut always succeeds (Prelude/Chunks).
unfoldable pub publish_heartbeats :
    Client → CloudWatchRegistry → Text → List Text → Time → CloudWatchRegistry × Option Error
unfolding publish_chunks chunks
publish_heartbeats c r key arns now =
    publish_chunks c r key (or_none (chunks (length arns) 20 arns)) now
