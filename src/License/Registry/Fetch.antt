-- ===== src/License/Registry/Fetch.antt =====
-- fetchActiveCountFromCloudWatch of pkg/license/cloudwatch_registry.go
use otel_aws_log_processor.Prelude.{
  ℕ, ◌+◌, ◌-◌, not, ◌&&◌, List, [], ◌∷◌, Option, none, some, if◌then◌else◌, ltb, is_empty, length,
  Text, txt, text_eq,
}
use otel_aws_log_processor.Prelude.Strconv.{format_nat}
use otel_aws_log_processor.Prelude.Assoc.{lookup}
use otel_aws_log_processor.Prelude.Sets.{insert}
use otel_aws_log_processor.Prelude.Chunks.{chunks}
use otel_aws_log_processor.License.Error.{Error}
use otel_aws_log_processor.License.Quota.{Time}
use otel_aws_log_processor.License.Registry.Types.{ListPages, GetPages, Client, CloudWatchRegistry}
use otel_aws_log_processor.License.Registry.Heartbeats.{passed_on}

-- Values of the ResourceARN dimensions that are not empty.
unfoldable pub arns_of_dimensions : List (Text × Text) → List Text → List Text
unfolding insert
arns_of_dimensions [] found = found
arns_of_dimensions ((name, value) ∷ ds) found =
    arns_of_dimensions ds (
      if text_eq name (txt "ResourceARN") && not (is_empty value)
      then insert value found
      else found)

pub data Fetched : Type 0 where
  fetched : List Text → Fetched
  error : Error → Fetched

unfoldable pub list_candidates : ListPages → List Text → Fetched
unfolding arns_of_dimensions
list_candidates (ListPages.failed m) found =
    error (passed_on (txt "failed to list metrics from CloudWatch registry: ") m)
list_candidates (ListPages.last ds) found = fetched (arns_of_dimensions ds found)
list_candidates (ListPages.page ds more) found = list_candidates more (arns_of_dimensions ds found)

-- The queries r0, r1, … and the ARN of each.
unfoldable pub queries : ℕ → List Text → List (Text × Text)
queries i [] = []
queries i (a ∷ arns) = (b'r' ∷ format_nat i, a) ∷ queries (i + 1) arns

abbrev total : List ℕ → ℕ
total [] = 0
total (v ∷ vs) = v + total vs

abbrev pub insert_some : Option Text → List Text → List Text
insert_some none active = active
insert_some (some a) active = insert a active

unfoldable pub add_results : List (Text × Text) → List (Text × List ℕ) → List Text → List Text
unfolding insert lookup
add_results to_arn [] active = active
add_results to_arn ((id, values) ∷ rs) active =
    add_results to_arn rs
      (if ltb 0 (total values) then insert_some (lookup id to_arn) active else active)

unfoldable pub read_results : List (Text × Text) → GetPages → List Text → Fetched
unfolding add_results
read_results to_arn (GetPages.failed m) active =
    error (passed_on (txt "failed to query metric data from CloudWatch registry: ") m)
read_results to_arn (GetPages.last rs) active = fetched (add_results to_arn rs active)
read_results to_arn (GetPages.page rs more) active =
    read_results to_arn more (add_results to_arn rs active)

unfoldable pub query_chunks :
    Client → List (Text × Text) → List (List (Text × Text)) → Time → Time → List Text → Fetched
unfolding read_results
query_chunks c to_arn [] from to active = fetched active
query_chunks c to_arn (qs ∷ rest) from to active =
    elim (read_results to_arn (c.get_metric_data qs from to) active) [
      | error e ↦ error e
      | fetched active' ↦ query_chunks c to_arn rest from to active'
    ]

abbrev pub all_chunks : Option (List (List (Text × Text))) → List (List (Text × Text))
all_chunks none = []
all_chunks (some bs) = bs

unfoldable pub query_candidates : Client → CloudWatchRegistry → List Text → Time → Fetched
unfolding queries query_chunks chunks
query_candidates c r candidates now =
    let qs = queries 0 candidates in
    query_chunks c qs (all_chunks (chunks (length qs) 500 qs)) (now - r.sliding_window) now []

unfoldable pub fetch_active_set : Client → CloudWatchRegistry → Text → Time → Fetched
unfolding list_candidates query_candidates
fetch_active_set c r key now = elim (list_candidates (c.list_metrics key) []) [
  | error e ↦ error e
  | fetched candidates ↦
      if is_empty candidates then fetched [] else query_candidates c r candidates now
]
