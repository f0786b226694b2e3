-- ===== src/License/Registry/Types.antt =====
-- The state of CloudWatchRegistry in pkg/license/cloudwatch_registry.go, and the CloudWatch calls
-- that it makes. The pages of a paginated answer come as one value, which ends as the loops over
-- NextToken do.
use otel_aws_log_processor.Prelude.{ℕ, ◌*◌, List, [], Option, Text}
use otel_aws_log_processor.License.Quota.{Time, second}

abbrev pub minute : ℕ
minute = 60 * second

pub data ListPages : Type 0 where
  failed : Text → ListPages
  last : List (Text × Text) → ListPages  -- the dimensions of the page's metrics
  page : List (Text × Text) → ListPages → ListPages

-- A result is a query's id and the sample counts of its data points.
pub data GetPages : Type 0 where
  failed : Text → GetPages
  last : List (Text × List ℕ) → GetPages
  page : List (Text × List ℕ) → GetPages → GetPages

pub record Client : Type 0 where
  -- PutMetricData of one chunk of heartbeats: the text of its error, if any
  pub put_metric_data : Text → List Text → Time → Option Text
  pub list_metrics : Text → ListPages
  -- GetMetricData of (id, ARN) queries over a window
  pub get_metric_data : List (Text × Text) → Time → Time → GetPages

pub record EntitlementState : Type 0 where
  pub cached_count : ℕ
  pub lease_expires_at : Time
  pub known_arns : List Text

pub record CloudWatchRegistry : Type 0 where
  pub sliding_window : ℕ
  pub lease_duration : ℕ
  pub last_active_count : ℕ
  pub leases : List (Text × EntitlementState)
  pub last_heartbeats : List (Text × Time)

unfoldable pub new_registry : CloudWatchRegistry
new_registry = record {
  sliding_window = 60 * minute;
  lease_duration = 3 * minute;
  last_active_count = 0;
  leases = [];
  last_heartbeats = [];
}
