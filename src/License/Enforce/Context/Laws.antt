-- ===== src/License/Enforce/Context/Laws.antt =====
-- The evaluation time and the mode of Enforce in pkg/license/enforcer.go
use otel_aws_log_processor.Prelude.{◌+◌, ◌*◌, ◌≤◌, ◌≡◌, false, arith, ◌==◌}
use otel_aws_log_processor.License.Host.{Host}
use otel_aws_log_processor.License.Quota.{Time, second}
use otel_aws_log_processor.License.Enforce.Context.{evaluation_time, anchored}
use otel_aws_log_processor.License.Enforce.Options.{EnforcementOptions}

anchored-near :
    (t auth : Time)
    → (auth == 0) ≡ false
    → (anchored t auth ≤ auth + 900 * second) × (auth ≤ anchored t auth + 900 * second)
anchored-near t auth p = ground arith

-- Where an authoritative time is given, Enforce evaluates the license at a time that is within 15
-- minutes of it, whatever the clock of the container or the evaluation time of the caller says.
pub evaluation_time-near :
    (h : Host) (o : EnforcementOptions)
    → (o.authoritative_time == 0) ≡ false
    → (evaluation_time h o ≤ o.authoritative_time + 900 * second)
      × (o.authoritative_time ≤ evaluation_time h o + 900 * second)
unfolding evaluation_time
evaluation_time-near h o p = anchored-near _ _ p
