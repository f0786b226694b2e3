-- ===== src/Lib.antt =====
-- otel-aws-log-processor is an AWS Lambda that takes SQS messages about log objects in S3, parses
-- the load balancer, CloudFront and WAF logs in them, turns each line into an OpenTelemetry log
-- record and sends the records to an OTLP endpoint in batches, under a license that it checks. This
-- library models its pure core and the state that it keeps, file by file of the Go source.
--
-- The parts, and how the files correspond to the code:
--
-- - Prelude: text as a list of code points with the functions of package strings, int64, strconv,
--   a backtracking matcher of regular expressions, maps as association lists, sets, and the loop
--   that cuts a slice into chunks. Floats are a record of what the program does with a float64.
-- - Utils: pkg/utils. Conversion is conversion.go, Env is env.go, TraceId and Arn are
--   otel_utils.go (with ExtractAccountIDFromARN of pkg/license/enforcer.go), S3Key is s3_utils.go and
--   UserAgent user_agent.go, with its regular expressions in UserAgent/Patterns.
-- - Model: pkg/model/otel_models.go. Its `Add` lists the calls that a BuildAttributes method makes.
-- - Parser: pkg/parser, one file for each log format. `Line` says whether a line is skipped, fails
--   or has an entry. The pattern of the ALB parser is in Parser/Alb/Pattern.
-- - Processor: pkg/processor. Alb, Nlb, CloudFront and Waf are the adapters with their resource
--   keys, attributes and records; Registry is the registry of processor.go, and Base the pool of
--   goroutines that reads the lines or JSON values of an object in base.go. The clock, the random
--   ids, package net/url and encoding/json come in as the record Host.
-- - Sender: pkg/sender. Headers is headers.go. SendLogs of otlp_client.go is split in three:
--   Batches groups the entries and cuts the batches, Dispatch is the step relation of its workers,
--   and Retry is sendWithRetry, where the endpoint is a function from attempts to replies.
-- - Events: ParseBodyAsS3 of pkg/events/s3_event.go.
-- - Version: pkg/version. Provenance is provenance.go, Info is version.go, and Host is what they take
--   from the build, the environment and the external license library.
-- - License: pkg/license. Quota is quota.go, Resources is ResourceTracker of enforcer.go. Error, Claims,
--   Features, Days and Status are the parts of model.go on errors, expiry and limits, features and
--   scope, remaining days, and the validation status. Crl, Validator and Verify are verifier.go.
--   Token and Production are ResolveToken and the production indicators of enforcer.go. Registry is
--   cloudwatch_registry.go: Heartbeats, Fetch, Leases and Count follow its methods, and Types has its
--   state and the CloudWatch calls. Enforce is Enforce and PreflightEnforce of enforcer.go: Context
--   settles the time, the environment and the mode, NonProd is the exemption, Checks and Commercial
--   are the path with a license, and Run puts them together. Extract and Attributes are the resources
--   of a record and AppendLicenseAttributes of enforcer.go. Host is what pkg/license calls outside.
-- - Lambda: the handler of cmd/lambda/main.go. Messages is the processing of the SQS messages by
--   goroutines, Requests is what the handler asks Enforce about, and Handler puts them together
--   over the package variables as its state.
--
-- An adapter of Processor makes its record with Model and Utils; Sender takes adapters and plans
-- payloads of Model; a schedule of Dispatch delivers them, each by one call of Retry. Enforce threads
-- a Container of the quota tracker, the resource tracker, the registry and the default validator, and
-- asks Version whether the binary is converted to Apache 2.0. The handler reads the messages with
-- Events, finds a processor for each object, asks PreflightEnforce before and Enforce after, and sends
-- what was gathered.
--
-- Bounds and fuel: `chunks` has one round for each element, which is enough for every positive size
-- (Prelude/Chunks); the attempts of Retry are a structural count; the pages of a CloudWatch answer
-- are a finite value, so the loops over NextToken end as the answer does; an SQS body has fuel for as
-- many nested SNS messages as it has characters (Events/Laws). Counters are int64 with
-- wrap-around. A Go map is listed in the order of first writes, where the program ranges over it in
-- no fixed order. Text is in code points, and letters outside ASCII have no case.
--
-- Not modelled: the external license library (signatures, keys, revocation lists, the non-production
-- grant, and matching against a scope), whose calls are fields of the Host records, as are the
-- formats of dates; signing licenses and releases; metrics; the start of the Lambda;
-- and, of pkg/processor/base.go, the download and decoding of an object and the Parquet reader. The processing of an object is
-- a parameter of the handler, as SendLogs is.
-- Logging, locking and the HTTP request itself are left out: the trackers and the resource registry
-- have one caller at a time. The bound on concurrent workers is left out of the step relation of
-- Sender/Dispatch, which so has more schedules than the program; Processor/Base has its bounds.
pub mod Prelude
pub mod Utils
pub mod Version
pub mod Events
pub mod Model
pub mod Parser
pub mod Processor
pub mod Sender
pub mod License
pub mod Lambda
