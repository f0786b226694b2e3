-- ===== src/Lambda/Handler/Laws.antt =====
-- What handler of cmd/lambda/main.go reports and sends
use otel_aws_log_processor.Prelude.{
  ◌+◌, ◌*◌, ◌<◌, ◌==◌, ◌≡◌, ◌∙◌, ap, refl, Bool, true, false, List, [], ◌∷◌, Option, none, some,
  if◌then◌else◌, is_empty, Text, txt, to_lower, trim_space, arith,
}
use otel_aws_log_processor.License.Error.{Error}
use otel_aws_log_processor.License.Features.{normal}
use otel_aws_log_processor.License.Host.{Host}
use otel_aws_log_processor.License.Quota.{Time, second}
use otel_aws_log_processor.License.Enforce.Context.{
  context, evaluation_time, is_strict_mode, has_prod, indicator_of, env_of, authorized_of,
}
use otel_aws_log_processor.License.Enforce.Laws.{enforce-no_error, enforce-converts}
use otel_aws_log_processor.License.Enforce.Context.Laws.{evaluation_time-near}
use otel_aws_log_processor.Lambda.Requests.{authoritative_time}
use otel_aws_log_processor.Version.Host.{change_period_years}
use otel_aws_log_processor.Version.Info.{get, release_time}
use otel_aws_log_processor.License.Enforce.Options.{EnforcementOptions, Container, EnforceOutcome}
use otel_aws_log_processor.License.Enforce.Run.{enforce, preflight_enforce, preflight_options}
use otel_aws_log_processor.Lambda.Handler.{
  Runtime, LambdaState, Response, handler, after_preflight, with_batch, respond, send, run_message,
  preflight_options_of, batch_options_of, preflight_container, batch_container, enriched,
  registry_region, with_preflight,
}
use otel_aws_log_processor.Lambda.Messages.{SqsMessage, Gathered, gather, nothing_gathered}
use otel_aws_log_processor.Lambda.Messages.Laws.{failed_ids, good_entries, gather-splits}
use otel_aws_log_processor.Processor.Adapter.{LogAdapter}

-- The mode comes from the environment, and it is "warn".
abbrev pub IsWarn : Host → Type 0
IsWarn h = normal (h.env "DIVMORA_LICENSE_MODE") ≡ txt "warn"

warn-is_lax : (a b c : Bool) → is_strict_mode (txt "warn") a b c ≡ false
unfolding is_strict_mode txt
warn-is_lax a b c = refl

lax-context :
    (h : Host) (o : EnforcementOptions) (t : Time)
    → o.enforcement_mode ≡ []
    → IsWarn h
    → (context h o t).is_strict ≡ false
unfolding context trim_space to_lower
lax-context h o t p w =
    ap
      (λ m.
        is_strict_mode
          (if is_empty (normal m) then normal (h.env "DIVMORA_LICENSE_MODE") else normal m)
          (has_prod (indicator_of h o)) (h.is_non_production (env_of h o)) (authorized_of h o t))
      p
    ∙ ap
        (λ m.
          is_strict_mode m (has_prod (indicator_of h o)) (h.is_non_production (env_of h o))
            (authorized_of h o t))
        w
    ∙ warn-is_lax (has_prod (indicator_of h o)) (h.is_non_production (env_of h o))
        (authorized_of h o t)

-- Once converted by the authoritative time, Enforce returns no error, whatever the clock says.
converted-no_error :
    (h : Host) (o : EnforcementOptions) (c : Container) (r : Time)
    → (get h.build).provenance.verified ≡ true
    → release_time h.build (get h.build) ≡ some r
    → (o.authoritative_time == 0) ≡ false
    → h.build.add_years r change_period_years + 900 * second < o.authoritative_time
    → (enforce h o c).1.1 ≡ none
converted-no_error h o c r v q z l =
    let (_, near) = evaluation_time-near h o z in
    let (same, _) = enforce-converts h o c r v q (omega (arith, near, l)) in ap (λ x. x.1.1) same

-- What is reported and sent
abbrev pub Reports : {F : Type 0} → Response F → List Text → List (LogAdapter F) → Type 0
Reports r ids es = (r.failures ≡ ids) × (r.sent ≡ es)

module _ {F : Type 0} where
  pub send-splits : (rt : Runtime F) (g : Gathered F) → Reports (send rt g) g.failures g.entries
  unfolding send
  send-splits rt g = ground arith

  respond-warn :
      (rt : Runtime F) (records : List SqsMessage) (g : Gathered F) (e : Option Error)
      → e ≡ none
      → Reports (respond rt records g e) g.failures g.entries
  unfolding respond
  respond-warn rt records g none p = send-splits rt g
  respond-warn rt records g (some e) p = ground (arith, p)

  -- No execution of the batch is refused, whatever was gathered.
  abbrev IsUnrefused : Runtime F → List SqsMessage → Type 0
  IsUnrefused rt records =
      (g : Gathered F) (c : Container)
      → (enforce rt.host (batch_options_of rt records g) c).1.1 ≡ none

  batch-Reports :
      (rt : Runtime F) (s : LambdaState) (records : List SqsMessage) (region : Text)
      (g : Gathered F)
      → IsUnrefused rt records
      → Reports (with_batch rt s records region g).1 g.failures g.entries
  unfolding with_batch
  batch-Reports rt s records region g u =
      respond-warn rt records g
        (enforce rt.host (batch_options_of rt records g) (batch_container s region)).1.1
        (u g (batch_container s region))

  after_preflight-Reports :
      (rt : Runtime F) (s : LambdaState) (records finished : List SqsMessage) (x : EnforceOutcome)
      → IsUnrefused rt records
      → x.1.1 ≡ none
      → Reports
          (after_preflight rt s records finished x).1
          (failed_ids (run_message rt s) finished)
          (good_entries (run_message rt s) finished)
  unfolding after_preflight
  after_preflight-Reports rt s records finished (c, (st, some e)) u p = ground (arith, p)
  after_preflight-Reports rt s records finished (c, (st, none)) u p =
      let (f, e) = gather-splits (run_message rt s) finished in
      let (f', e') =
        batch-Reports rt (with_preflight rt.host s (c, (st, none))) records
          (registry_region rt.host st) (gather (run_message rt s) finished nothing_gathered) u in
      (f' ∙ f, e' ∙ e)

  handler-Reports :
      (rt : Runtime F) (s : LambdaState) (records finished : List SqsMessage)
      → is_empty records ≡ false
      → IsUnrefused rt records
      → (preflight_enforce rt.host (preflight_options_of rt records) (preflight_container s)).1.1
        ≡ none
      → Reports
          (handler rt s records finished).1
          (failed_ids (run_message rt (enriched rt s)) finished)
          (good_entries (run_message rt (enriched rt s)) finished)
  unfolding handler
  handler-Reports rt s [] finished n u p = ground (arith, n)
  handler-Reports rt s (m ∷ ms) finished n u p =
      after_preflight-Reports rt (enriched rt s) (m ∷ ms) finished _ u p

  preflight-warn :
      (rt : Runtime F) (s : LambdaState) (records : List SqsMessage)
      → IsWarn rt.host
      → (preflight_enforce rt.host (preflight_options_of rt records) (preflight_container s)).1.1
        ≡ none
  unfolding preflight_enforce
  preflight-warn rt s records w =
      enforce-no_error rt.host (preflight_options (preflight_options_of rt records))
        (record (preflight_container s) { cloudwatch_registry = none })
        (lax-context rt.host (preflight_options (preflight_options_of rt records))
          (evaluation_time rt.host (preflight_options (preflight_options_of rt records))) refl w)

  -- In the mode "warn", whatever the license says and in whatever order the messages finish, the
  -- handler reports just the messages that failed, and hands SendLogs all entries of the others
  -- and no entry of a message that failed.
  pub handler-warn :
      (rt : Runtime F) (s : LambdaState) (records finished : List SqsMessage)
      → IsWarn rt.host
      → is_empty records ≡ false
      → Reports
          (handler rt s records finished).1
          (failed_ids (run_message rt (enriched rt s)) finished)
          (good_entries (run_message rt (enriched rt s)) finished)
  handler-warn rt s records finished w n =
      handler-Reports rt s records finished n
        (λ g c. enforce-no_error rt.host (batch_options_of rt records g) c (
          lax-context rt.host (batch_options_of rt records g)
            (evaluation_time rt.host (batch_options_of rt records g)) refl w))
        (preflight-warn rt s records w)

  -- Three years after the release of a verified binary, and 15 minutes, by the time of the first
  -- message that has one: in every mode, whatever the license, the environment and the clock of
  -- the container say, and in whatever order the messages finish, the handler reports just the
  -- messages that failed, and hands SendLogs all entries of the others and no entry of a message
  -- that failed.
  pub handler-converts :
      (rt : Runtime F) (s : LambdaState) (records finished : List SqsMessage) (r : Time)
      → (get rt.host.build).provenance.verified ≡ true
      → release_time rt.host.build (get rt.host.build) ≡ some r
      → (authoritative_time rt.unix_milli records == 0) ≡ false
      → rt.host.build.add_years r change_period_years + 900 * second
        < authoritative_time rt.unix_milli records
      → is_empty records ≡ false
      → Reports
          (handler rt s records finished).1
          (failed_ids (run_message rt (enriched rt s)) finished)
          (good_entries (run_message rt (enriched rt s)) finished)
  unfolding preflight_enforce
  handler-converts rt s records finished r v q z l n =
      handler-Reports rt s records finished n
        (λ g c. converted-no_error rt.host (batch_options_of rt records g) c r v q z l)
        (converted-no_error rt.host (preflight_options (preflight_options_of rt records))
          (record (preflight_container s) { cloudwatch_registry = none }) r v q z l)
