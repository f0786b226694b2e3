-- ===== src/Events/Laws.antt =====
-- ParseBodyAsS3 of pkg/events/s3_event.go comes to an end.
use otel_aws_log_processor.Prelude.{
  ℕ, zero, suc, ◌<◌, ◌≡◌, refl, inl, inr, some, length, Text, arith, Option-cases,
}
use otel_aws_log_processor.Events.{
  Decoders, Parsing, no_format, direct, inner_message, parse_body_as_s3, parse_body,
}

-- A message that json.Unmarshal reads out of a body is shorter than the body.
abbrev pub MessagesShrink : Decoders → Type 0
MessagesShrink d =
    (body m : Text) → inner_message (d.sns_message body) ≡ some m → length m < length body

parse_body_as_s3-ends :
    (f : ℕ) (d : Decoders) (body : Text)
    → MessagesShrink d
    → length body < f
    → (p : Parsing) × (parse_body_as_s3 f d body ≡ some p)
unfolding parse_body_as_s3
parse_body_as_s3-ends zero d body h l = ground arith
parse_body_as_s3-ends (suc f) d body h l = elim (Option-cases (direct d body)) [
  | inr (rs, p) ↦ (inr rs, rw (parse_body_as_s3, p) refl)
  | inl p ↦ elim (Option-cases (inner_message (d.sns_message body))) [
    | inl q ↦ (no_format, rw (parse_body_as_s3, p, q) refl)
    | inr (m, q) ↦
        let (r, e) = parse_body_as_s3-ends f d m h (ground (arith, h body m q, l)) in
        (r, rw (parse_body_as_s3, p, q) e)
  ]
]

-- As every message is shorter than the body that it stands in, the parsing of an SQS body ends,
-- with the S3 records or an error, however deep the notifications are nested.
parse_body-ends :
    (d : Decoders) (body : Text) → MessagesShrink d → (p : Parsing) × (parse_body d body ≡ some p)
unfolding parse_body
parse_body-ends d body h = parse_body_as_s3-ends (suc (length body)) d body h (omega arith)
