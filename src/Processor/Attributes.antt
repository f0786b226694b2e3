-- ===== src/Processor/Attributes.antt =====
-- The attributes of the four adapters of pkg/processor.
use otel_aws_log_processor.Prelude.{All, []}
use otel_aws_log_processor.Prelude.Floats.{Floats}
use otel_aws_log_processor.Model.Laws.{HasSetValue, perform-HasContent}
use otel_aws_log_processor.Processor.Host.{Host}
use otel_aws_log_processor.Processor.Alb
use otel_aws_log_processor.Processor.Nlb
use otel_aws_log_processor.Processor.CloudFront
use otel_aws_log_processor.Processor.Waf

module _ (fl : Floats) where
  open fl use {Float}

  -- No log record of any of the four adapters has an attribute that says nothing: each value is a
  -- string other than "" and "-", or a number other than zero.
  pub adapters-HasContent :
      (host : Host fl) (a : Alb.AlbAdapter Float) (n : Nlb.NlbAdapter Float)
      (c : CloudFront.CloudFrontAdapter Float) (w : Waf.WafAdapter)
      → All (HasSetValue fl) (Alb.adapter host a).to_otel.attributes
        × (All (HasSetValue fl) (Nlb.adapter fl host n).to_otel.attributes
            × (All (HasSetValue fl) (CloudFront.adapter host c).to_otel.attributes
                × All (HasSetValue fl) (Waf.adapter host w).to_otel.attributes))
  unfolding Alb.adapter Alb.to_otel Alb.build_attributes Nlb.adapter Nlb.to_otel
      Nlb.build_attributes CloudFront.adapter CloudFront.to_otel CloudFront.build_attributes
      Waf.adapter Waf.to_otel Waf.build_attributes
  adapters-HasContent host a n c w = (
    perform-HasContent fl [] (Alb.adds host a) tt,
    (
      perform-HasContent fl [] (Nlb.adds fl n) tt,
      (
        perform-HasContent fl [] (CloudFront.adds host c) tt,
        perform-HasContent fl [] (Waf.adds host w) tt,
      ),
    ),
  )
