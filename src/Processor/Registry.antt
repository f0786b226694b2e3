-- ===== src/Processor/Registry.antt =====
-- Registry of pkg/processor/processor.go over the four processors that cmd/lambda/main.go makes.
-- A processor is its kind and the fields that the registry sets through its optional interfaces.
pub mod Laws
use otel_aws_log_processor.Prelude.{
  Bool, true, false, List, [], ◌∷◌, ◌++◌, map, Option, none, some, if◌then◌else◌, Text,
}
use otel_aws_log_processor.Processor.Alb
use otel_aws_log_processor.Processor.Nlb
use otel_aws_log_processor.Processor.CloudFront
use otel_aws_log_processor.Processor.Waf

pub data Kind : Type 0 where
  alb nlb cloud_front waf : Kind

pub record LogProcessor : Type 0 where
  pub kind : Kind
  pub byte_tracker : Bool  -- whether the tracker of the process is set
  pub enrich_user_agent : Bool

pub record Registry : Type 0 where
  pub processors : List LogProcessor
  pub byte_tracker : Bool
  pub enrich_user_agent : Bool

unfoldable pub new : Registry
new = record { processors = []; byte_tracker = false; enrich_user_agent = false }

-- UserAgentEnrichable: NLBProcessor has no SetEnrichUserAgent.
abbrev pub is_enrichable : Kind → Bool
is_enrichable nlb = false
is_enrichable alb = true
is_enrichable cloud_front = true
is_enrichable waf = true

abbrev pub with_tracker : Bool → LogProcessor → LogProcessor
with_tracker bt p = record p { byte_tracker = bt }

abbrev pub with_enrich : Bool → LogProcessor → LogProcessor
with_enrich b p = if is_enrichable p.kind then record p { enrich_user_agent = b } else p

unfoldable pub set_byte_tracker : Registry → Bool → Registry
set_byte_tracker r bt = record r {
  byte_tracker = bt;
  processors = map (with_tracker bt) r.processors;
}

unfoldable pub set_enrich_user_agent : Registry → Bool → Registry
set_enrich_user_agent r b = record r {
  enrich_user_agent = b;
  processors = map (with_enrich b) r.processors;
}

unfoldable pub register : Registry → LogProcessor → Registry
register r p =
    let tracked = if r.byte_tracker then with_tracker true p else p in
    let enriched = if r.enrich_user_agent then with_enrich true tracked else tracked in
    record r { processors = r.processors ++ enriched ∷ [] }

unfoldable pub matches : LogProcessor → Text → Text → Bool
matches p bucket key = elim p.kind [
  | alb ↦ Alb.matches bucket key
  | nlb ↦ Nlb.matches bucket key
  | cloud_front ↦ CloudFront.matches bucket key
  | waf ↦ Waf.matches bucket key
]

unfoldable pub find_first : List LogProcessor → Text → Text → Option LogProcessor
unfolding matches
find_first [] bucket key = none
find_first (p ∷ ps) bucket key = if matches p bucket key then some p else find_first ps bucket key

unfoldable pub find : Registry → Text → Text → Option LogProcessor
unfolding find_first
find r bucket key = find_first r.processors bucket key
