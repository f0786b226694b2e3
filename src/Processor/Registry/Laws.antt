-- ===== src/Processor/Registry/Laws.antt =====
-- Configuration and lookup in the registry of pkg/processor/processor.go.
use otel_aws_log_processor.Prelude.{
  ◌≡◌, refl, ap, Bool, true, false, ◌&&◌, ◌||◌, not, List, [], ◌∷◌, ◌++◌, map, Option, none, some,
  if◌then◌else◌, Text, All, All-append, arith, Bool-cases, inl, inr,
}
use otel_aws_log_processor.Processor.Registry.{
  LogProcessor, Registry, new, is_enrichable, set_byte_tracker, set_enrich_user_agent, register,
  matches, find_first, find, with_tracker, with_enrich,
}

-- A processor has the settings of the registry: its tracker, and its enrichment if it can enrich.
pub record IsConfigured (bt ua : Bool) (p : LogProcessor) : Type 0 where
  pub tracked : p.byte_tracker ≡ bt
  pub enriched : p.enrich_user_agent ≡ (ua && is_enrichable p.kind)

abbrev pub AllConfigured : Registry → Type 0
AllConfigured r = All (IsConfigured r.byte_tracker r.enrich_user_agent) r.processors

-- The calls that configure a registry, in any order.
pub data Op : Type 0 where
  tracker user_agent : Bool → Op
  processor : LogProcessor → Op

unfoldable pub apply : Registry → Op → Registry
apply r (Op.tracker b) = set_byte_tracker r b
apply r (Op.user_agent b) = set_enrich_user_agent r b
apply r (Op.processor p) = register r p

unfoldable pub apply_all : Registry → List Op → Registry
apply_all r [] = r
apply_all r (o ∷ os) = apply_all (apply r o) os

-- A processor that comes with no setting that the registry has not.
abbrev pub brings_no_more : Registry → LogProcessor → Bool
brings_no_more r p =
    (not p.byte_tracker || r.byte_tracker)
    && (not p.enrich_user_agent || (r.enrich_user_agent && is_enrichable p.kind))

abbrev pub op_brings_no_more : Registry → Op → Bool
op_brings_no_more r (Op.tracker b) = true
op_brings_no_more r (Op.user_agent b) = true
op_brings_no_more r (Op.processor p) = brings_no_more r p

-- It is so for every processor, when it is registered.
unfoldable pub all_bring_no_more : Registry → List Op → Bool
unfolding apply
all_bring_no_more r [] = true
all_bring_no_more r (o ∷ os) = op_brings_no_more r o && all_bring_no_more (apply r o) os

map-tracker :
    (bt bt' ua : Bool) (ps : List LogProcessor)
    → All (IsConfigured bt ua) ps
    → All (IsConfigured bt' ua) (map (with_tracker bt') ps)
map-tracker bt bt' ua [] h = tt
map-tracker bt bt' ua (p ∷ ps) h =
    (record { tracked = refl; enriched = h.0.enriched }, map-tracker bt bt' ua ps h.1)

enrich-IsConfigured :
    (bt ua ua' : Bool) (p : LogProcessor)
    → IsConfigured bt ua p
    → IsConfigured bt ua' (with_enrich ua' p)
enrich-IsConfigured bt ua ua' p h = elim (Bool-cases (is_enrichable p.kind)) [
  | inl q ↦ rw (q) (record { tracked = h.tracked; enriched = rw (q) (ground arith) })
  | inr q ↦
      rw (q) (record { tracked = h.tracked; enriched = rw (q) (ground (arith, h.enriched, q)) })
]

map-enrich :
    (bt ua ua' : Bool) (ps : List LogProcessor)
    → All (IsConfigured bt ua) ps
    → All (IsConfigured bt ua') (map (with_enrich ua') ps)
map-enrich bt ua ua' [] h = tt
map-enrich bt ua ua' (p ∷ ps) h = (enrich-IsConfigured bt ua ua' p h.0, map-enrich bt ua ua' ps h.1)

registered-IsConfigured :
    (bt ua : Bool) (p : LogProcessor)
    → (not p.byte_tracker || bt) ≡ true
    → (not p.enrich_user_agent || (ua && is_enrichable p.kind)) ≡ true
    → IsConfigured bt ua (
        if ua
        then with_enrich true (if bt then with_tracker true p else p)
        else (if bt then with_tracker true p else p))
registered-IsConfigured bt ua p h k = record {
  tracked = ground (arith, h, k);
  enriched = ground (arith, h, k);
}

apply-AllConfigured :
    (r : Registry) (o : Op)
    → op_brings_no_more r o ≡ true
    → AllConfigured r
    → AllConfigured (apply r o)
unfolding apply set_byte_tracker set_enrich_user_agent register
apply-AllConfigured r (Op.tracker b) k h =
    map-tracker r.byte_tracker b r.enrich_user_agent r.processors h
apply-AllConfigured r (Op.user_agent b) k h =
    map-enrich r.byte_tracker r.enrich_user_agent b r.processors h
apply-AllConfigured r (Op.processor p) k h =
    All-append (IsConfigured r.byte_tracker r.enrich_user_agent) r.processors _ h (
      registered-IsConfigured r.byte_tracker r.enrich_user_agent p (ground (arith, k))
          (ground (arith, k)),
      tt,
    )

apply_all-AllConfigured :
    (r : Registry) (os : List Op)
    → all_bring_no_more r os ≡ true
    → AllConfigured r
    → AllConfigured (apply_all r os)
unfolding apply_all all_bring_no_more
apply_all-AllConfigured r [] k h = h
apply_all-AllConfigured r (o ∷ os) k h =
    apply_all-AllConfigured (apply r o) os (ground (arith, k))
      (apply-AllConfigured r o (ground (arith, k)) h)

-- In whatever order a new registry is given its tracker, its user-agent setting and its
-- processors, at the end every processor has the tracker exactly if the registry has it, and
-- enriches exactly if the registry is set to and it can, provided that no processor comes with a
-- setting that the registry has not when it is registered.
pub new-AllConfigured :
    (os : List Op) → all_bring_no_more new os ≡ true → AllConfigured (apply_all new os)
unfolding new
new-AllConfigured os k = apply_all-AllConfigured new os k tt

-- What Find returns: the first processor that matches, or nothing if none does.
pub data FoundFirst (bucket key : Text) (ps : List LogProcessor)
    : Option LogProcessor → Type 0 where
  nowhere : All (λ p. matches p bucket key ≡ false) ps → FoundFirst bucket key ps none
  here :
      (before : List LogProcessor) (p : LogProcessor) (after : List LogProcessor)
      → ps ≡ before ++ p ∷ after
      → All (λ q. matches q bucket key ≡ false) before
      → matches p bucket key ≡ true
      → FoundFirst bucket key ps (some p)

later :
    (bucket key : Text) (p : LogProcessor) (ps : List LogProcessor) (o : Option LogProcessor)
    → matches p bucket key ≡ false
    → FoundFirst bucket key ps o
    → FoundFirst bucket key (p ∷ ps) o
later bucket key p ps o m (nowhere h) = nowhere (m, h)
later bucket key p ps o m (here before q after e h k) =
    here (p ∷ before) q after (ap (λ xs. p ∷ xs) e) (m, h) k

find_first-FoundFirst :
    (ps : List LogProcessor) (bucket key : Text)
    → FoundFirst bucket key ps (find_first ps bucket key)
unfolding find_first
find_first-FoundFirst [] bucket key = nowhere tt
find_first-FoundFirst (p ∷ ps) bucket key = elim (Bool-cases (matches p bucket key)) [
  | inl h ↦ rw (find_first, h) (here [] p ps refl tt h)
  | inr h ↦ rw (find_first, h) (later bucket key p ps _ h (find_first-FoundFirst ps bucket key))
]

-- Find returns the first registered processor that matches the object, and nothing only if none
-- matches.
find-FoundFirst :
    (r : Registry) (bucket key : Text) → FoundFirst bucket key r.processors (find r bucket key)
unfolding find
find-FoundFirst r bucket key = find_first-FoundFirst r.processors bucket key
