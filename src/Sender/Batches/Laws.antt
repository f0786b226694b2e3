-- ===== src/Sender/Batches/Laws.antt =====
-- The batches of SendLogs of pkg/sender/otlp_client.go.
use mathlib.Core.List.{append-nil}
use otel_aws_log_processor.Prelude.{
  ℕ, ◌<◌, ◌≡◌, refl, List, [], ◌∷◌, ◌++◌, map, some, length, ◌∙◌, Text, All, arith,
}
use otel_aws_log_processor.Prelude.Chunks.{chunks, chunks-Cut, FitsSize, concat}
use otel_aws_log_processor.Model.{Attribute, LogRecord, Payload, ResourceLog, ScopeLog}
use otel_aws_log_processor.Processor.Adapter.{LogAdapter}
use otel_aws_log_processor.Sender.Batches.{
  ResourceGroup, group_entries, build_payload, group_payloads, all_payloads, plan,
}

module _ {F : Type 0} where
  abbrev scope_records : List (ScopeLog F) → List (LogRecord F)
  scope_records [] = []
  scope_records (s ∷ ss) = s.log_records ++ scope_records ss

  abbrev resource_records : List (ResourceLog F) → List (LogRecord F)
  resource_records [] = []
  resource_records (r ∷ rs) = scope_records r.scope_logs ++ resource_records rs

  -- The records of a payload, wherever they stand in it.
  abbrev pub payload_records : Payload F → List (LogRecord F)
  payload_records p = resource_records p.resource_logs

  abbrev all_records : List (Payload F) → List (LogRecord F)
  all_records [] = []
  all_records (p ∷ ps) = payload_records p ++ all_records ps

  -- A payload that has between one and `size` records, all of them under these attributes.
  pub record IsBatch (attrs : List (Attribute F)) (size : ℕ) (p : Payload F) : Type 0 where
    pub fits : FitsSize size (payload_records p)
    pub stamped : All (λ r. r.resource ≡ attrs) p.resource_logs

  pub record Carries (size : ℕ) (g : ResourceGroup F) (ps : List (Payload F)) : Type 0 where
    pub records : all_records ps ≡ g.log_records
    pub batches : All (IsBatch g.resource_attrs size) ps

  -- The payloads are batches of the groups' records, group by group.
  pub data Splits (size : ℕ) : List (ResourceGroup F) → List (Payload F) → Type 0 where
    none_left : Splits size [] []
    group :
        (g : ResourceGroup F) (gs : List (ResourceGroup F)) (qs ps : List (Payload F))
        → Carries size g qs
        → Splits size gs ps
        → Splits size (g ∷ gs) (qs ++ ps)

  build_payload-IsBatch :
      (version : Text) (size : ℕ) (attrs : List (Attribute F)) (b : List (LogRecord F))
      → FitsSize size b
      → IsBatch attrs size (build_payload version attrs b)
  unfolding build_payload
  build_payload-IsBatch version size attrs b h = record {
    fits = rw (append-nil b, append-nil b) h;
    stamped = (refl, tt);
  }

  all_records-map :
      (version : Text) (attrs : List (Attribute F)) (bs : List (List (LogRecord F)))
      → all_records (map (build_payload version attrs) bs) ≡ concat bs
  unfolding build_payload
  all_records-map version attrs [] = refl
  all_records-map version attrs (b ∷ bs) =
      rw (append-nil b, append-nil b, all_records-map version attrs bs) refl

  batches-map :
      (version : Text) (size : ℕ) (attrs : List (Attribute F)) (bs : List (List (LogRecord F)))
      → All (FitsSize size) bs
      → All (IsBatch attrs size) (map (build_payload version attrs) bs)
  batches-map version size attrs [] h = tt
  batches-map version size attrs (b ∷ bs) h =
      (build_payload-IsBatch version size attrs b h.0, batches-map version size attrs bs h.1)

  group_payloads-some :
      (version : Text) (size : ℕ) (g : ResourceGroup F) (bs : List (List (LogRecord F)))
      → chunks (length g.log_records) size g.log_records ≡ some bs
      → group_payloads version size g ≡ some (map (build_payload version g.resource_attrs) bs)
  unfolding group_payloads
  group_payloads-some version size g bs p = rw (group_payloads, p) refl

  group_payloads-Carries :
      (version : Text) (size : ℕ) (g : ResourceGroup F)
      → 0 < size
      → (qs : List (Payload F)) × (group_payloads version size g ≡ some qs) × Carries size g qs
  group_payloads-Carries version size g h =
      let (bs, p, c) = chunks-Cut (length g.log_records) size g.log_records h (omega arith) in
      (
        map (build_payload version g.resource_attrs) bs,
        group_payloads-some version size g bs p,
        record {
          records = all_records-map version g.resource_attrs bs ∙ c.whole;
          batches = batches-map version size g.resource_attrs bs c.sizes;
        },
      )

  all_payloads-Splits :
      (version : Text) (size : ℕ) (gs : List (ResourceGroup F))
      → 0 < size
      → (ps : List (Payload F)) × (all_payloads version size gs ≡ some ps) × Splits size gs ps
  unfolding all_payloads
  all_payloads-Splits version size [] h = ([], refl, none_left)
  all_payloads-Splits version size (g ∷ gs) h =
      let (qs, p, c) = group_payloads-Carries version size g h in
      let (ps, q, s) = all_payloads-Splits version size gs h in
      (qs ++ ps, rw (p, q) refl, group g gs qs ps c s)

  -- With a positive batch size the cutting ends, whatever the entries are, and the payloads are
  -- batches of the groups' records, in order and none left out: each payload has between one
  -- record and `size`, under the attributes of its group.
  pub plan-Splits :
      (stamp : List (Attribute F) → List (Attribute F)) (version : Text) (size : ℕ)
      (entries : List (LogAdapter F))
      → 0 < size
      → (ps : List (Payload F)) × (plan stamp version size entries ≡ some ps)
        × Splits size (group_entries stamp entries []) ps
  unfolding plan
  plan-Splits stamp version size entries h =
      all_payloads-Splits version size (group_entries stamp entries []) h
