-- ===== src/Sender/Batches.antt =====
-- SendLogs of pkg/sender/otlp_client.go up to the sending: the grouping of the entries by resource
-- and the cut of each group into batches. The map of groups is ranged over in the order of its
-- keys' first entries. The payloads are those that the loops make while sendCtx is not done; its
-- end, which breaks off the loops, is a step of Sender/Dispatch. A group has one round of fuel for
-- each record, so that none stands for loops that do not end by themselves, as with a batch size
-- of 0; a batch size is not negative.
pub mod Groups
pub mod Laws
use otel_aws_log_processor.Prelude.{
  ℕ, List, [], ◌∷◌, ◌++◌, map, Option, none, some, if◌then◌else◌, length, Text, txt, text_eq,
}
use otel_aws_log_processor.Prelude.Chunks.{chunks}
use otel_aws_log_processor.Model.{Attribute, LogRecord, Payload}
use otel_aws_log_processor.Processor.Adapter.{LogAdapter}

pub record ResourceGroup (F : Type 0) : Type 0 where
  pub key : Text
  pub resource_attrs : List (Attribute F)
  pub log_records : List (LogRecord F)

module _ {F : Type 0} where
  abbrev pub with_record : ResourceGroup F → LogRecord F → ResourceGroup F
  with_record g r = record g { log_records = g.log_records ++ r ∷ [] }

  -- The attributes of a group are those of its first entry, with the license's if there is one:
  -- `stamp` is AppendLicenseAttributes or the identity.
  unfoldable pub add_entry :
      (List (Attribute F) → List (Attribute F))
      → LogAdapter F
      → List (ResourceGroup F)
      → List (ResourceGroup F)
  add_entry stamp e [] =
      (record {
        key = e.get_resource_key;
        resource_attrs = stamp e.get_resource_attributes;
        log_records = e.to_otel ∷ [];
      })
      ∷ []
  add_entry stamp e (g ∷ gs) =
      if text_eq g.key e.get_resource_key
      then with_record g e.to_otel ∷ gs
      else g ∷ add_entry stamp e gs

  unfoldable pub group_entries :
      (List (Attribute F) → List (Attribute F))
      → List (LogAdapter F)
      → List (ResourceGroup F)
      → List (ResourceGroup F)
  unfolding add_entry
  group_entries stamp [] gs = gs
  group_entries stamp (e ∷ es) gs = group_entries stamp es (add_entry stamp e gs)

  unfoldable pub build_payload : Text → List (Attribute F) → List (LogRecord F) → Payload F
  build_payload version attrs records = record {
    resource_logs =
        (record {
          resource = attrs;
          scope_logs =
              (record {
                scope = record { name = txt "otel-aws-log-processor"; version = version };
                log_records = records;
              })
              ∷ [];
        })
        ∷ [];
  }

  unfoldable pub group_payloads : Text → ℕ → ResourceGroup F → Option (List (Payload F))
  unfolding build_payload
  group_payloads version size g = elim (chunks (length g.log_records) size g.log_records) [
    | none ↦ none
    | some batches ↦ some (map (build_payload version g.resource_attrs) batches)
  ]

  abbrev pub join :
      Option (List (Payload F)) → Option (List (Payload F)) → Option (List (Payload F))
  join none q = none
  join (some ps) none = none
  join (some ps) (some qs) = some (ps ++ qs)

  unfoldable pub all_payloads : Text → ℕ → List (ResourceGroup F) → Option (List (Payload F))
  unfolding group_payloads
  all_payloads version size [] = some []
  all_payloads version size (g ∷ gs) =
      join (group_payloads version size g) (all_payloads version size gs)

  -- The payloads that SendLogs hands to its workers, in the order of dispatch; `none` for a loop
  -- that does not end.
  unfoldable pub plan :
      (List (Attribute F) → List (Attribute F))
      → Text
      → ℕ
      → List (LogAdapter F)
      → Option (List (Payload F))
  unfolding group_entries all_payloads
  plan stamp version size entries = all_payloads version size (group_entries stamp entries [])
