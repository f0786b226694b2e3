-- ===== src/Lambda/Messages/Laws.antt =====
-- What handler of cmd/lambda/main.go gathers from the messages
use mathlib.Core.List.{append_assoc, append-nil}
use otel_aws_log_processor.Prelude.{
  ◌≡◌, ◌∙◌, sym, refl, inl, inr, List, [], ◌∷◌, ◌++◌, if◌then◌else◌, Text, Bool-cases,
}
use otel_aws_log_processor.Processor.Adapter.{LogAdapter}
use otel_aws_log_processor.Lambda.Messages.{
  SqsMessage, MessageResult, Gathered, merge, gather, nothing_gathered,
}

module _ {F : Type 0} where
  -- The messages that failed, and the entries of the others, in order
  abbrev pub failed_ids : (SqsMessage → MessageResult F) → List SqsMessage → List Text
  failed_ids run [] = []
  failed_ids run (m ∷ ms) =
      if (run m).failed then m.message_id ∷ failed_ids run ms else failed_ids run ms

  abbrev pub good_entries : (SqsMessage → MessageResult F) → List SqsMessage → List (LogAdapter F)
  good_entries run [] = []
  good_entries run (m ∷ ms) =
      if (run m).failed then good_entries run ms else (run m).entries ++ good_entries run ms

  merge-failures :
      (g : Gathered F) (m : SqsMessage) (r : MessageResult F) (tail : List Text)
      → (merge g m r).failures ++ tail
        ≡ g.failures ++ (if r.failed then m.message_id ∷ tail else tail)
  unfolding merge
  merge-failures g m r tail = elim (Bool-cases r.failed) [
    | inl p ↦ rw (merge, p) (append_assoc g.failures (m.message_id ∷ []) tail)
    | inr p ↦ rw (merge, p) refl
  ]

  merge-entries :
      (g : Gathered F) (m : SqsMessage) (r : MessageResult F) (tail : List (LogAdapter F))
      → (merge g m r).entries ++ tail ≡ g.entries ++ (if r.failed then tail else r.entries ++ tail)
  unfolding merge
  merge-entries g m r tail = elim (Bool-cases r.failed) [
    | inl p ↦ rw (merge, p) refl
    | inr p ↦ rw (merge, p) (append_assoc g.entries r.entries tail)
  ]

  gather-failures :
      (run : SqsMessage → MessageResult F) (ms : List SqsMessage) (g : Gathered F)
      → (gather run ms g).failures ≡ g.failures ++ failed_ids run ms
  unfolding gather
  gather-failures run [] g = sym (append-nil g.failures)
  gather-failures run (m ∷ ms) g =
      gather-failures run ms (merge g m (run m)) ∙ merge-failures g m (run m) (failed_ids run ms)

  gather-entries :
      (run : SqsMessage → MessageResult F) (ms : List SqsMessage) (g : Gathered F)
      → (gather run ms g).entries ≡ g.entries ++ good_entries run ms
  unfolding gather
  gather-entries run [] g = sym (append-nil g.entries)
  gather-entries run (m ∷ ms) g =
      gather-entries run ms (merge g m (run m)) ∙ merge-entries g m (run m) (good_entries run ms)

  -- A message that fails is reported and no entry of it is kept; of every other message all
  -- entries are kept.
  pub gather-splits :
      (run : SqsMessage → MessageResult F) (ms : List SqsMessage)
      → ((gather run ms nothing_gathered).failures ≡ failed_ids run ms)
        × ((gather run ms nothing_gathered).entries ≡ good_entries run ms)
  gather-splits run ms =
      (gather-failures run ms nothing_gathered, gather-entries run ms nothing_gathered)
