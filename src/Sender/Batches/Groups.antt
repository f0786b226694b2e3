-- ===== src/Sender/Batches/Groups.antt =====
-- The grouping of the entries in SendLogs of pkg/sender/otlp_client.go.
use mathlib.Core.Path.{subst}
use mathlib.Core.List.{append_assoc, append-nil}
use otel_aws_log_processor.Prelude.{
  ◌≡◌, refl, sym, ◌∙◌, List, [], ◌∷◌, ◌++◌, if◌then◌else◌, Text, text_eq, text_eq_iff, arith, true,
  false, Bool-cases, inl, inr,
}
use otel_aws_log_processor.Prelude.Sets.{mem, nodup}
use otel_aws_log_processor.Model.{Attribute, LogRecord}
use otel_aws_log_processor.Processor.Adapter.{LogAdapter}
use otel_aws_log_processor.Sender.Batches.{ResourceGroup, add_entry, group_entries, with_record}

module _ {F : Type 0} where
  -- The records of the entries with a key, in their order.
  abbrev pub records_of : Text → List (LogAdapter F) → List (LogRecord F)
  records_of k [] = []
  records_of k (e ∷ es) =
      if text_eq e.get_resource_key k then e.to_otel ∷ records_of k es else records_of k es

  -- The records that the groups have under a key.
  abbrev pub grouped : Text → List (ResourceGroup F) → List (LogRecord F)
  grouped k [] = []
  grouped k (g ∷ gs) = if text_eq g.key k then g.log_records ++ grouped k gs else grouped k gs

  abbrev pub keys : List (ResourceGroup F) → List Text
  keys [] = []
  keys (g ∷ gs) = g.key ∷ keys gs

  grouped-absent :
      (k : Text) (gs : List (ResourceGroup F)) → mem k (keys gs) ≡ false → grouped k gs ≡ []
  unfolding mem
  grouped-absent k [] h = refl
  grouped-absent k (g ∷ gs) h =
      ground (arith, text_eq_iff g.key k, text_eq_iff k g.key, grouped-absent k gs)

  mem-add_entry :
      (stamp : List (Attribute F) → List (Attribute F)) (e : LogAdapter F) (k : Text)
      (gs : List (ResourceGroup F))
      → text_eq k e.get_resource_key ≡ false
      → mem k (keys (add_entry stamp e gs)) ≡ mem k (keys gs)
  unfolding mem add_entry
  mem-add_entry stamp e k [] h = rw (h) refl
  mem-add_entry stamp e k (g ∷ gs) h = ground (arith, mem-add_entry stamp e k gs h)

  nodup-add_entry :
      (stamp : List (Attribute F) → List (Attribute F)) (e : LogAdapter F)
      (gs : List (ResourceGroup F))
      → nodup (keys gs) ≡ true
      → nodup (keys (add_entry stamp e gs)) ≡ true
  unfolding mem nodup add_entry
  nodup-add_entry stamp e [] h = refl
  nodup-add_entry stamp e (g ∷ gs) h =
      ground (arith, nodup-add_entry stamp e gs, mem-add_entry stamp e g.key gs)

  nodup-tail :
      (g : ResourceGroup F) (gs : List (ResourceGroup F))
      → nodup (keys (g ∷ gs)) ≡ true
      → nodup (keys gs) ≡ true
  unfolding nodup
  nodup-tail g gs h = ground arith

  absent :
      (g : ResourceGroup F) (gs : List (ResourceGroup F))
      → nodup (keys (g ∷ gs)) ≡ true
      → mem g.key (keys gs) ≡ false
  unfolding nodup
  absent g gs h = ground arith

  grouped-hit :
      (e : LogAdapter F) (k : Text) (g : ResourceGroup F) (gs : List (ResourceGroup F))
      → nodup (keys (g ∷ gs)) ≡ true
      → g.key ≡ e.get_resource_key
      → grouped k (with_record g e.to_otel ∷ gs) ≡ grouped k (g ∷ gs) ++ records_of k (e ∷ [])
  grouped-hit e k g gs h q = elim (Bool-cases (text_eq g.key k)) [
    | inl p ↦
        rw
          (
            sym q,
            p,
            subst (λ j. grouped j gs ≡ []) ((text_eq_iff g.key k).0 p)
                (grouped-absent g.key gs (absent g gs h)),
            append-nil g.log_records,
            append-nil (g.log_records ++ e.to_otel ∷ []),
          )
          refl
    | inr p ↦ rw (sym q, p, append-nil (grouped k gs)) refl
  ]

  grouped-miss :
      (stamp : List (Attribute F) → List (Attribute F)) (e : LogAdapter F) (k : Text)
      (g : ResourceGroup F) (gs : List (ResourceGroup F))
      → grouped k (add_entry stamp e gs) ≡ grouped k gs ++ records_of k (e ∷ [])
      → grouped k (g ∷ add_entry stamp e gs) ≡ grouped k (g ∷ gs) ++ records_of k (e ∷ [])
  grouped-miss stamp e k g gs ih = elim (Bool-cases (text_eq g.key k)) [
    | inl p ↦ rw (p, ih, append_assoc g.log_records (grouped k gs) (records_of k (e ∷ []))) refl
    | inr p ↦ rw (p, ih) refl
  ]

  grouped-add_entry :
      (stamp : List (Attribute F) → List (Attribute F)) (e : LogAdapter F) (k : Text)
      (gs : List (ResourceGroup F))
      → nodup (keys gs) ≡ true
      → grouped k (add_entry stamp e gs) ≡ grouped k gs ++ records_of k (e ∷ [])
  unfolding add_entry
  grouped-add_entry stamp e k [] h = refl
  grouped-add_entry stamp e k (g ∷ gs) h = elim (Bool-cases (text_eq g.key e.get_resource_key)) [
    | inl p ↦ rw (p) (grouped-hit e k g gs h ((text_eq_iff g.key e.get_resource_key).0 p))
    | inr p ↦
        rw (p) (grouped-miss stamp e k g gs (grouped-add_entry stamp e k gs (nodup-tail g gs h)))
  ]

  nodup-group_entries :
      (stamp : List (Attribute F) → List (Attribute F)) (es : List (LogAdapter F))
      (gs : List (ResourceGroup F))
      → nodup (keys gs) ≡ true
      → nodup (keys (group_entries stamp es gs)) ≡ true
  unfolding group_entries
  nodup-group_entries stamp [] gs h = h
  nodup-group_entries stamp (e ∷ es) gs h =
      nodup-group_entries stamp es (add_entry stamp e gs) (nodup-add_entry stamp e gs h)

  records_of-cons :
      (k : Text) (e : LogAdapter F) (es : List (LogAdapter F))
      → records_of k (e ∷ es) ≡ records_of k (e ∷ []) ++ records_of k es
  records_of-cons k e es = ground arith

  grouped-into :
      (stamp : List (Attribute F) → List (Attribute F)) (k : Text) (es : List (LogAdapter F))
      (gs : List (ResourceGroup F))
      → nodup (keys gs) ≡ true
      → grouped k (group_entries stamp es gs) ≡ grouped k gs ++ records_of k es
  unfolding group_entries
  grouped-into stamp k [] gs h = rw (append-nil (grouped k gs)) refl
  grouped-into stamp k (e ∷ es) gs h =
      grouped-into stamp k es (add_entry stamp e gs) (nodup-add_entry stamp e gs h)
      ∙ rw
          (
            grouped-add_entry stamp e k gs h,
            records_of-cons k e es,
            append_assoc (grouped k gs) (records_of k (e ∷ [])) (records_of k es),
          )
          refl

  -- SendLogs puts the record of every entry in the one group of its resource key: no two groups
  -- have the same key, and under each key stand the records of that key's entries, in their order.
  pub group_entries-grouped :
      (stamp : List (Attribute F) → List (Attribute F)) (es : List (LogAdapter F))
      → (nodup (keys (group_entries stamp es [])) ≡ true)
        × ((k : Text) → grouped k (group_entries stamp es []) ≡ records_of k es)
  unfolding nodup
  group_entries-grouped stamp es =
      (nodup-group_entries stamp es [] refl, λ k. grouped-into stamp k es [] refl)
