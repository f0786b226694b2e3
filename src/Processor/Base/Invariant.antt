-- ===== src/Processor/Base/Invariant.antt =====
-- What stays true of the pool of pkg/processor/base.go, under every schedule
use mathlib.Core.Path.{subst}
use mathlib.Core.List.Perm
use mathlib.Core.List.{Perm, perm_middle, filter_map, append_assoc}
use otel_aws_log_processor.Prelude.{
  ℕ, ◌≤◌, ◌≡◌, ◌∙◌, ap, refl, sym, inl, inr, ◌⊎◌, true, List, [], ◌∷◌, ◌++◌, Option, length,
  length-append, arith, Option-cases,
}
use otel_aws_log_processor.Processor.Base.{
  sent_for, Pool, start_pool, occupied, PoolStep, put, hand, close_lines, fetch, finish, put_entry,
  pass, collect, leave, close_results, done, PoolReach, here, next,
}
use otel_aws_log_processor.Sender.Dispatch.Accounts.{to_sent}

moved :
    {B : Type 0} (xs b a : List B) (y : B) → Perm ((xs ++ y ∷ []) ++ (b ++ a)) (xs ++ (b ++ y ∷ a))
moved xs b a y =
    rw (append_assoc xs (y ∷ []) (b ++ a)) (Perm.append_left xs (Perm.symm (perm_middle b a)))

module _ {A B : Type 0} where
  -- The items that are handled gave the entries. Workers leave, and channels are closed, only when
  -- nothing more can come.
  pub record Handles (workers : ℕ) (parse : A → Option B) (items : List A) (s : Pool A B)
      : Type 0 where
    pub handled : List A
    pub whole : Perm (handled ++ (s.busy ++ (s.lines ++ s.unread))) items
    pub out : Perm (s.entries ++ (s.results ++ s.sending)) (filter_map parse handled)
    pub all_read : s.lines_closed ≡ true → s.unread ≡ []
    pub room : occupied s ≤ s.active
    pub drained : (s.active ≡ workers) ⊎ ((s.lines_closed ≡ true) × (s.lines ≡ []))
    pub all_left : s.results_closed ≡ true → s.active ≡ 0
    pub all_collected : s.returned ≡ true → (s.results_closed ≡ true) × (s.results ≡ [])

  filter_map-snoc :
      (parse : A → Option B) (xs : List A) (x : A)
      → filter_map parse xs ++ sent_for parse x ≡ filter_map parse (xs ++ x ∷ [])
  unfolding filter_map
  filter_map-snoc parse [] x = elim (Option-cases (parse x)) [
    | inl p ↦ ground (arith, p)
    | inr (e, p) ↦ ground (arith, p)
  ]
  filter_map-snoc parse (y ∷ ys) x = elim (Option-cases (parse y)) [
    | inl p ↦ rw (p) (filter_map-snoc parse ys x)
    | inr (e, p) ↦ rw (p) (ap (λ zs. e ∷ zs) (filter_map-snoc parse ys x))
  ]

  pub sent_for-short : (parse : A → Option B) (x : A) → length (sent_for parse x) ≤ 1
  sent_for-short parse x = ground arith

  PoolStep-Handles :
      (workers size : ℕ) (parse : A → Option B) (items : List A) {s t : Pool A B}
      → Handles workers parse items s
      → PoolStep size parse s t
      → Handles workers parse items t
  PoolStep-Handles w size parse items {s} h (put x xs e _) = record {
    handled = h.handled;
    whole =
        rw (append_assoc s.lines (x ∷ []) xs)
          (subst (λ ys. Perm (h.handled ++ (s.busy ++ (s.lines ++ ys))) items) e h.whole);
    out = h.out;
    all_read = λ c. ground (arith, h.all_read c, e);
    room = h.room;
    drained = elim h.drained [ inl a ↦ inl a | inr (c, z) ↦ ground (arith, h.all_read c, e) ];
    all_left = h.all_left;
    all_collected = h.all_collected;
  }
  PoolStep-Handles w size parse items {s} h (hand x xs e c l) = record {
    handled = h.handled;
    whole =
        rw (append_assoc s.busy (x ∷ []) (s.lines ++ xs), c)
          (subst (λ ys. Perm (h.handled ++ (s.busy ++ ys)) items) (ap (λ ys. ys ++ s.unread) c ∙ e)
            h.whole);
    out = h.out;
    all_read = λ c'. ground (arith, h.all_read c', e);
    room = ground (arith, l, length-append s.busy (x ∷ []));
    drained = h.drained;
    all_left = h.all_left;
    all_collected = h.all_collected;
  }
  PoolStep-Handles w size parse items {s} h (close_lines e c) = record {
    handled = h.handled;
    whole = h.whole;
    out = h.out;
    all_read = λ c'. e;
    room = h.room;
    drained = elim h.drained [ inl a ↦ inl a | inr (c', z) ↦ ground (arith, c, c') ];
    all_left = h.all_left;
    all_collected = h.all_collected;
  }
  PoolStep-Handles w size parse items {s} h (fetch x xs e l) = record {
    handled = h.handled;
    whole =
        rw (append_assoc s.busy (x ∷ []) (xs ++ s.unread))
          (subst (λ ys. Perm (h.handled ++ (s.busy ++ (ys ++ s.unread))) items) e h.whole);
    out = h.out;
    all_read = h.all_read;
    room = ground (arith, l, length-append s.busy (x ∷ []));
    drained = elim h.drained [ inl a ↦ inl a | inr (c, z) ↦ ground (arith, z, e) ];
    all_left = h.all_left;
    all_collected = h.all_collected;
  }
  PoolStep-Handles w size parse items {s} h (finish b x a e) = record {
    handled = h.handled ++ x ∷ [];
    whole =
        Perm.trans (to_sent h.handled b a (s.lines ++ s.unread) x)
          (subst (λ ys. Perm (h.handled ++ (ys ++ (s.lines ++ s.unread))) items) e h.whole);
    out =
        rw
          (
            sym (append_assoc s.results s.sending (sent_for parse x)),
            sym (append_assoc s.entries (s.results ++ s.sending) (sent_for parse x)),
            sym (filter_map-snoc parse h.handled x),
          )
          (Perm.append_right (sent_for parse x) h.out);
    all_read = h.all_read;
    room = ground (
      arith,
      h.room,
      ap length e,
      length-append b (x ∷ a),
      length-append b a,
      length-append s.sending (sent_for parse x),
      sent_for-short parse x,
    );
    drained = h.drained;
    all_left = h.all_left;
    all_collected = h.all_collected;
  }
  PoolStep-Handles w size parse items {s} h (put_entry b y a e l) = record {
    handled = h.handled;
    whole = h.whole;
    out =
        Perm.trans (Perm.append_left s.entries (moved s.results b a y)) (
          subst (λ ys. Perm (s.entries ++ (s.results ++ ys)) (filter_map parse h.handled)) e h.out);
    all_read = h.all_read;
    room = ground (arith, h.room, ap length e, length-append b (y ∷ a), length-append b a);
    drained = h.drained;
    all_left = h.all_left;
    all_collected = λ r.
        ground
          (arith, h.room, ap length e, length-append b (y ∷ a), h.all_left (h.all_collected r).0);
  }
  PoolStep-Handles w size parse items {s} h (pass b y a e n r) = record {
    handled = h.handled;
    whole = h.whole;
    out = rw (n) (
        Perm.trans (moved s.entries b a y) (
          subst (λ ys. Perm (s.entries ++ ys) (filter_map parse h.handled))
            (ap (λ ys. ys ++ s.sending) n ∙ e) h.out));
    all_read = h.all_read;
    room = ground (arith, h.room, ap length e, length-append b (y ∷ a), length-append b a);
    drained = h.drained;
    all_left = h.all_left;
    all_collected = h.all_collected;
  }
  PoolStep-Handles w size parse items {s} h (collect y es e r) = record {
    handled = h.handled;
    whole = h.whole;
    out =
        rw (append_assoc s.entries (y ∷ []) (es ++ s.sending)) (
          subst (λ ys. Perm (s.entries ++ (ys ++ s.sending)) (filter_map parse h.handled)) e h.out);
    all_read = h.all_read;
    room = h.room;
    drained = h.drained;
    all_left = h.all_left;
    all_collected = λ r'. ground (arith, r, r');
  }
  PoolStep-Handles w size parse items {s} h (leave n e c a l) = record {
    handled = h.handled;
    whole = h.whole;
    out = h.out;
    all_read = h.all_read;
    room = l;
    drained = inr (c, e);
    all_left = λ c'. ground (arith, h.all_left c', a);
    all_collected = h.all_collected;
  }
  PoolStep-Handles w size parse items {s} h (close_results a c) = record {
    handled = h.handled;
    whole = h.whole;
    out = h.out;
    all_read = h.all_read;
    room = h.room;
    drained = h.drained;
    all_left = λ c'. a;
    all_collected = λ r. (refl, (h.all_collected r).1);
  }
  PoolStep-Handles w size parse items {s} h (done e c r) = record {
    handled = h.handled;
    whole = h.whole;
    out = h.out;
    all_read = h.all_read;
    room = h.room;
    drained = h.drained;
    all_left = h.all_left;
    all_collected = λ r'. (c, e);
  }

  pub PoolReach-Handles :
      (workers size : ℕ) (parse : A → Option B) (items : List A) {t : Pool A B}
      → PoolReach size parse (start_pool workers items) t
      → Handles workers parse items t
  unfolding filter_map
  PoolReach-Handles w size parse items here = record {
    handled = [];
    whole = Perm.refl items;
    out = Perm.refl [];
    all_read = λ c. ground (arith, c);
    room = omega arith;
    drained = inl refl;
    all_left = λ c. ground (arith, c);
    all_collected = λ c. ground (arith, c);
  }
  PoolReach-Handles w size parse items (next r x) =
      PoolStep-Handles w size parse items (PoolReach-Handles w size parse items r) x
