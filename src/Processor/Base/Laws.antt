-- ===== src/Processor/Base/Laws.antt =====
-- What the pool of pkg/processor/base.go makes of the items of an object, under every schedule
use mathlib.Core.Path.{subst}
use mathlib.Core.List.Perm
use mathlib.Core.List.{Perm, filter_map, append-nil}
use otel_aws_log_processor.Prelude.{
  ℕ, zero, suc, ◌+◌, ◌*◌, ◌<◌, ◌≤◌, ◌≡◌, ap, refl, inl, inr, ◌⊎◌, Bool, true, false, List, [], ◌∷◌,
  ◌++◌, Option, length, length-append, if◌then◌else◌, arith, Bool-cases,
}
use otel_aws_log_processor.License.Error.{Error}
use otel_aws_log_processor.Processor.Base.{
  PoolLimits, num_workers, sent_for, Pool, start_pool, PoolStep, put, hand, close_lines, fetch,
  finish, put_entry, pass, collect, leave, close_results, done, PoolReach, ReadAndParse, unopened,
  parsed,
}
use otel_aws_log_processor.Processor.Base.Invariant.{Handles, PoolReach-Handles, sent_for-short}

num_workers-positive : (l : PoolLimits) → 0 < num_workers l
unfolding num_workers
num_workers-positive l = ground arith

List-cases : {C : Type 0} (xs : List C) → (xs ≡ []) ⊎ ((x : C) × (ys : List C) × (xs ≡ x ∷ ys))
List-cases [] = inl refl
List-cases (x ∷ xs) = inr (x, xs, refl)

no_items : {C : Type 0} (xs : List C) → length xs ≤ 0 → xs ≡ []
no_items [] h = refl
no_items (x ∷ xs) h = ground (arith, h)

abbrev open_flag : Bool → ℕ
open_flag b = if b then 0 else 1

module _ {A B : Type 0} where
  -- When the call returns, all items are handled and no entry is on its way.
  returned-Perm :
      (workers : ℕ) (parse : A → Option B) (items : List A) (t : Pool A B)
      → 0 < workers
      → Handles workers parse items t
      → t.returned ≡ true
      → Perm t.entries (filter_map parse items)
  returned-Perm w parse items t z h r =
      let (closed, no_results) = h.all_collected r in
      let gone = h.all_left closed in
      let (lines_closed, no_lines) : (t.lines_closed ≡ true) × (t.lines ≡ []) = elim h.drained [
        | inl a ↦ ground (arith, a, gone, z)
        | inr q ↦ q
      ] in
      let no_busy = no_items t.busy (ground (arith, h.room, gone)) in
      let no_sending = no_items t.sending (ground (arith, h.room, gone)) in
      let all_handled : Perm h.handled (h.handled ++ (t.busy ++ (t.lines ++ t.unread))) =
        rw (no_busy, no_lines, h.all_read lines_closed, append-nil h.handled)
          (Perm.refl h.handled) in
      let all_sent : Perm t.entries (t.entries ++ (t.results ++ t.sending)) =
        rw (no_results, no_sending, append-nil t.entries) (Perm.refl t.entries) in
      Perm.trans all_sent
        (Perm.trans h.out (Perm.filter_map parse (Perm.trans all_handled h.whole)))

  -- Whatever the schedule of the reader, the workers and the collecting call, the call returns the
  -- entries of all items that were read, each exactly as often, with the error that ended the
  -- reading.
  pub ReadAndParse-parses_all :
      (l : PoolLimits) (parse : A → Option B) (items : List A) (err : Option Error)
      (r : List B × Option Error)
      → ReadAndParse l parse (inr (items, err)) r
      → Perm r.0 (filter_map parse items) × (r.1 ≡ err)
  ReadAndParse-parses_all l parse items err _ (unopened e q) = ground (arith, q)
  ReadAndParse-parses_all l parse items err _ (parsed size items' err' t _ q reach d) =
      let same : items' ≡ items = ground (arith, q) in
      let same_error : err' ≡ err = ground (arith, q) in
      (
        subst (λ xs. Perm t.entries (filter_map parse xs)) same
            (returned-Perm (num_workers l) parse items' t (num_workers-positive l)
              (PoolReach-Handles (num_workers l) size parse items' reach) d),
        same_error,
      )

  -- The steps that are left at most
  abbrev pub work : Pool A B → ℕ
  work s =
      5 * length s.unread
      + 4 * length s.lines
      + 3 * length s.busy
      + 2 * length s.sending
      + length s.results
      + s.active
      + open_flag s.lines_closed
      + open_flag s.results_closed
      + open_flag s.returned

  abbrev pub CanStep : ℕ → (A → Option B) → Pool A B → Type 0
  CanStep size parse s = (t : Pool A B) × PoolStep size parse s t

  PoolStep-work :
      (size : ℕ) (parse : A → Option B) {s t : Pool A B} → PoolStep size parse s t → work t < work s
  PoolStep-work size parse {s} (put x xs e _) =
      ground (arith, ap length e, length-append s.lines (x ∷ []))
  PoolStep-work size parse {s} (hand x xs e _ _) =
      ground (arith, ap length e, length-append s.busy (x ∷ []))
  PoolStep-work size parse {s} (close_lines e c) = ground (arith, c)
  PoolStep-work size parse {s} (fetch x xs e _) =
      ground (arith, ap length e, length-append s.busy (x ∷ []))
  PoolStep-work size parse {s} (finish b x a e) = ground (
    arith,
    ap length e,
    length-append b (x ∷ a),
    length-append b a,
    length-append s.sending (sent_for parse x),
    sent_for-short parse x,
  )
  PoolStep-work size parse {s} (put_entry b y a e _) = ground (
    arith,
    ap length e,
    length-append b (y ∷ a),
    length-append b a,
    length-append s.results (y ∷ []),
  )
  PoolStep-work size parse {s} (pass b y a e _ _) =
      ground (arith, ap length e, length-append b (y ∷ a), length-append b a)
  PoolStep-work size parse {s} (collect y es e _) = ground (arith, ap length e)
  PoolStep-work size parse {s} (leave n _ _ a _) = ground (arith, a)
  PoolStep-work size parse {s} (close_results _ c) = ground (arith, c)
  PoolStep-work size parse {s} (done _ _ r) = ground (arith, r)

  -- With nothing to do for a worker, the channels are closed one after the other.
  closing :
      (workers size : ℕ) (parse : A → Option B) (items : List A) (s : Pool A B)
      → Handles workers parse items s
      → s.returned ≡ false
      → s.results ≡ []
      → s.sending ≡ []
      → s.busy ≡ []
      → s.lines ≡ []
      → s.unread ≡ []
      → CanStep size parse s
  closing w size parse items s h r nr ns nb nl nu = elim (Bool-cases s.lines_closed) [
    | inr c ↦ (_, close_lines nu c)
    | inl c ↦ elim (Bool-cases s.results_closed) [
      | inl c' ↦ (_, done nr c' r)
      | inr c' ↦ leaving s.active refl c c'
    ]
  ]
    where
      leaving :
          (n : ℕ)
          → s.active ≡ n
          → s.lines_closed ≡ true
          → s.results_closed ≡ false
          → CanStep size parse s
      leaving zero a c c' = (_, close_results a c')
      leaving (suc n) a c c' = (_, leave n nl c a (ground (arith, ap length nb, ap length ns)))

  still_active :
      (workers : ℕ) (parse : A → Option B) (items : List A) (s : Pool A B)
      → 0 < workers
      → Handles workers parse items s
      → ((s.lines_closed ≡ true) × (s.lines ≡ []) → 0 < s.active)
      → 0 < s.active
  still_active w parse items s z h k = elim h.drained [ inl a ↦ ground (arith, a, z) | inr q ↦ k q ]

  progress :
      (workers size : ℕ) (parse : A → Option B) (items : List A) (s : Pool A B)
      → 0 < workers
      → Handles workers parse items s
      → s.returned ≡ false
      → CanStep size parse s
  progress w size parse items s z h r = elim (List-cases s.results) [
    | inr (e, es, p) ↦ (_, collect e es p r)
    | inl nr ↦ elim (List-cases s.sending) [
      | inr (e, es, p) ↦ (_, pass [] e es p nr r)
      | inl ns ↦ elim (List-cases s.busy) [
        | inr (x, xs, p) ↦ (_, finish [] x xs p)
        | inl nb ↦ elim (List-cases s.lines) [
          | inr (x, xs, p) ↦ (
            _,
            fetch x xs p (
                let a = still_active w parse items s z h (λ q. ground (arith, q.1, p)) in
                ground (arith, a, ap length nb, ap length ns)),
          )
          | inl nl ↦ elim (List-cases s.unread) [
            | inr (x, xs, p) ↦ (
              _,
              hand x xs p nl (
                  let a =
                    still_active w parse items s z h (λ q. ground (arith, h.all_read q.0, p)) in
                  ground (arith, a, ap length nb, ap length ns)),
            )
            | inl nu ↦ closing w size parse items s h r nr ns nb nl nu
          ]
        ]
      ]
    ]
  ]

  -- Under every schedule, a call that has not returned can always go on, so that the reader, the
  -- workers and the collecting call never wait for one another in a circle; and every step lowers
  -- a measure, so that the call returns. It is so for channels without places, too.
  pub pool-ends :
      (l : PoolLimits) (size : ℕ) (parse : A → Option B) (items : List A) (s : Pool A B)
      → PoolReach size parse (start_pool (num_workers l) items) s
      → ((s.returned ≡ true) ⊎ CanStep size parse s)
        × ((t : Pool A B) → PoolStep size parse s t → work t < work s)
  pool-ends l size parse items s reach = (
    elim (Bool-cases s.returned) [
      | inl r ↦ inl r
      | inr r ↦ inr (
          progress (num_workers l) size parse items s (num_workers-positive l)
            (PoolReach-Handles (num_workers l) size parse items reach) r)
    ],
    λ t x. PoolStep-work size parse x,
  )
