-- ===== src/Sender/Dispatch/Accounts.antt =====
-- What becomes of the payloads of SendLogs (pkg/sender/otlp_client.go) under every schedule of its
-- workers.
use mathlib.Core.Path.{subst}
use mathlib.Core.List.Perm
use mathlib.Core.List.{Perm, perm_middle, append_assoc, append-nil}
use otel_aws_log_processor.Prelude.{◌≡◌, refl, sym, true, false, ◌||◌, List, [], ◌∷◌, ◌++◌, arith}
use otel_aws_log_processor.Sender.Dispatch.{
  State, Step, Reach, here, next, start, result, success, IsDone, dispatch, leave, deliver, fail,
  abort, expire,
}

module _ {P : Type 0} where
  -- Each payload is delivered, running, waiting or dropped, and only a failure or the end of the
  -- caller's context cancels or drops.
  pub record Accounts (ps : List P) (s : State P) : Type 0 where
    pub dropped : List P
    pub whole : Perm (s.sent ++ (s.running ++ (s.todo ++ dropped))) ps
    pub cause : s.cancelled ≡ true → (s.failed || s.parent_done) ≡ true
    pub no_drop : (s.failed || s.parent_done) ≡ false → dropped ≡ []

  -- One element taken out of the middle of the running ones.
  pull :
      (sent b a rest : List P) (p : P)
      → Perm (sent ++ ((b ++ p ∷ a) ++ rest)) (p ∷ (sent ++ ((b ++ a) ++ rest)))
  pull sent b a rest p =
      Perm.trans (Perm.append_left sent (Perm.append_right rest (perm_middle b a)))
        (perm_middle sent ((b ++ a) ++ rest))

  pub to_sent :
      (sent b a rest : List P) (p : P)
      → Perm ((sent ++ p ∷ []) ++ ((b ++ a) ++ rest)) (sent ++ ((b ++ p ∷ a) ++ rest))
  to_sent sent b a rest p =
      let moved : Perm (sent ++ p ∷ ((b ++ a) ++ rest)) (sent ++ ((b ++ p ∷ a) ++ rest)) =
        Perm.trans (perm_middle sent ((b ++ a) ++ rest)) (Perm.symm (pull sent b a rest p)) in
      rw (append_assoc sent (p ∷ []) ((b ++ a) ++ rest)) moved

  to_dropped :
      (sent b a todo d : List P) (p : P)
      → Perm (sent ++ ((b ++ a) ++ (todo ++ p ∷ d))) (sent ++ ((b ++ p ∷ a) ++ (todo ++ d)))
  to_dropped sent b a todo d p = Perm.append_left sent (
      Perm.trans (Perm.append_left (b ++ a) (perm_middle todo d)) (
        Perm.trans (perm_middle (b ++ a) (todo ++ d))
          (Perm.symm (Perm.append_right (todo ++ d) (perm_middle b a)))))

  pub Step-Accounts : (ps : List P) {s t : State P} → Accounts ps s → Step s t → Accounts ps t
  Step-Accounts ps {s} h (dispatch p qs c e) =
      let w = subst (λ xs. Perm (s.sent ++ (s.running ++ (xs ++ h.dropped))) ps) e h.whole in
      record {
        dropped = h.dropped;
        whole = rw (append_assoc s.running (p ∷ []) (qs ++ h.dropped)) w;
        cause = h.cause;
        no_drop = h.no_drop;
      }
  Step-Accounts ps {s} h (leave c) = record {
    dropped = s.todo ++ h.dropped;
    whole = h.whole;
    cause = h.cause;
    no_drop = ground (arith, h.cause c);
  }
  Step-Accounts ps {s} h (deliver b p a e) = record {
    dropped = h.dropped;
    whole = Perm.trans (to_sent s.sent b a (s.todo ++ h.dropped) p) (rw (sym e) h.whole);
    cause = h.cause;
    no_drop = h.no_drop;
  }
  Step-Accounts ps {s} h (fail b p a e) = record {
    dropped = p ∷ h.dropped;
    whole = Perm.trans (to_dropped s.sent b a s.todo h.dropped p) (rw (sym e) h.whole);
    cause = λ c. refl;
    no_drop = ground arith;
  }
  Step-Accounts ps {s} h (abort b p a c e) = record {
    dropped = p ∷ h.dropped;
    whole = Perm.trans (to_dropped s.sent b a s.todo h.dropped p) (rw (sym e) h.whole);
    cause = h.cause;
    no_drop = ground (arith, h.cause c);
  }
  Step-Accounts ps h expire = record {
    dropped = h.dropped;
    whole = h.whole;
    cause = ground arith;
    no_drop = ground arith;
  }

  pub Reach-Accounts : (ps : List P) {s t : State P} → Accounts ps s → Reach s t → Accounts ps t
  Reach-Accounts ps h here = h
  Reach-Accounts ps h (next r x) = Step-Accounts ps (Reach-Accounts ps h r) x

  -- Under every schedule, each payload is delivered, running, waiting or dropped, exactly as often
  -- as the plan has it, so that none is delivered twice; and if no send failed and the caller's
  -- context is not done, then none is dropped and the others are not cancelled.
  pub start-Accounts : (ps : List P) {t : State P} → Reach (start ps) t → Accounts ps t
  unfolding start
  start-Accounts ps r =
      Reach-Accounts ps
        (record {
          dropped = [];
          whole = rw (append-nil ps) (Perm.refl ps);
          cause = ground arith;
          no_drop = λ h. refl;
        })
        r

  no_flags : (t : State P) → result t ≡ success → (t.failed || t.parent_done) ≡ false
  unfolding result
  no_flags t h = ground arith

  -- When all workers are through and SendLogs returns nil, the payloads that were delivered are
  -- those of the plan, each exactly as often: no batch is lost under any schedule.
  pub success-sends_all :
      (ps : List P) (t : State P)
      → Reach (start ps) t
      → IsDone t
      → result t ≡ success
      → Perm t.sent ps
  success-sends_all ps t r d h =
      let acc = start-Accounts ps r in
      let all_sent : Perm t.sent (t.sent ++ (t.running ++ (t.todo ++ acc.dropped))) =
        rw (d.no_running, d.no_todo, acc.no_drop (no_flags t h), append-nil t.sent)
          (Perm.refl t.sent) in
      Perm.trans all_sent acc.whole
