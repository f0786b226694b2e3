-- ===== src/Sender/Retry/Laws.antt =====
-- What sendWithRetry of pkg/sender/otlp_client.go makes of the replies of the endpoint.
use mathlib.Core.Path.{subst}
use otel_aws_log_processor.Prelude.{
  ℕ, zero, suc, ◌+◌, ◌≤◌, ◌<◌, ◌≡◌, refl, Bool, true, false, Option, none, some, arith, inl, inr,
  ◌⊎◌,
}
use otel_aws_log_processor.Prelude.Int.{pos, negsuc}
use otel_aws_log_processor.Sender.Retry.{
  Reply, network_error, http, Outcome, delivered, rejected, exhausted, Trace, is_retryable_status,
  is_success_status, retry_after, on_reply, attempts, send_with_retry,
}

-- What a reply decides: `none` for one that is tried again.
abbrev pub verdict : Reply → Option Outcome
verdict network_error = none
verdict (http status header) = elim (is_success_status status) [
  | true ↦ some delivered
  | false ↦ elim (is_retryable_status status) [ true ↦ none | false ↦ some (rejected status) ]
]

abbrev hint : Reply → ℕ
hint network_error = 0
hint (http status header) = retry_after header

abbrev pub Ends : Trace → Outcome → ℕ → Type 0
Ends t o n = (t.outcome ≡ o) × (t.requests ≡ n)

module _ (base_ms : ℕ) (is_done : ℕ → Bool) (reply : ℕ → Reply) where
  abbrev run : ℕ → ℕ → ℕ → Trace
  run left attempt next = attempts base_ms is_done reply left attempt next

  -- The attempt is made, and its reply is tried again.
  abbrev pub IsRetried : ℕ → Type 0
  IsRetried j = (is_done j ≡ false) × (verdict (reply j) ≡ none)

  on_reply-retried :
      (r : Reply) (again : ℕ → Trace) (o : Outcome) (n : ℕ)
      → verdict r ≡ none
      → Ends (again (hint r)) o n
      → Ends (on_reply base_ms is_done reply r again) o (suc n)
  unfolding on_reply is_retryable_status
  on_reply-retried r again o n h e = ground arith

  on_reply-final :
      (r : Reply) (again : ℕ → Trace) (o : Outcome)
      → verdict r ≡ some o
      → Ends (on_reply base_ms is_done reply r again) o 1
  unfolding on_reply is_retryable_status
  on_reply-final r again o h = ground arith

  attempts-step :
      (left attempt next : ℕ) (o : Outcome) (n : ℕ)
      → is_done attempt ≡ false
      → Ends (on_reply base_ms is_done reply (reply attempt) (run left (attempt + 1))) o n
      → Ends (run (suc left) attempt next) o n
  unfolding attempts
  attempts-step left attempt next o n d e = ground arith

  at_start : (a : ℕ) → a + 0 ≡ a
  at_start a = omega arith

  from_zero : (a : ℕ) → 0 + a ≡ a
  from_zero a = omega arith

  shift : (a k : ℕ) → a + suc k ≡ a + 1 + k
  shift a k = omega arith

  later :
      (a k : ℕ)
      → ((j : ℕ) → j < suc k → IsRetried (a + j))
      → (j : ℕ) → j < k
      → IsRetried (a + 1 + j)
  later a k h j l = subst IsRetried (shift a j) (h (suc j) (omega arith))

  first : (a k : ℕ) → ((j : ℕ) → j < suc k → IsRetried (a + j)) → IsRetried a
  first a k h = subst IsRetried (at_start a) (h 0 (omega arith))

  attempts-Ends :
      (k left a next : ℕ) (o : Outcome)
      → k < left
      → ((j : ℕ) → j < k → IsRetried (a + j))
      → is_done (a + k) ≡ false
      → verdict (reply (a + k)) ≡ some o
      → Ends (run left a next) o (suc k)
  attempts-Ends k zero a next o l h d v = absurd (omega arith)
  attempts-Ends zero (suc left) a next o l h d v =
      attempts-step left a next o 1 (subst (λ i. is_done i ≡ false) (at_start a) d) (
        on_reply-final (reply a) (run left (a + 1)) o
          (subst (λ i. verdict (reply i) ≡ some o) (at_start a) v))
  attempts-Ends (suc k) (suc left) a next o l h d v =
      attempts-step left a next o (suc (suc k)) (first a k h).0 (
        on_reply-retried (reply a) (run left (a + 1)) o (suc k) (first a k h).1 (
          attempts-Ends k left (a + 1) (hint (reply a)) o (omega arith) (later a k h)
            (subst (λ i. is_done i ≡ false) (shift a k) d)
            (subst (λ i. verdict (reply i) ≡ some o) (shift a k) v)))

  attempts-exhausted :
      (left a next : ℕ)
      → ((j : ℕ) → j < left → IsRetried (a + j))
      → Ends (run left a next) exhausted left
  unfolding attempts
  attempts-exhausted zero a next h = (refl, refl)
  attempts-exhausted (suc left) a next h =
      attempts-step left a next exhausted (suc left) (first a left h).0 (
        on_reply-retried (reply a) (run left (a + 1)) exhausted left (first a left h).1
          (attempts-exhausted left (a + 1) (hint (reply a)) (later a left h)))

  -- If attempt `k` is the first whose reply is not tried again, then the call ends with what that
  -- reply decides (delivered for a 2xx, rejected for another status that is not retryable), after
  -- `k + 1` requests and no more; the context is not done at any of these attempts.
  pub send_with_retry-first_final :
      (k max_retries : ℕ) (o : Outcome)
      → k ≤ max_retries
      → ((j : ℕ) → j < k → IsRetried j)
      → is_done k ≡ false
      → verdict (reply k) ≡ some o
      → Ends (send_with_retry base_ms is_done reply (pos max_retries)) o (suc k)
  unfolding send_with_retry
  send_with_retry-first_final k n o l h d v =
      attempts-Ends k (suc n) 0 0 o (omega arith) (λ j i. rw (from_zero j) (h j i))
        (rw (from_zero k) d) (rw (from_zero k) v)

  -- If every attempt's reply is tried again, the call makes MaxRetries + 1 requests and gives up.
  pub send_with_retry-exhausted :
      (max_retries : ℕ)
      → ((j : ℕ) → j ≤ max_retries → IsRetried j)
      → Ends (send_with_retry base_ms is_done reply (pos max_retries)) exhausted (suc max_retries)
  unfolding send_with_retry
  send_with_retry-exhausted n h =
      attempts-exhausted (suc n) 0 0 (λ j l. rw (from_zero j) (h j (omega arith)))

  on_reply-requests :
      (r : Reply) (again : ℕ → Trace) (n : ℕ)
      → ((next : ℕ) → (again next).requests ≤ n)
      → (on_reply base_ms is_done reply r again).requests ≤ suc n
  unfolding on_reply is_retryable_status
  on_reply-requests network_error again n h = omega (arith, h 0)
  on_reply-requests (http status header) again n h = ground (arith, h (retry_after header))

  attempts-requests : (left a next : ℕ) → (run left a next).requests ≤ left
  unfolding attempts
  attempts-requests zero a next = omega arith
  attempts-requests (suc left) a next = ground (
    arith,
    on_reply-requests (reply a) (run left (a + 1)) left (λ n. attempts-requests left (a + 1) n),
  )

  -- A call makes at most MaxRetries + 1 requests, and none if MaxRetries is negative.
  send_with_retry-requests :
      (max_retries : ℕ) (n : ℕ)
      → ((send_with_retry base_ms is_done reply (pos max_retries)).requests ≤ suc max_retries)
        × ((send_with_retry base_ms is_done reply (negsuc n)).requests ≡ 0)
  unfolding send_with_retry
  send_with_retry-requests m n = (attempts-requests (suc m) 0 0, refl)

  on_reply-delivered :
      (r : Reply) (again : ℕ → Trace)
      → (on_reply base_ms is_done reply r again).outcome ≡ delivered
      → (verdict r ≡ some delivered) ⊎ ((verdict r ≡ none) × ((again (hint r)).outcome ≡ delivered))
  unfolding on_reply is_retryable_status
  on_reply-delivered r again h = ground arith

  -- The attempt at which a delivery happens.
  pub record DeliveredAt (attempt left requests : ℕ) : Type 0 where
    pub index : ℕ
    pub in_time : index < left
    pub earlier : (j : ℕ) → j < index → IsRetried (attempt + j)
    pub accepted : verdict (reply (attempt + index)) ≡ some delivered
    pub counted : requests ≡ suc index

  go_first :
      (left attempt next : ℕ)
      → (run (suc left) attempt next).outcome ≡ delivered
      → (is_done attempt ≡ false)
        × ((on_reply base_ms is_done reply (reply attempt) (run left (attempt + 1))).outcome
            ≡ delivered)
  unfolding attempts
  go_first left attempt next h = ground arith

  cases_before :
      (a k : ℕ)
      → IsRetried a
      → ((j : ℕ) → j < k → IsRetried (a + 1 + j))
      → (j : ℕ) → j < suc k
      → IsRetried (a + j)
  cases_before a k h hs zero l = rw (at_start a) h
  cases_before a k h hs (suc j) l = rw (shift a j) (hs j (omega arith))

  attempts-delivered :
      (left a next : ℕ)
      → (run left a next).outcome ≡ delivered
      → DeliveredAt a left (run left a next).requests
  unfolding attempts
  attempts-delivered zero a next h = ground arith
  attempts-delivered (suc left) a next h =
      let (d, e) = go_first left a next h in
      elim (on_reply-delivered (reply a) (run left (a + 1)) e) [
        | inl v ↦ record {
          index = 0;
          in_time = omega arith;
          earlier = λ j l. absurd (omega arith);
          accepted = rw (at_start a) v;
          counted =
              (attempts-step left a next delivered 1 d
                (on_reply-final (reply a) (run left (a + 1)) delivered v)).1;
        }
        | inr (v, e') ↦
            let r = attempts-delivered left (a + 1) (hint (reply a)) e' in
            record {
              index = suc r.index;
              in_time = omega (arith, r.in_time);
              earlier = cases_before a r.index (d, v) r.earlier;
              accepted = rw (shift a r.index) r.accepted;
              counted =
                  (attempts-step left a next delivered (suc (suc r.index)) d (
                    on_reply-retried (reply a) (run left (a + 1)) delivered (suc r.index) v
                      (e', r.counted))).1;
            }
      ]

  -- A delivery that is reported was accepted: some attempt up to MaxRetries had a 2xx reply, every
  -- earlier reply was one to try again, and no request was made after it.
  pub send_with_retry-delivered :
      (max_retries : ℕ)
      → (send_with_retry base_ms is_done reply (pos max_retries)).outcome ≡ delivered
      → DeliveredAt 0
          (suc max_retries)
          (send_with_retry base_ms is_done reply (pos max_retries)).requests
  unfolding send_with_retry
  send_with_retry-delivered n h = attempts-delivered (suc n) 0 0 h
