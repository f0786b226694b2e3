-- ===== src/Sender/Dispatch.antt =====
-- The workers of SendLogs in pkg/sender/otlp_client.go, as steps that any schedule may take. The
-- payloads are whatever the plan made; `send` stands for one call of sendWithRetry.
pub mod Accounts
use otel_aws_log_processor.Prelude.{◌≡◌, Bool, true, false, List, [], ◌∷◌, ◌++◌, Option, none, some}

pub record State (P : Type 0) : Type 0 where
  pub todo : List P  -- not dispatched yet
  pub running : List P  -- goroutines that have not returned
  pub sent : List P  -- delivered; totalSent is its length in records
  pub failed : Bool  -- errChan holds an error
  pub parent_done : Bool  -- ctx is done
  pub cancelled : Bool  -- sendCtx is done

pub data Result : Type 0 where
  success send_error context_error : Result

module _ {P : Type 0} where
  unfoldable pub start : List P → State P
  start ps = record {
    todo = ps;
    running = [];
    sent = [];
    failed = false;
    parent_done = false;
    cancelled = false;
  }

  pub data Step (s : State P) : State P → Type 0 where
    -- the select at the loop's head falls through to its default, and a goroutine starts
    dispatch :
        (p : P) (ps : List P)
        → s.cancelled ≡ false
        → s.todo ≡ p ∷ ps
        → Step s (record s { todo = ps; running = s.running ++ p ∷ [] })
    -- break dispatchLoop
    leave : s.cancelled ≡ true → Step s (record s { todo = [] })
    -- sendWithRetry returned nil
    deliver :
        (before : List P) (p : P) (after : List P)
        → s.running ≡ before ++ p ∷ after
        → Step s (record s { running = before ++ after; sent = s.sent ++ p ∷ [] })
    -- sendWithRetry returned an error: it is kept if it is the first, and the others are cancelled
    fail :
        (before : List P) (p : P) (after : List P)
        → s.running ≡ before ++ p ∷ after
        → Step s (record s { running = before ++ after; failed = true; cancelled = true })
    -- the goroutine saw the cancellation before it had the semaphore
    abort :
        (before : List P) (p : P) (after : List P)
        → s.cancelled ≡ true
        → s.running ≡ before ++ p ∷ after
        → Step s (record s { running = before ++ after })
    -- the caller's context ends, and sendCtx with it
    expire : Step s (record s { parent_done = true; cancelled = true })

  pub data Reach (s : State P) : State P → Type 0 where
    here : Reach s s
    next : {t u : State P} → Reach s t → Step t u → Reach s u

  -- What SendLogs returns once wg.Wait() is through.
  unfoldable pub result : State P → Result
  result s = elim s.failed [
    | true ↦ send_error
    | false ↦ elim s.parent_done [ true ↦ context_error | false ↦ success ]
  ]

  pub record IsDone (s : State P) : Type 0 where
    pub no_todo : s.todo ≡ []
    pub no_running : s.running ≡ []
