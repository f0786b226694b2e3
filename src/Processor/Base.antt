-- ===== src/Processor/Base.antt =====
-- pkg/processor/base.go: the pool of goroutines of ReadAndParseFromS3, which ReadAndParseJSONFromS3
-- repeats for JSON values. A reader puts the items of an object into linesChan and closes it; the
-- workers take them out, parse them and put the entries into entriesChan; when all workers are
-- gone it is closed, and the call, which collects the entries, returns. The download, the
-- decompression and the splitting into items are parameters: they give an error, or the finitely
-- many items up to an error. With a negative maxBatchSize making the channels panics.
pub mod Invariant
pub mod Laws
mod Tests
use otel_aws_log_processor.Prelude.{
  ℕ, suc, ◌+◌, ◌<◌, ◌≤◌, ◌≡◌, Bool, true, false, ltb, List, [], ◌∷◌, ◌++◌, Option, none, some, ◌⊎◌,
  inl, inr, if◌then◌else◌, is_empty, length, Text,
}
use otel_aws_log_processor.Prelude.Int.{ℤ, pos, negsuc}
use otel_aws_log_processor.License.Error.{Error}

-- maxBatchSize and maxConcurrent of one call
pub record PoolLimits : Type 0 where
  pub max_batch_size : ℤ
  pub max_concurrent : ℤ

-- At least one worker
unfoldable pub num_workers : PoolLimits → ℕ
num_workers l = elim l.max_concurrent [ pos n ↦ if ltb n 1 then 1 else n | negsuc n ↦ 1 ]

pub record Pool (A B : Type 0) : Type 0 where
  pub unread : List A
  pub lines : List A  -- linesChan
  pub lines_closed : Bool
  pub busy : List A  -- what the workers parse
  pub sending : List B  -- what the workers hold to send
  pub active : ℕ  -- the workers that have not returned
  pub results : List B  -- entriesChan
  pub results_closed : Bool
  pub entries : List B
  pub returned : Bool

module _ {A B : Type 0} where
  -- What a worker sends for an item: nothing where the parser fails or has no entry
  abbrev pub sent_for : (A → Option B) → A → List B
  sent_for parse x = elim (parse x) [ none ↦ [] | some e ↦ e ∷ [] ]

  abbrev pub start_pool : ℕ → List A → Pool A B
  start_pool workers items = record {
    unread = items;
    lines = [];
    lines_closed = false;
    busy = [];
    sending = [];
    active = workers;
    results = [];
    results_closed = false;
    entries = [];
    returned = false;
  }

  -- The workers that are not waiting at linesChan
  abbrev pub occupied : Pool A B → ℕ
  occupied s = length s.busy + length s.sending

  -- `size` is the number of places in each channel.
  pub data PoolStep (size : ℕ) (parse : A → Option B) (s : Pool A B) : Pool A B → Type 0 where
    -- the reader finds a free place in linesChan
    put :
        (x : A) (xs : List A)
        → s.unread ≡ x ∷ xs
        → length s.lines < size
        → PoolStep size parse s (record s { unread = xs; lines = s.lines ++ x ∷ [] })
    -- the reader hands an item to a worker that waits at the empty channel
    hand :
        (x : A) (xs : List A)
        → s.unread ≡ x ∷ xs
        → s.lines ≡ []
        → occupied s < s.active
        → PoolStep size parse s (record s { unread = xs; busy = s.busy ++ x ∷ [] })
    -- close(linesChan)
    close_lines :
        s.unread ≡ []
        → s.lines_closed ≡ false
        → PoolStep size parse s (record s { lines_closed = true })
    -- a worker takes the first item of linesChan
    fetch :
        (x : A) (xs : List A)
        → s.lines ≡ x ∷ xs
        → occupied s < s.active
        → PoolStep size parse s (record s { lines = xs; busy = s.busy ++ x ∷ [] })
    -- a worker has parsed an item
    finish :
        (before : List A) (x : A) (after : List A)
        → s.busy ≡ before ++ x ∷ after
        → PoolStep size parse s
            (record s { busy = before ++ after; sending = s.sending ++ sent_for parse x })
    -- a worker finds a free place in entriesChan
    put_entry :
        (before : List B) (e : B) (after : List B)
        → s.sending ≡ before ++ e ∷ after
        → length s.results < size
        → PoolStep size parse s
            (record s { sending = before ++ after; results = s.results ++ e ∷ [] })
    -- a worker hands an entry to the call, which waits at the empty channel
    pass :
        (before : List B) (e : B) (after : List B)
        → s.sending ≡ before ++ e ∷ after
        → s.results ≡ []
        → s.returned ≡ false
        → PoolStep size parse s
            (record s { sending = before ++ after; entries = s.entries ++ e ∷ [] })
    -- the call collects an entry
    collect :
        (e : B) (es : List B)
        → s.results ≡ e ∷ es
        → s.returned ≡ false
        → PoolStep size parse s (record s { results = es; entries = s.entries ++ e ∷ [] })
    -- wg.Done() of a worker whose range over linesChan is over
    leave :
        (n : ℕ)
        → s.lines ≡ []
        → s.lines_closed ≡ true
        → s.active ≡ suc n
        → occupied s ≤ n
        → PoolStep size parse s (record s { active = n })
    -- wg.Wait() is through, and close(entriesChan)
    close_results :
        s.active ≡ 0
        → s.results_closed ≡ false
        → PoolStep size parse s (record s { results_closed = true })
    -- the range over entriesChan is over
    done :
        s.results ≡ []
        → s.results_closed ≡ true
        → s.returned ≡ false
        → PoolStep size parse s (record s { returned = true })

  pub data PoolReach (size : ℕ) (parse : A → Option B) (s : Pool A B) : Pool A B → Type 0 where
    here : PoolReach size parse s s
    next :
        {t u : Pool A B}
        → PoolReach size parse s t
        → PoolStep size parse t u
        → PoolReach size parse s u

  -- The outcomes of a call
  pub data ReadAndParse (l : PoolLimits) (parse : A → Option B)
      (object : Error ⊎ (List A × Option Error)) : List B × Option Error → Type 0 where
    unopened : (e : Error) → object ≡ inl e → ReadAndParse l parse object ([], some e)
    parsed :
        (size : ℕ) (items : List A) (err : Option Error) (t : Pool A B)
        → l.max_batch_size ≡ pos size
        → object ≡ inr (items, err)
        → PoolReach size parse (start_pool (num_workers l) items) t
        → t.returned ≡ true
        → ReadAndParse l parse object (t.entries, err)

-- The worker of ReadAndParseFromS3 passes over an empty line.
abbrev pub line_entry : {B : Type 0} → (Text → Option B) → Text → Option B
line_entry parse line = if is_empty line then none else parse line
