-- ===== src/Processor/Base/Tests.antt =====
-- A run of the pool of pkg/processor/base.go
use mathlib.Core.List.{Perm, filter_map}
use otel_aws_log_processor.Prelude.{
  ◌≡◌, ◌<◌, ◌⊎◌, refl, inr, true, false, List, [], ◌∷◌, Option, some, ℕ, Text, codes, arith, length,
}
use otel_aws_log_processor.Prelude.Int.{pos, negsuc}
use otel_aws_log_processor.License.Error.{Error}
use otel_aws_log_processor.Processor.Base.{
  PoolLimits, num_workers, Pool, start_pool, PoolReach, PoolStep, put, hand, close_lines, fetch,
  finish, put_entry, collect, leave, close_results, done, here, next, ReadAndParse, parsed,
  line_entry,
}
use otel_aws_log_processor.Processor.Base.Laws.{ReadAndParse-parses_all, pool-ends, CanStep, work}

-- One place in each channel, and one worker for want of any
abbrev small : PoolLimits
small = record { max_batch_size = pos 1; max_concurrent = negsuc 4 }

abbrev lengths_of : Text → Option ℕ
lengths_of line = line_entry (λ s. some (length s)) line

abbrev two_lines : List Text
two_lines = codes "abc" ∷ [] ∷ []

-- The first line is handed over, and the second waits in the channel.
abbrev halfway : Pool Text ℕ
halfway = record {
  unread = [];
  lines = [] ∷ [];
  lines_closed = false;
  busy = codes "abc" ∷ [];
  sending = [];
  active = 1;
  results = [];
  results_closed = false;
  entries = [];
  returned = false;
}

abbrev end_of_run : Pool Text ℕ
end_of_run = record {
  unread = [];
  lines = [];
  lines_closed = true;
  busy = [];
  sending = [];
  active = 0;
  results = [];
  results_closed = true;
  entries = 3 ∷ [];
  returned = true;
}

first_half : PoolReach 1 lengths_of (start_pool (num_workers small) two_lines) halfway
unfolding num_workers
first_half =
    next (next here (hand (codes "abc") ([] ∷ []) refl refl (ground arith)))
      (put [] [] refl (ground arith))

run : PoolReach 1 lengths_of (start_pool (num_workers small) two_lines) end_of_run
unfolding num_workers
run =
    next
      (next
        (next
          (next
            (next
              (next
                (next
                  (next (next first_half (finish [] (codes "abc") [] refl))
                    (put_entry [] 3 [] refl (ground arith)))
                  (fetch [] [] refl (ground arith)))
                (close_lines refl refl))
              (finish [] [] [] refl))
            (collect 3 [] refl refl))
          (leave 0 refl refl refl (ground arith)))
        (close_results refl refl))
      (done refl refl refl)

torn : Error
torn = record { sentinels = []; message = codes "unexpected EOF" }

outcome : ReadAndParse small lengths_of (inr (two_lines, some torn)) (3 ∷ [], some torn)
outcome = parsed 1 two_lines (some torn) end_of_run refl refl run refl

ReadAndParse-parses_all_example :
    Perm (3 ∷ []) (filter_map lengths_of two_lines) × (some torn ≡ some torn)
ReadAndParse-parses_all_example =
    ReadAndParse-parses_all small lengths_of two_lines (some torn) (3 ∷ [], some torn) outcome

pool-ends_example :
    ((halfway.returned ≡ true) ⊎ CanStep 1 lengths_of halfway)
    × ((t : Pool Text ℕ) → PoolStep 1 lengths_of halfway t → work t < 11)
pool-ends_example = pool-ends small 1 lengths_of two_lines halfway first_half
