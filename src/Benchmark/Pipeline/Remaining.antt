-- ===== src/Benchmark/Pipeline/Remaining.antt =====
-- What `remainingBlockCount` of packages/replayor/benchmark.go says while the goroutines run.
use replayor.Prelude.{ℕ, ◌+◌, ◌<◌, ◌≡◌, arith, length, u64_mod, List}
use replayor.Benchmark.Batch.{concurrency}
use replayor.Benchmark.Pipeline.{Limits, Parts, Actor, new_limits}
use replayor.Benchmark.Pipeline.Numbers.{KeepsNumber}
use replayor.Benchmark.Pipeline.Delivery.{final, final-Ends, submitted_bound}

module _ {Block Params Strategy World : Type 0} (parts : Parts Block Params Strategy World)
    (strategy₀ : Strategy) (world₀ : World) (schedule : List Actor) where
  -- For the limits that `NewBenchmark` computes, where they stay 25 below 2 ^ 64, a source that serves
  -- under a number the block of that number, and a strategy that skips no block and keeps its number:
  -- at any point of any schedule `remainingBlockCount` and the number of blocks that `addBlock` has
  -- returned for add up to the number of blocks asked for.
  pub remaining_block_count_lem :
      (current_block count : ℕ)
      → current_block + count + concurrency < u64_mod
      → (block_number : Block → ℕ) → KeepsNumber parts block_number
      → (final parts
            (new_limits current_block count)
            strategy₀
            world₀
            schedule).remaining_block_count
          + length
              (final parts (new_limits current_block count) strategy₀ world₀ schedule).submitted
        ≡ count
  unfolding new_limits
  remaining_block_count_lem current_block count room block_number keeps =
      let limits : Limits = new_limits current_block count in
      let ends = final-Ends parts limits strategy₀ world₀ schedule in
      let bound =
        submitted_bound parts limits strategy₀ world₀ schedule (omega arith) (omega arith)
          block_number keeps in
      omega (arith, ends.counted, ends.small (omega arith), bound)
