-- ===== src/Benchmark/Pipeline/Completion.antt =====
-- A benchmark of packages/replayor/benchmark.go can complete where one loop after the other would.
use replayor.Prelude.{
  ℕ, ◌+◌, ◌≤◌, ◌<◌, ◌≡◌, refl, inl, inr, false, List, [], ◌∷◌, ◌++◌, arith, length, u64_mod,
}
use replayor.Benchmark.Batch.{concurrency}
use replayor.Benchmark.Pipeline.{
  Limits, Parts, submit_done, Pipeline, Actor, init_pipeline, step, run,
}
use replayor.Benchmark.Pipeline.Awake.{Awake, act-Awake}
use replayor.Benchmark.Pipeline.Returns.{Returns, IsSound}
use replayor.Benchmark.Pipeline.Submits.{act-IsSound}
use replayor.Benchmark.Pipeline.Numbers.{KeepsNumber}
use replayor.Benchmark.Pipeline.Progress.{work, finishes}
use replayor.Benchmark.Pipeline.Delivery.{run_induction, final, final-Flow}

module _ {Block Params Strategy World : Type 0} (parts : Parts Block Params Strategy World) where
  abbrev State : Type 0
  State = Pipeline Block Params Strategy World

  run-append :
      (last : ℕ) (first rest : List Actor) (p : State)
      → run parts last (first ++ rest) p ≡ run parts last rest (run parts last first p)
  unfolding run
  run-append last [] rest p = refl
  run-append last (a ∷ first) rest p = run-append last first rest (step parts last a p)

  module _ (limits : Limits) (strategy₀ : Strategy) (world₀ : World) (schedule : List Actor) where
    final-Awake : Awake parts limits.end_block_num (final parts limits strategy₀ world₀ schedule)
    unfolding init_pipeline
    final-Awake =
        run_induction parts limits.end_block_num _ (act-Awake parts limits.end_block_num) schedule
          (init_pipeline limits strategy₀ world₀) (ground arith)

    -- For a source that serves under a number the block of that number, a strategy that skips no block
    -- and keeps its number, a start block at most one past the end block and an end block 25 below
    -- 2 ^ 64, where the loops return when they run one after the other - the source serves the blocks
    -- from the start block to the 24th after the end block, the strategy answers for them in turn, and
    -- `addBlock` returns for what it makes of those up to the end block: from wherever a schedule has
    -- led without a cancellation, some further schedule, no longer than the work that is left, makes
    -- `submitBlocks` return without a cancellation and without a goroutine that ends the process.
    pub can_complete :
        (block_number : Block → ℕ)
        → KeepsNumber parts block_number
        → limits.start_block_num ≤ limits.end_block_num + 1
        → limits.end_block_num + concurrency < u64_mod
        → Returns parts limits.start_block_num limits.end_block_num strategy₀ world₀
        → (final parts limits strategy₀ world₀ schedule).cancelled ≡ false
        → (rest : List Actor) × (length rest
            ≤ work parts limits.end_block_num (final parts limits strategy₀ world₀ schedule))
          × ((final parts limits strategy₀ world₀ (schedule ++ rest)).cancelled ≡ false)
          × ((final parts limits strategy₀ world₀ (schedule ++ rest)).crashed ≡ false)
          × ((final parts limits strategy₀ world₀ (schedule ++ rest)).submitter ≡ submit_done)
    unfolding init_pipeline run
    can_complete block_number keeps ordered room returns running =
        let last = limits.end_block_num in
        let start = init_pipeline limits strategy₀ world₀ in
        let (rest, short, still, end) =
          finishes parts last room _ (final parts limits strategy₀ world₀ schedule) (omega arith)
            final-Awake running in
        let whole = run-append last schedule rest start in
        let alive : (run parts last (schedule ++ rest) start).crashed ≡ false =
          (run_induction parts last (IsSound parts limits.start_block_num last strategy₀ world₀)
            (act-IsSound parts limits.start_block_num last strategy₀ world₀ room returns
              block_number keeps)
            (schedule ++ rest) start
            (final-Flow parts limits strategy₀ world₀ [] ordered room, refl)).1 in
        (
          rest,
          short,
          rw whole still,
          alive,
          elim end [
            | inl returned ↦ rw whole returned
            | inr crashed ↦ let running_on = rw whole at alive in cc
          ],
        )
