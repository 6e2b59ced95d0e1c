-- ===== src/Benchmark/Monitor/Stresses.antt =====
-- A whole `Run` of packages/replayor/benchmark.go with the stress strategy and the recorder of
-- packages/stats/storage.go: what can be read from the storage when it has returned.
use replayor.Prelude.{
  ℕ, ◌+◌, ◌-◌, ◌≤◌, ◌<◌, ◌≡◌, ◌∙◌, ap, sym, false, some, List, [], map, count_up, u64_mod,
}
use replayor.Exec.{Result, ok}
use replayor.Chain.{Block}
use replayor.Config.{ReplayorConfig}
use replayor.Strategies.{BlockCreationParams, Strategy}
use replayor.Strategies.Signing.{Wallet, Globals}
use replayor.Strategies.Packing.{Draw}
use replayor.Strategies.Stress.{stress_test}
use replayor.Stats.{BlockCreationStats}
use replayor.Stats.Storage.{Storage}
use replayor.Stats.Recorder.{StoredStats, record_block_stats, write_stats, stored_stats}
use replayor.Benchmark.Batch.{SourceNode, concurrency, fetch}
use replayor.Benchmark.Enrich.{Options}
use replayor.Benchmark.AddBlock.{Engine, Submission}
use replayor.Benchmark.Pipeline.{Limits, init_pipeline}
use replayor.Benchmark.Stressed.{stress_parts, stress_run}
use replayor.Benchmark.Counted.{txn_counts, sizes, counted_all}
use replayor.Benchmark.Monitor.{watching, completed, Monitor, Turn, turns}
use replayor.Benchmark.Monitor.Runs.{actors}
use replayor.Benchmark.Monitor.Watched.{unwritten_view, run_final-view, run_final-saved}

module _ {Tx Withdrawals World Disk : Type 0} (engine : Engine Tx Withdrawals World)
    (options : Options) (node : SourceNode (Block Tx Withdrawals)) (wallet : Wallet Tx)
    (cfg : ReplayorConfig) (start_block_num : ℕ) (draws : ℕ → List Draw) (storage : Storage Disk)
    (retry_do : ℕ → (Disk → Result (Unit {0}) × Disk) → Disk → Result (Unit {0}) × Disk)
    (limits : Limits) (current_block_num : ℕ) (g : Globals) (s : Submission StoredStats World)
    (disk : Disk) (ts : List (Turn (Block Tx Withdrawals))) where
  abbrev pub Watched : Type 0
  Watched =
      Monitor (Block Tx Withdrawals) (BlockCreationParams Tx Withdrawals) Globals StoredStats World
        Disk

  -- `Run` at its start, on a benchmark that `NewBenchmark` made.
  abbrev pub stressed_start : Watched
  stressed_start = record {
    pipeline = init_pipeline limits g s;
    watch = watching;
    last_block_num = current_block_num;
    disk = disk;
  }

  abbrev pub stressed_final : Watched
  stressed_final =
      turns (stress_parts engine record_block_stats options node wallet cfg start_block_num draws)
        (stored_stats storage retry_do) (λ b. b.number) limits.end_block_num ts stressed_start

  -- For a source that serves under a number the block of that number, a start block at most one past
  -- the end block, an end block 25 below 2 ^ 64 and a storage from which every write of the recorder
  -- can be read back: when `Run` of a benchmark with the stress strategy and an empty recorder has
  -- returned by `doneChan`, without a cancellation or the end of the process, then whatever the
  -- goroutines, the ticker and the node did, one block for every number from the start block to the
  -- end block has been handed to `addBlock`, in order, and the storage holds one record for each,
  -- which counts its transactions.
  pub stress_saves :
      ((n : ℕ) (b : Block Tx Withdrawals) → fetch node n ≡ some b → b.number ≡ n)
      → limits.start_block_num ≤ limits.end_block_num + 1
      → limits.end_block_num + concurrency < u64_mod
      → ((r : StoredStats) (d : Disk)
          → (storage.read (write_stats storage retry_do r d).1).0 ≡ ok r.stats)
      → s.recorder.stats ≡ []
      → stressed_final.watch ≡ completed
      → stressed_final.pipeline.cancelled ≡ false
      → stressed_final.pipeline.crashed ≡ false
      → (stats : List BlockCreationStats) × ((storage.read stressed_final.disk).0 ≡ ok stats)
        × (map
              (λ (x : BlockCreationParams Tx Withdrawals). x.number)
              stressed_final.pipeline.submitted
            ≡ count_up limits.start_block_num (limits.end_block_num + 1 - limits.start_block_num))
        × (txn_counts stats ≡ sizes stressed_final.pipeline.submitted)
  unfolding stress_parts
  stress_saves sourced ordered room reads empty returned running alive =
      let strategy : Strategy Tx Withdrawals Globals =
        stress_test wallet cfg start_block_num draws in
      let same =
        run_final-view engine options node strategy storage retry_do limits current_block_num g s
          disk ts alive in
      let (submitted, saved) =
        run_final-saved engine options node strategy storage retry_do limits current_block_num g s
          disk ts (λ stats d. (storage.read d).0 ≡ ok stats) reads returned in
      let (numbers, added) =
        stress_run engine record_block_stats options node wallet cfg start_block_num draws limits g
          (unwritten_view s) (actors ts) sourced ordered room
          (ap (λ p. p.submitter) (sym same) ∙ submitted)
          (ap (λ p. p.cancelled) (sym same) ∙ running) in
      let counts = counted_all engine strategy options _ (unwritten_view s) _ empty added in
      (
        stressed_final.pipeline.world.recorder.stats,
        saved,
        ap (λ p. map (λ (x : BlockCreationParams Tx Withdrawals). x.number) p.submitted) same
            ∙ numbers,
        ap (λ p. txn_counts p.world.recorder.stats) same
            ∙ counts
            ∙ ap (λ p. sizes p.submitted) (sym same),
      )
