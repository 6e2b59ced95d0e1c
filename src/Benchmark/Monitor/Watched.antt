-- ===== src/Benchmark/Monitor/Watched.antt =====
-- A whole `Run` of packages/replayor/benchmark.go with any strategy and the recorder of
-- packages/stats/storage.go, which the monitor writes while the goroutines run.
use replayor.Prelude.{ℕ, ◌≡◌, refl, false, List}
use replayor.Exec.{Result}
use replayor.Chain.{Block}
use replayor.Strategies.{BlockCreationParams, Strategy}
use replayor.Stats.{BlockCreationStats}
use replayor.Stats.Storage.{Storage}
use replayor.Stats.Recorder.{StoredStats, record_block_stats, write_stats, stored_stats}
use replayor.Benchmark.Batch.{SourceNode}
use replayor.Benchmark.Enrich.{Options}
use replayor.Benchmark.AddBlock.{Engine, Submission, add_block}
use replayor.Benchmark.AddBlock.Views.{submission_view, add_block-view}
use replayor.Benchmark.Pipeline.{Limits, Parts, submit_done, init_pipeline}
use replayor.Benchmark.Pipeline.Simulation.{pipeline_view}
use replayor.Benchmark.Pipeline.Delivery.{final}
use replayor.Benchmark.Monitor.{watching, completed, Monitor, Turn, turns}
use replayor.Benchmark.Monitor.Runs.{actors, turns-view}
use replayor.Benchmark.Monitor.Saved.{turns-IsSaved}

-- The recorder without the number of the block written last, which only the monitor changes.
abbrev unwritten : StoredStats → StoredStats
unwritten r = record r { last_block_written = 0 }

abbrev pub unwritten_view :
    {World : Type 0} → Submission StoredStats World → Submission StoredStats World
unwritten_view s = submission_view unwritten s

module _ {Tx Withdrawals World Kept Disk : Type 0} (engine : Engine Tx Withdrawals World)
    (options : Options) (node : SourceNode (Block Tx Withdrawals))
    (strategy : Strategy Tx Withdrawals Kept) (storage : Storage Disk)
    (retry_do : ℕ → (Disk → Result (Unit {0}) × Disk) → Disk → Result (Unit {0}) × Disk)
    (limits : Limits) (current_block_num : ℕ) (kept : Kept) (s : Submission StoredStats World)
    (disk : Disk) (ts : List (Turn (Block Tx Withdrawals))) where
  abbrev pub Watched : Type 0
  Watched =
      Monitor (Block Tx Withdrawals) (BlockCreationParams Tx Withdrawals) Kept StoredStats World
        Disk

  abbrev pub strategy_parts :
      Parts
        (Block Tx Withdrawals)
        (BlockCreationParams Tx Withdrawals)
        Kept
        (Submission StoredStats World)
  strategy_parts = record {
    source = node;
    number = λ x. x.number;
    block_received = strategy.block_received;
    add_block = add_block engine record_block_stats strategy options;
  }

  -- `Run` at its start, on a benchmark that `NewBenchmark` made.
  abbrev pub run_start : Watched
  run_start = record {
    pipeline = init_pipeline limits kept s;
    watch = watching;
    last_block_num = current_block_num;
    disk = disk;
  }

  abbrev pub run_final : Watched
  run_final =
      turns strategy_parts (stored_stats storage retry_do) (λ b. b.number) limits.end_block_num ts
        run_start

  -- The monitor writes and reports; in the view, the goroutines run as if it were not there.
  pub run_final-view :
      run_final.pipeline.crashed ≡ false
      → pipeline_view unwritten_view run_final.pipeline
        ≡ final strategy_parts limits kept (unwritten_view s) (actors ts)
  unfolding init_pipeline record_block_stats write_stats
  run_final-view =
      turns-view strategy_parts (stored_stats storage retry_do) (λ b. b.number) limits.end_block_num
        unwritten_view (add_block engine record_block_stats strategy options)
        (add_block-view engine record_block_stats record_block_stats unwritten strategy options
          (λ x r. refl))
        (λ w d. refl) ts run_start

  stats_written :
      (r : StoredStats) (d : Disk) → (write_stats storage retry_do r d).0.stats ≡ r.stats
  unfolding write_stats
  stats_written r d = refl

  -- When it has returned by `doneChan`, so has `submitBlocks`, and what every write establishes of the
  -- records and the disk holds of what the recorder holds.
  pub run_final-saved :
      (Saves : List BlockCreationStats → Disk → Type 0)
      → ((r : StoredStats) (d : Disk) → Saves r.stats (write_stats storage retry_do r d).1)
      → run_final.watch ≡ completed
      → (run_final.pipeline.submitter ≡ submit_done)
        × Saves run_final.pipeline.world.recorder.stats run_final.disk
  unfolding init_pipeline
  run_final-saved Saves saves returned =
      let saved =
        turns-IsSaved strategy_parts (stored_stats storage retry_do) (λ b. b.number)
          limits.end_block_num (λ r d. Saves r.stats d) (λ r d. rw stats_written (saves r d)) ts
          run_start (record { submitted = λ w. cc; saved = λ w. cc }) in
      (saved.submitted returned, saved.saved returned)
