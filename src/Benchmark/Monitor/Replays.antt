-- ===== src/Benchmark/Monitor/Replays.antt =====
-- A whole `Run` of packages/replayor/benchmark.go with the replay strategy and the recorder of
-- packages/stats/storage.go: what can be read from the storage when it has returned.
use replayor.Prelude.{
  ℕ, ◌+◌, ◌-◌, ◌≤◌, ◌<◌, ◌≡◌, ◌∙◌, ap, sym, false, some, List, [], map, count_up, u64_mod,
}
use replayor.Exec.{Result, ok}
use replayor.Chain.{Block}
use replayor.Strategies.{BlockCreationParams}
use replayor.Strategies.Replay.{one_for_one}
use replayor.Stats.{BlockCreationStats}
use replayor.Stats.Storage.{Storage}
use replayor.Stats.Recorder.{StoredStats, record_block_stats, write_stats, stored_stats}
use replayor.Benchmark.Batch.{SourceNode, concurrency, fetch}
use replayor.Benchmark.Enrich.{Options}
use replayor.Benchmark.AddBlock.{Engine, Submission}
use replayor.Benchmark.Pipeline.{Limits, init_pipeline}
use replayor.Benchmark.Replayed.{replay_parts}
use replayor.Benchmark.Recorded.{recorded_hashes, recorded_in_order}
use replayor.Benchmark.Monitor.{watching, completed, Monitor, Turn, turns}
use replayor.Benchmark.Monitor.Runs.{actors}
use replayor.Benchmark.Monitor.Watched.{unwritten_view, run_final-view, run_final-saved}

module _ {Tx Withdrawals World Disk : Type 0} (engine : Engine Tx Withdrawals World)
    (options : Options) (node : SourceNode (Block Tx Withdrawals)) (storage : Storage Disk)
    (retry_do : ℕ → (Disk → Result (Unit {0}) × Disk) → Disk → Result (Unit {0}) × Disk)
    (limits : Limits) (current_block_num : ℕ) (s : Submission StoredStats World) (disk : Disk)
    (ts : List (Turn (Block Tx Withdrawals))) where
  abbrev pub Watched : Type 0
  Watched =
      Monitor (Block Tx Withdrawals) (BlockCreationParams Tx Withdrawals) (Unit {0}) StoredStats
        World Disk

  -- `Run` at its start, on a benchmark that `NewBenchmark` made.
  abbrev pub watched_start : Watched
  watched_start = record {
    pipeline = init_pipeline limits tt s;
    watch = watching;
    last_block_num = current_block_num;
    disk = disk;
  }

  abbrev pub watched_final : Watched
  watched_final =
      turns (replay_parts engine record_block_stats options node) (stored_stats storage retry_do)
        (λ b. b.number) limits.end_block_num ts watched_start

  -- What every write establishes of the records and the disk holds, when `Run` has returned by
  -- `doneChan`, of one record for every block, in order, with the hashes of the source's blocks.
  pub run_saved :
      (Saves : List BlockCreationStats → Disk → Type 0)
      → ((n : ℕ) (b : Block Tx Withdrawals) → fetch node n ≡ some b → b.number ≡ n)
      → limits.start_block_num ≤ limits.end_block_num + 1
      → limits.end_block_num + concurrency < u64_mod
      → ((r : StoredStats) (d : Disk) → Saves r.stats (write_stats storage retry_do r d).1)
      → s.recorder.stats ≡ []
      → watched_final.watch ≡ completed
      → watched_final.pipeline.cancelled ≡ false
      → watched_final.pipeline.crashed ≡ false
      → (stats : List BlockCreationStats) × (bs : List (Block Tx Withdrawals)) × Saves stats
          watched_final.disk
        × (map
              (fetch node)
              (count_up limits.start_block_num (limits.end_block_num + 1 - limits.start_block_num))
            ≡ map some bs)
        × (map (λ (x : BlockCreationStats). x.block_hash) stats ≡ map (λ b. b.hash) bs)
  unfolding replay_parts
  run_saved Saves sourced ordered room reads empty returned running alive =
      let same =
        run_final-view engine options node one_for_one storage retry_do limits current_block_num tt
          s disk ts alive in
      let (submitted, saved) =
        run_final-saved engine options node one_for_one storage retry_do limits current_block_num tt
          s disk ts Saves reads returned in
      let (bs, fetched, hashes) =
        recorded_in_order engine options node limits (unwritten_view s) (actors ts) sourced ordered
          room empty (ap (λ p. p.submitter) (sym same) ∙ submitted)
          (ap (λ p. p.cancelled) (sym same) ∙ running) in
      (
        watched_final.pipeline.world.recorder.stats,
        bs,
        saved,
        fetched,
        ap (λ p. recorded_hashes engine options node p.world) same ∙ hashes,
      )

  -- For a source that serves under a number the block of that number, a start block at most one past
  -- the end block, an end block 25 below 2 ^ 64 and a storage from which every write of the recorder
  -- can be read back: when `Run` of a benchmark with the replay strategy and an empty recorder has
  -- returned by `doneChan`, without a cancellation or the end of the process, then whatever the
  -- goroutines, the ticker and the node did, the storage holds one record for every block from the
  -- start block to the end block, in order, with the hashes of the blocks that the source serves.
  pub run_saves :
      ((n : ℕ) (b : Block Tx Withdrawals) → fetch node n ≡ some b → b.number ≡ n)
      → limits.start_block_num ≤ limits.end_block_num + 1
      → limits.end_block_num + concurrency < u64_mod
      → ((r : StoredStats) (d : Disk)
          → (storage.read (write_stats storage retry_do r d).1).0 ≡ ok r.stats)
      → s.recorder.stats ≡ []
      → watched_final.watch ≡ completed
      → watched_final.pipeline.cancelled ≡ false
      → watched_final.pipeline.crashed ≡ false
      → (stats : List BlockCreationStats) × (bs : List (Block Tx Withdrawals)) × ((storage.read
            watched_final.disk).0
          ≡ ok stats)
        × (map
              (fetch node)
              (count_up limits.start_block_num (limits.end_block_num + 1 - limits.start_block_num))
            ≡ map some bs)
        × (map (λ (x : BlockCreationStats). x.block_hash) stats ≡ map (λ b. b.hash) bs)
  run_saves sourced ordered room reads empty returned running alive =
      run_saved (λ stats d. (storage.read d).0 ≡ ok stats) sourced ordered room reads empty returned
        running alive
