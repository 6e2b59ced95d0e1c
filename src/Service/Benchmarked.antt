-- ===== src/Service/Benchmarked.antt =====
-- `Start` of packages/replayor/service.go with the replay strategy and the recorder of
-- packages/stats/storage.go: what it leaves when it has returned nil.
use mathlib.Core.Path.{subst}
use replayor.Prelude.{
  ℕ, ◌+◌, ◌-◌, ◌<◌, u64_mod, true, false, ◌≡◌, refl, ap, sym, ◌∙◌, arith, some, List, [], map,
  count_up, String,
}
use replayor.Exec.{Result, ok}
use replayor.Chain.{Block}
use replayor.Config.{ReplayorConfig}
use replayor.Strategies.{BlockCreationParams}
use replayor.Strategies.Signing.{Wallet}
use replayor.Strategies.Packing.{Draw}
use replayor.Stats.{BlockCreationStats}
use replayor.Stats.Storage.{Storage}
use replayor.Stats.Recorder.{StoredStats, record_block_stats, write_stats, stored_stats}
use replayor.Benchmark.Batch.{SourceNode, concurrency, fetch}
use replayor.Benchmark.AddBlock.{Engine}
use replayor.Benchmark.Replayed.{replay_parts}
use replayor.Benchmark.Pipeline.{new_limits, init_pipeline, submit_done}
use replayor.Benchmark.Monitor.{Turn, Monitor, completed}
use replayor.Benchmark.Monitor.Replays.{watched_final, run_saved}
use replayor.Service.Calls.{Phase, reached}
use replayor.Service.Walk.{ExecutionNode, Session, run_ended, benchmark_run}
use replayor.Service.Walked.{benchmark_run-returned}
use replayor.Service.Starts.{start-IsStarted, recorder-IsStarted}
use replayor.Service.{loaded_replay, load_strategy, replay_monitor, run_loaded, options_of, start}

pub new_limits-bounded :
    (n count : ℕ)
    → n + count + concurrency < u64_mod
    → ((new_limits n count).start_block_num ≡ n + 1)
      × ((new_limits n count).end_block_num ≡ n + count)
unfolding new_limits
new_limits-bounded n count h = (omega arith, omega arith)

load_strategy-replay :
    (strategy : String) → strategy ≡ "replay" → load_strategy strategy ≡ some loaded_replay
unfolding load_strategy
load_strategy-replay strategy h = simp h refl

module _ {Tx Withdrawals World Disk : Type 0} (engine : Engine Tx Withdrawals World)
    (node : SourceNode (Block Tx Withdrawals)) (wallet : Wallet Tx) (draws : ℕ → List Draw)
    (storage : Storage Disk)
    (retry_do : ℕ → (Disk → Result (Unit {0}) × Disk) → Disk → Result (Unit {0}) × Disk)
    (cfg : ReplayorConfig) where
  -- A relation of records and a disk holds of the records of the source's blocks after a block.
  abbrev pub HasSaved : (List BlockCreationStats → Disk → Type 0) → ℕ → Disk → Type 0
  HasSaved Saves n disk =
      (stats : List BlockCreationStats) × (bs : List (Block Tx Withdrawals)) × Saves stats disk
      × (map (fetch node) (count_up (n + 1) cfg.block_count) ≡ map some bs)
      × (map (λ (x : BlockCreationStats). x.block_hash) stats ≡ map (λ b. b.hash) bs)

  -- The storage reads the records of the source's blocks after a block.
  abbrev pub IsRecorded : ℕ → Disk → Type 0
  IsRecorded = HasSaved (λ stats disk. (storage.read disk).0 ≡ ok stats)

  module _ (b : Block Tx Withdrawals) (ts : List (Turn (Block Tx Withdrawals)))
      (s : Session StoredStats World Disk) where
    replay_monitor-eq :
        s.cancelled ≡ false
        → replay_monitor engine node wallet draws (stored_stats storage retry_do) cfg b ts s
          ≡ watched_final engine
              (options_of cfg)
              node
              storage
              retry_do
              (new_limits b.number cfg.block_count)
              b.number
              (record {
                previous_replayed_block_hash = b.hash;
                recorder = s.recorder;
                world = s.world;
              })
              s.disk
              ts
    unfolding replay_monitor benchmark_run init_pipeline
    replay_monitor-eq h = simp h refl

    abbrev bench :
        Monitor
          (Block Tx Withdrawals)
          (BlockCreationParams Tx Withdrawals)
          (Unit {0})
          StoredStats
          World
          Disk
    bench = replay_monitor engine node wallet draws (stored_stats storage retry_do) cfg b ts s

    bench-returned :
        run_ended bench.pipeline.crashed bench.watch ≡ reached tt
        → bench.pipeline.cancelled ≡ false
        → (bench.pipeline.crashed ≡ false)
          × (bench.watch ≡ completed)
          × (bench.pipeline.submitter ≡ submit_done)
          × (s.cancelled ≡ false)
    unfolding replay_monitor
    bench-returned =
        benchmark_run-returned (replay_parts engine record_block_stats (options_of cfg) node)
          (stored_stats storage retry_do) tt s.recorder b cfg.block_count ts s

    bench-HasSaved :
        (Saves : List BlockCreationStats → Disk → Type 0)
        → ((n : ℕ) (x : Block Tx Withdrawals) → fetch node n ≡ some x → x.number ≡ n)
        → b.number + cfg.block_count + concurrency < u64_mod
        → ((r : StoredStats) (d : Disk) → Saves r.stats (write_stats storage retry_do r d).1)
        → s.recorder.stats ≡ []
        → run_ended bench.pipeline.crashed bench.watch ≡ reached tt
        → bench.pipeline.cancelled ≡ false
        → HasSaved Saves b.number bench.disk
    bench-HasSaved Saves sourced room reads empty returned running =
        let (alive, done, submitted, began) = bench-returned returned running in
        let same = replay_monitor-eq began in
        let (from, to) = new_limits-bounded b.number cfg.block_count room in
        let (stats, bs, read, fetched, hashes) =
          run_saved engine (options_of cfg) node storage retry_do
            (new_limits b.number cfg.block_count) b.number
            (record {
              previous_replayed_block_hash = b.hash;
              recorder = s.recorder;
              world = s.world;
            })
            s.disk ts Saves sourced (omega (arith, from, to)) (omega (arith, to, room)) reads empty
            (ap (λ m. m.watch) (sym same) ∙ done)
            (ap (λ m. m.pipeline.cancelled) (sym same) ∙ running)
            (ap (λ m. m.pipeline.crashed) (sym same) ∙ alive) in
        let count : (new_limits b.number cfg.block_count).end_block_num
              + 1
              - (new_limits b.number cfg.block_count).start_block_num
            ≡ cfg.block_count =
          omega (arith, from, to) in
        let range : count_up (new_limits b.number cfg.block_count).start_block_num (
              (new_limits b.number cfg.block_count).end_block_num
              + 1
              - (new_limits b.number cfg.block_count).start_block_num)
            ≡ count_up (b.number + 1) cfg.block_count =
          rw count (rw from refl) in
        (
          stats,
          bs,
          subst (λ m. Saves stats m.disk) (sym same) read,
          ap (map (fetch node)) (sym range) ∙ fetched,
          hashes,
        )

    loaded-HasSaved :
        (Saves : List BlockCreationStats → Disk → Type 0) (s' : Session StoredStats World Disk)
        → ((n : ℕ) (x : Block Tx Withdrawals) → fetch node n ≡ some x → x.number ≡ n)
        → b.number + cfg.block_count + concurrency < u64_mod
        → ((r : StoredStats) (d : Disk) → Saves r.stats (write_stats storage retry_do r d).1)
        → s.recorder.stats ≡ []
        → run_loaded engine node wallet draws
            (stored_stats storage retry_do)
            cfg
            (some loaded_replay)
            b
            ts
            s
          ≡ (reached tt, s')
        → s'.cancelled ≡ false
        → HasSaved Saves b.number s'.disk
    unfolding run_loaded
    loaded-HasSaved Saves s' sourced room reads empty h running =
        let ends = ap (λ (r : Phase (Unit {0}) × Session StoredStats World Disk). r.1) h in
        subst (HasSaved Saves b.number) (ap (λ (x : Session StoredStats World Disk). x.disk) ends) (
          bench-HasSaved Saves sourced room reads empty
            (ap (λ (r : Phase (Unit {0}) × Session StoredStats World Disk). r.0) h)
            (ap (λ (x : Session StoredStats World Disk). x.cancelled) ends ∙ running))

  module _ (exec_node : ExecutionNode (Block Tx Withdrawals) World)
      (walk_turns bench_turns : List (Turn (Block Tx Withdrawals))) where
    -- What every write establishes of the records and the disk holds, when `Start` has returned nil, of
    -- one record for each block asked for, in order, with the hashes of the source's blocks.
    pub start_saved :
        (Saves : List BlockCreationStats → Disk → Type 0) (s s' : Session StoredStats World Disk)
        → cfg.strategy ≡ "replay"
        → 0 < cfg.benchmark_start_block
        → cfg.benchmark_start_block + cfg.block_count + concurrency < u64_mod
        → ((n : ℕ) (x : Block Tx Withdrawals) → fetch node n ≡ some x → x.number ≡ n)
        → ((r : StoredStats) (d : Disk) → Saves r.stats (write_stats storage retry_do r d).1)
        → s.recorder.stats ≡ []
        → start engine node wallet draws
            (stored_stats storage retry_do)
            cfg
            exec_node
            walk_turns
            bench_turns
            s
          ≡ (reached tt, s')
        → s'.cancelled ≡ false
        → (s'.closed ≡ true) × HasSaved Saves cfg.benchmark_start_block s'.disk
    start_saved Saves s s' replay given room sourced reads empty h running =
        let started =
          start-IsStarted engine node wallet draws (stored_stats storage retry_do) cfg exec_node
            walk_turns bench_turns s s' h in
        let at_start : started.current_block.number ≡ cfg.benchmark_start_block =
          grind (arith, started.at_start, given) in
        let loaded : started.strategy ≡ loaded_replay =
          let l = load_strategy-replay cfg.strategy replay in let l' = started.loaded in cc in
        let unrecorded : started.running.recorder.stats ≡ [] =
          ap (λ (r : StoredStats). r.stats)
            (recorder-IsStarted engine node wallet draws (stored_stats storage retry_do) cfg
              exec_node walk_turns bench_turns started)
          ∙ empty in
        let recorded =
          loaded-HasSaved started.current_block bench_turns started.running Saves started.ended
            sourced (omega (arith, at_start, room)) reads unrecorded
            (subst
              (λ l.
                run_loaded engine node wallet draws (stored_stats storage retry_do) cfg (some l)
                  started.current_block bench_turns started.running
                ≡ (reached tt, started.ended))
              loaded started.run_returned)
            (ap (λ (x : Session StoredStats World Disk). x.cancelled) (sym started.closed)
              ∙ running) in
        (
          ap (λ (x : Session StoredStats World Disk). x.closed) started.closed,
          subst (HasSaved Saves cfg.benchmark_start_block)
              (ap (λ (x : Session StoredStats World Disk). x.disk) (sym started.closed))
              (subst (λ n. HasSaved Saves n started.ended.disk) at_start recorded),
        )

    -- For the replay strategy, a start block with the benchmark's blocks after it 25 below 2 ^ 64, a
    -- source that serves under a number the block of that number, a storage from which every write of
    -- the recorder can be read back and an empty recorder: when `Start` has returned nil without a
    -- cancellation, then whatever the goroutines, the tickers and the node did, the application is
    -- closed and the storage holds one record for each of as many blocks after the start block as were
    -- asked for, in order, with the hashes of the blocks that the source serves.
    pub start_records :
        (s s' : Session StoredStats World Disk)
        → cfg.strategy ≡ "replay"
        → 0 < cfg.benchmark_start_block
        → cfg.benchmark_start_block + cfg.block_count + concurrency < u64_mod
        → ((n : ℕ) (x : Block Tx Withdrawals) → fetch node n ≡ some x → x.number ≡ n)
        → ((r : StoredStats) (d : Disk)
            → (storage.read (write_stats storage retry_do r d).1).0 ≡ ok r.stats)
        → s.recorder.stats ≡ []
        → start engine node wallet draws
            (stored_stats storage retry_do)
            cfg
            exec_node
            walk_turns
            bench_turns
            s
          ≡ (reached tt, s')
        → s'.cancelled ≡ false
        → (s'.closed ≡ true) × IsRecorded cfg.benchmark_start_block s'.disk
    start_records s s' replay given room sourced reads empty h running =
        start_saved (λ stats disk. (storage.read disk).0 ≡ ok stats) s s' replay given room sourced
          reads empty h running
