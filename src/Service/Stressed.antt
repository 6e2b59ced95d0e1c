-- ===== src/Service/Stressed.antt =====
-- `Start` of packages/replayor/service.go with the stress strategy and the recorder of
-- packages/stats/storage.go: what it leaves when it has returned nil.
use mathlib.Core.Path.{subst}
use replayor.Prelude.{
  ℕ, ◌+◌, ◌-◌, ◌<◌, u64_mod, true, false, ◌≡◌, refl, ap, sym, ◌∙◌, arith, some, List, [], length,
  length-map, length-count_up, String,
}
use replayor.Exec.{Result, ok}
use replayor.Chain.{Block}
use replayor.Config.{ReplayorConfig}
use replayor.Strategies.{BlockCreationParams}
use replayor.Strategies.Signing.{Wallet, Globals}
use replayor.Strategies.Packing.{Draw}
use replayor.Stats.{BlockCreationStats}
use replayor.Stats.Storage.{Storage}
use replayor.Stats.Recorder.{StoredStats, record_block_stats, write_stats, stored_stats}
use replayor.Benchmark.Batch.{SourceNode, concurrency, fetch}
use replayor.Benchmark.AddBlock.{Engine}
use replayor.Benchmark.Stressed.{stress_parts}
use replayor.Benchmark.Pipeline.{new_limits, init_pipeline, submit_done}
use replayor.Benchmark.Monitor.{Turn, Monitor, completed}
use replayor.Benchmark.Monitor.Stresses.{stressed_final, stress_saves}
use replayor.Service.Calls.{Phase, reached}
use replayor.Service.Walk.{ExecutionNode, Session, run_ended, benchmark_run}
use replayor.Service.Walked.{benchmark_run-returned}
use replayor.Service.Starts.{start-IsStarted, recorder-IsStarted}
use replayor.Service.Benchmarked.{new_limits-bounded}
use replayor.Service.{loaded_stress, load_strategy, stress_monitor, run_loaded, options_of, start}

load_strategy-stress :
    (strategy : String) → strategy ≡ "stress" → load_strategy strategy ≡ some loaded_stress
unfolding load_strategy
load_strategy-stress strategy h = simp h refl

module _ {Tx Withdrawals World Disk : Type 0} (engine : Engine Tx Withdrawals World)
    (node : SourceNode (Block Tx Withdrawals)) (wallet : Wallet Tx) (draws : ℕ → List Draw)
    (storage : Storage Disk)
    (retry_do : ℕ → (Disk → Result (Unit {0}) × Disk) → Disk → Result (Unit {0}) × Disk)
    (cfg : ReplayorConfig) where
  -- The storage reads one record for each block of the benchmark.
  abbrev pub HasRecords : Disk → Type 0
  HasRecords disk =
      (stats : List BlockCreationStats) × ((storage.read disk).0 ≡ ok stats)
      × (length stats ≡ cfg.block_count)

  module _ (b : Block Tx Withdrawals) (ts : List (Turn (Block Tx Withdrawals)))
      (s : Session StoredStats World Disk) where
    abbrev watched :
        Monitor
          (Block Tx Withdrawals)
          (BlockCreationParams Tx Withdrawals)
          Globals
          StoredStats
          World
          Disk
    watched =
        stressed_final engine (options_of cfg) node wallet cfg b.number draws storage retry_do
          (new_limits b.number cfg.block_count) b.number s.globals
          (record { previous_replayed_block_hash = b.hash; recorder = s.recorder; world = s.world })
          s.disk ts

    abbrev bench :
        Monitor
          (Block Tx Withdrawals)
          (BlockCreationParams Tx Withdrawals)
          Globals
          StoredStats
          World
          Disk
    bench = stress_monitor engine node wallet draws (stored_stats storage retry_do) cfg b ts s

    stress_monitor-eq : s.cancelled ≡ false → bench ≡ watched
    unfolding stress_monitor benchmark_run init_pipeline
    stress_monitor-eq h = simp h refl

    bench-returned :
        run_ended bench.pipeline.crashed bench.watch ≡ reached tt
        → bench.pipeline.cancelled ≡ false
        → (bench.pipeline.crashed ≡ false)
          × (bench.watch ≡ completed)
          × (bench.pipeline.submitter ≡ submit_done)
          × (s.cancelled ≡ false)
    unfolding stress_monitor
    bench-returned =
        benchmark_run-returned
          (stress_parts engine record_block_stats (options_of cfg) node wallet cfg b.number draws)
          (stored_stats storage retry_do) s.globals s.recorder b cfg.block_count ts s

    bench-HasRecords :
        ((n : ℕ) (x : Block Tx Withdrawals) → fetch node n ≡ some x → x.number ≡ n)
        → b.number + cfg.block_count + concurrency < u64_mod
        → ((r : StoredStats) (d : Disk)
            → (storage.read (write_stats storage retry_do r d).1).0 ≡ ok r.stats)
        → s.recorder.stats ≡ []
        → run_ended bench.pipeline.crashed bench.watch ≡ reached tt
        → bench.pipeline.cancelled ≡ false
        → HasRecords bench.disk
    bench-HasRecords sourced room reads empty returned running =
        let (alive, done, submitted, began) = bench-returned returned running in
        let same = stress_monitor-eq began in
        let (from, to) = new_limits-bounded b.number cfg.block_count room in
        let (stats, read, numbers, counts) =
          stress_saves engine (options_of cfg) node wallet cfg b.number draws storage retry_do
            (new_limits b.number cfg.block_count) b.number s.globals
            (record {
              previous_replayed_block_hash = b.hash;
              recorder = s.recorder;
              world = s.world;
            })
            s.disk ts sourced (omega (arith, from, to)) (omega (arith, to, room)) reads empty
            (ap (λ m. m.watch) (sym same) ∙ done)
            (ap (λ m. m.pipeline.cancelled) (sym same) ∙ running)
            (ap (λ m. m.pipeline.crashed) (sym same) ∙ alive) in
        (
          stats,
          ap (λ m. (storage.read m.disk).0) same ∙ read,
          omega (
            arith,
            from,
            to,
            length-map (λ (x : BlockCreationStats). x.txn_count) stats,
            length-map (λ (x : BlockCreationParams Tx Withdrawals). length x.transactions)
                watched.pipeline.submitted,
            length-map (λ (x : BlockCreationParams Tx Withdrawals). x.number)
                watched.pipeline.submitted,
            ap length counts,
            ap length numbers,
            length-count_up (new_limits b.number cfg.block_count).start_block_num (
                (new_limits b.number cfg.block_count).end_block_num
                + 1
                - (new_limits b.number cfg.block_count).start_block_num),
          ),
        )

    loaded-HasRecords :
        (s' : Session StoredStats World Disk)
        → ((n : ℕ) (x : Block Tx Withdrawals) → fetch node n ≡ some x → x.number ≡ n)
        → b.number + cfg.block_count + concurrency < u64_mod
        → ((r : StoredStats) (d : Disk)
            → (storage.read (write_stats storage retry_do r d).1).0 ≡ ok r.stats)
        → s.recorder.stats ≡ []
        → run_loaded engine node wallet draws
            (stored_stats storage retry_do)
            cfg
            (some loaded_stress)
            b
            ts
            s
          ≡ (reached tt, s')
        → s'.cancelled ≡ false
        → HasRecords s'.disk
    unfolding run_loaded
    loaded-HasRecords s' sourced room reads empty h running =
        let ends = ap (λ (r : Phase (Unit {0}) × Session StoredStats World Disk). r.1) h in
        subst HasRecords (ap (λ (x : Session StoredStats World Disk). x.disk) ends) (
          bench-HasRecords sourced room reads empty
            (ap (λ (r : Phase (Unit {0}) × Session StoredStats World Disk). r.0) h)
            (ap (λ (x : Session StoredStats World Disk). x.cancelled) ends ∙ running))

  module _ (exec_node : ExecutionNode (Block Tx Withdrawals) World)
      (walk_turns bench_turns : List (Turn (Block Tx Withdrawals))) where
    -- For the stress strategy, a start block with the benchmark's blocks after it 25 below 2 ^ 64, a
    -- source that serves under a number the block of that number, a storage from which every write of
    -- the recorder can be read back and an empty recorder: when `Start` has returned nil without a
    -- cancellation, then whatever the goroutines, the tickers and the node did, the application is
    -- closed and the storage holds as many records as blocks were asked for.
    pub start_stress_records :
        (s s' : Session StoredStats World Disk)
        → cfg.strategy ≡ "stress"
        → 0 < cfg.benchmark_start_block
        → cfg.benchmark_start_block + cfg.block_count + concurrency < u64_mod
        → ((n : ℕ) (x : Block Tx Withdrawals) → fetch node n ≡ some x → x.number ≡ n)
        → ((r : StoredStats) (d : Disk)
            → (storage.read (write_stats storage retry_do r d).1).0 ≡ ok r.stats)
        → s.recorder.stats ≡ []
        → start engine node wallet draws
            (stored_stats storage retry_do)
            cfg
            exec_node
            walk_turns
            bench_turns
            s
          ≡ (reached tt, s')
        → s'.cancelled ≡ false
        → (s'.closed ≡ true) × HasRecords s'.disk
    start_stress_records s s' stress given room sourced reads empty h running =
        let started =
          start-IsStarted engine node wallet draws (stored_stats storage retry_do) cfg exec_node
            walk_turns bench_turns s s' h in
        let at_start : started.current_block.number ≡ cfg.benchmark_start_block =
          grind (arith, started.at_start, given) in
        let loaded : started.strategy ≡ loaded_stress =
          let l = load_strategy-stress cfg.strategy stress in let l' = started.loaded in cc in
        let unrecorded : started.running.recorder.stats ≡ [] =
          ap (λ (r : StoredStats). r.stats)
            (recorder-IsStarted engine node wallet draws (stored_stats storage retry_do) cfg
              exec_node walk_turns bench_turns started)
          ∙ empty in
        let recorded =
          loaded-HasRecords started.current_block bench_turns started.running started.ended sourced
            (omega (arith, at_start, room)) reads unrecorded
            (subst
              (λ l.
                run_loaded engine node wallet draws (stored_stats storage retry_do) cfg (some l)
                  started.current_block bench_turns started.running
                ≡ (reached tt, started.ended))
              loaded started.run_returned)
            (ap (λ (x : Session StoredStats World Disk). x.cancelled) (sym started.closed)
              ∙ running) in
        (
          ap (λ (x : Session StoredStats World Disk). x.closed) started.closed,
          subst HasRecords
              (ap (λ (x : Session StoredStats World Disk). x.disk) (sym started.closed)) recorded,
        )
