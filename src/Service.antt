-- ===== src/Service.antt =====
-- packages/replayor/service.go, with `LoadStrategy` of packages/strategies/strategy.go: `Start` brings
-- the node to the start block, runs the benchmark and closes the application; `Stop` cancels it.
pub mod Calls
pub mod Walk
pub mod Starts
pub mod Errors
pub mod Walked
pub mod OnChain
pub mod Stops
pub mod Tests
pub mod Benchmarked
pub mod Stressed
use replayor.Prelude.{
  ℕ, Bool, true, false, String, Option, none, some, List, ltb, ◌==◌, if◌then◌else◌, str_eq, sub64,
}
use replayor.Exec.{Result, ok, err, Outcome, done, stopped as ended, panic}
use replayor.Service.Calls.{
  Phase, reached, failed, process_ended, still_running, Starting, ◌>>=◌, ◌>>◌,
}
use replayor.Chain.{Block, execution_valid, execution_other, PayloadStatus}
use replayor.Config.{ReplayorConfig}
use replayor.Strategies.{BlockCreationParams}
use replayor.Strategies.Signing.{Wallet, Globals}
use replayor.Strategies.Packing.{Draw}
use replayor.Stats.Recorder.{Stats, no_op_stats}
use replayor.Benchmark.Batch.{SourceNode}
use replayor.Benchmark.Enrich.{Options}
use replayor.Benchmark.AddBlock.{Engine, Submission, all_heads}
use replayor.Benchmark.Replayed.{replay_parts}
use replayor.Benchmark.Stressed.{stress_parts}
use replayor.Benchmark.Pipeline.{Limits, new_limits, Parts, init_pipeline}
use replayor.Benchmark.Monitor.{Watching, watching, completed, interrupted, Monitor, Turn, turns}
use replayor.Service.Walk.{
  ExecutionNode, Session, run_ended, read_head, wait_ready, check_start, benchmark_run, walk_up,
}

-- `LoadStrategy`: which strategy a configuration names, or nil.
pub data Loaded : Type 0 where
  loaded_stress : Loaded
  loaded_replay : Loaded

unfoldable pub load_strategy : String → Option Loaded
load_strategy strategy =
    if str_eq strategy "stress"
    then some loaded_stress
    else if str_eq strategy "replay"
    then some loaded_replay
    else none

abbrev pub options_of : ReplayorConfig → Options
options_of cfg = record {
  benchmark_opcodes = cfg.benchmark_opcodes;
  diff_storage = cfg.compute_storage_diffs;
}

module _ {Recorder World Disk : Type 0} where
  unfoldable pub close : Starting (Session Recorder World Disk) (Unit {0})
  close s = (reached tt, record s { closed = true })

module _ {Tx Withdrawals Recorder World Disk : Type 0} (engine : Engine Tx Withdrawals World)
    (node : SourceNode (Block Tx Withdrawals)) where
  module _ (wallet : Wallet Tx) (draws : ℕ → List Draw) (stats : Stats Recorder Disk)
      (cfg : ReplayorConfig) where
    unfoldable pub stress_monitor :
        Block Tx Withdrawals
        → List (Turn (Block Tx Withdrawals))
        → Session Recorder World Disk
        → Monitor
            (Block Tx Withdrawals)
            (BlockCreationParams Tx Withdrawals)
            Globals
            Recorder
            World
            Disk
    stress_monitor b ts s =
        benchmark_run
          (stress_parts engine stats.record_block_stats (options_of cfg) node wallet cfg b.number
            draws)
          stats s.globals s.recorder b cfg.block_count ts s

    unfoldable pub replay_monitor :
        Block Tx Withdrawals
        → List (Turn (Block Tx Withdrawals))
        → Session Recorder World Disk
        → Monitor
            (Block Tx Withdrawals)
            (BlockCreationParams Tx Withdrawals)
            (Unit {0})
            Recorder
            World
            Disk
    replay_monitor b ts s =
        benchmark_run (replay_parts engine stats.record_block_stats (options_of cfg) node) stats tt
          s.recorder b cfg.block_count ts s

    -- The benchmark itself; `panic` where no strategy was loaded.
    unfoldable pub run_loaded :
        Option Loaded
        → Block Tx Withdrawals
        → List (Turn (Block Tx Withdrawals))
        → Starting (Session Recorder World Disk) (Unit {0})
    unfolding stress_monitor replay_monitor
    run_loaded none b ts s = (process_ended, s)
    run_loaded (some loaded_stress) b ts s =
        let m = stress_monitor b ts s in
        (
          run_ended m.pipeline.crashed m.watch,
          record s {
            recorder = m.pipeline.world.recorder;
            world = m.pipeline.world.world;
            disk = m.disk;
            globals = m.pipeline.strategy;
            cancelled = m.pipeline.cancelled;
          },
        )
    run_loaded (some loaded_replay) b ts s =
        let m = replay_monitor b ts s in
        (
          run_ended m.pipeline.crashed m.watch,
          record s {
            recorder = m.pipeline.world.recorder;
            world = m.pipeline.world.world;
            disk = m.disk;
            cancelled = m.pipeline.cancelled;
          },
        )

    -- `Start`, on the turns of the walk to the start block and on those of the benchmark.
    unfoldable pub start :
        ExecutionNode (Block Tx Withdrawals) World
        → List (Turn (Block Tx Withdrawals))
        → List (Turn (Block Tx Withdrawals))
        → Starting (Session Recorder World Disk) (Unit {0})
    start exec_node walk_turns bench_turns = do
      first ← read_head exec_node
      wait_ready engine exec_node first.hash
      walk_up engine node cfg.benchmark_start_block first walk_turns
      current_block ← read_head exec_node
      check_start cfg.benchmark_start_block current_block
      run_loaded (load_strategy cfg.strategy) current_block bench_turns
      close

-- The fields of the service that `Stop` and `Stopped` touch: the flag, whether `Start` has set
-- `benchmarkCancel`, and whether the context that it cancels is cancelled.
pub record Service : Type 0 where
  pub stopped : Bool
  pub benchmark_cancel : Bool
  pub cancelled : Bool

-- `Stop`: an error or nil. A function that was never set is nil, and its call panics.
unfoldable pub stop : Service → Outcome (Option String) × Service
stop s =
    if s.stopped
    then (done (some "already stopped"), s)
    else if s.benchmark_cancel
    then (done none, record s { stopped = true; cancelled = true })
    else (ended panic, record s { stopped = true })

unfoldable pub is_stopped : Service → Bool
is_stopped s = s.stopped
