-- ===== src/Service/Walk.antt =====
-- packages/replayor/service.go: what `Start` does before the benchmark.
use replayor.Prelude.{ℕ, Bool, true, false, none, List, ltb, ◌==◌, if◌then◌else◌, sub64}
use replayor.Exec.{Result, ok, err}
use replayor.Service.Calls.{Phase, reached, failed, process_ended, still_running, Starting}
use replayor.Chain.{Block, execution_valid, execution_other, PayloadStatus}
use replayor.Strategies.{BlockCreationParams}
use replayor.Strategies.Signing.{Globals}
use replayor.Stats.Recorder.{Stats, no_op_stats}
use replayor.Benchmark.Batch.{SourceNode}
use replayor.Benchmark.AddBlock.{Engine, Submission, all_heads}
use replayor.Benchmark.Replayed.{replay_parts}
use replayor.Benchmark.Pipeline.{new_limits, Parts, init_pipeline}
use replayor.Benchmark.Monitor.{Watching, watching, completed, interrupted, Monitor, Turn, turns}

-- `DestNode.BlockByNumber(ctx, nil)`, and op-service's `retry.Do` at the type of the call that asks
-- whether the node still syncs.
pub record ExecutionNode (Block World : Type 0) : Type 0 where
  pub latest_block : World → Result Block × World
  pub retry_do : ℕ → (World → Result Bool × World) → World → Result Bool × World

-- What `Start` works on: the recorder, the world, the recorder's disk, the accounts of the stress
-- test, whether its context is cancelled, and whether it has called `close`.
pub record Session (Recorder World Disk : Type 0) : Type 0 where
  pub recorder : Recorder
  pub world : World
  pub disk : Disk
  pub globals : Globals
  pub cancelled : Bool
  pub closed : Bool

-- A `Run` that has been given its turns: the process may have ended, it may have returned, or not.
unfoldable pub run_ended : Bool → Watching → Phase (Unit {0})
run_ended true w = process_ended
run_ended false watching = still_running
run_ended false completed = reached tt
run_ended false interrupted = reached tt

status_ready : PayloadStatus → Result Bool
status_ready execution_valid = ok true
status_ready (execution_other code) = err "syncing"

module _ {Tx Withdrawals World : Type 0} (engine : Engine Tx Withdrawals World) where
  -- The call that is repeated until the node no longer syncs.
  unfoldable pub ask_ready : ℕ → World → Result Bool × World
  unfolding status_ready
  ask_ready hash w =
      let (r, w') = engine.forkchoice_update (all_heads hash) none w in
      (elim r [ err e ↦ err e | ok result ↦ status_ready result.payload_status ], w')

module _ {Tx Withdrawals Recorder World Disk : Type 0} where
  unfoldable pub read_head :
      ExecutionNode (Block Tx Withdrawals) World
      → Starting (Session Recorder World Disk) (Block Tx Withdrawals)
  read_head exec_node s =
      let (r, w) = exec_node.latest_block s.world in
      (elim r [ ok b ↦ reached b | err e ↦ process_ended ], record s { world = w })

  -- Its result is dropped: `Start` goes on after the last attempt too.
  unfoldable pub wait_ready :
      Engine Tx Withdrawals World
      → ExecutionNode (Block Tx Withdrawals) World
      → ℕ
      → Starting (Session Recorder World Disk) (Unit {0})
  wait_ready engine exec_node hash s =
      (reached tt, record s { world = (exec_node.retry_do 720 (ask_ready engine hash) s.world).1 })

  unfoldable pub check_start :
      ℕ → Block Tx Withdrawals → Starting (Session Recorder World Disk) (Unit {0})
  check_start start_block current_block s =
      if start_block == 0
      then (reached tt, s)
      else if start_block == current_block.number
      then (reached tt, s)
      else (failed "current block is not equal to benchmark start block", s)

module _ {Tx Withdrawals World Disk : Type 0} where
  -- `NewBenchmark` and `Run`, on the turns that the goroutines, the node and the ticker take.
  unfoldable pub benchmark_run :
      {Params Strategy R Kept : Type 0}
      → Parts (Block Tx Withdrawals) Params Strategy (Submission R World)
      → Stats R Disk
      → Strategy
      → R
      → Block Tx Withdrawals
      → ℕ
      → List (Turn (Block Tx Withdrawals))
      → Session Kept World Disk
      → Monitor (Block Tx Withdrawals) Params Strategy R World Disk
  benchmark_run {R = R} parts stats strategy recorder current_block block_count ts s =
      let limits = new_limits current_block.number block_count in
      let submission : Submission R World = record {
        previous_replayed_block_hash = current_block.hash;
        recorder = recorder;
        world = s.world;
      } in
      turns parts stats (λ b. b.number) limits.end_block_num ts
        (record {
          pipeline = record (init_pipeline limits strategy submission) { cancelled = s.cancelled };
          watch = watching;
          last_block_num = current_block.number;
          disk = s.disk;
        })

module _ {Tx Withdrawals Recorder World Disk : Type 0} (engine : Engine Tx Withdrawals World)
    (node : SourceNode (Block Tx Withdrawals)) where
  -- The walk up to the start block, with the replay strategy and the recorder that keeps nothing.
  unfoldable pub walk_monitor :
      ℕ
      → Block Tx Withdrawals
      → List (Turn (Block Tx Withdrawals))
      → Session Recorder World Disk
      → Monitor
          (Block Tx Withdrawals)
          (BlockCreationParams Tx Withdrawals)
          (Unit {0})
          (Unit {0})
          World
          Disk
  walk_monitor start_block current_block ts s =
      benchmark_run
        (replay_parts engine (no_op_stats {World = Disk}).record_block_stats
          (record { benchmark_opcodes = false; diff_storage = false }) node)
        (no_op_stats {World = Disk}) tt tt current_block (sub64 start_block current_block.number) ts
        s

  unfoldable pub walk_up :
      ℕ
      → Block Tx Withdrawals
      → List (Turn (Block Tx Withdrawals))
      → Starting (Session Recorder World Disk) (Unit {0})
  walk_up start_block current_block ts s =
      if start_block == 0
      then (reached tt, s)
      else if ltb current_block.number start_block
      then (let m = walk_monitor start_block current_block ts s in
          (
            run_ended m.pipeline.crashed m.watch,
            record s {
              world = m.pipeline.world.world;
              disk = m.disk;
              cancelled = m.pipeline.cancelled;
            },
          ))
      else if ltb start_block current_block.number
      then (process_ended, s)
      else (reached tt, s)
