-- ===== src/Benchmark/Monitor.antt =====
-- packages/replayor/benchmark.go, `Run`: the three goroutines and the loop that watches them, reports
-- progress and has the recorder write.
pub mod Runs
pub mod Saved
pub mod Watched
pub mod Replays
pub mod Stresses
pub mod Interrupted
use replayor.Prelude.{ℕ, Bool, true, false, List, [], ◌∷◌, leb, if◌then◌else◌, sub64}
use replayor.Exec.{Result, ok, err}
use replayor.Stats.Recorder.{Stats}
use replayor.Benchmark.AddBlock.{Submission}
use replayor.Benchmark.Pipeline.{Parts, Pipeline, Submitter, submitting, submit_done, Actor, step}

-- `DestNode.BlockByNumber(ctx, nil)`, as the attempt of an index answers it, and op-service's
-- `retry.Do` at its type.
pub record DestHead (Block : Type 0) : Type 0 where
  pub latest_block : ℕ → Result Block
  pub retry_latest : ℕ → (ℕ → Result Block) → Result Block

unfoldable pub get_latest_block : {Block : Type 0} → DestHead Block → Result Block
get_latest_block head = head.retry_latest 10 head.latest_block

-- Whether `Run` still loops, and why it has returned.
pub data Watching : Type 0 where
  watching : Watching
  completed : Watching
  interrupted : Watching

-- `Disk` is the state of the place to which the recorder writes.
pub record Monitor (Block Params Strategy Recorder World Disk : Type 0) : Type 0 where
  pub pipeline : Pipeline Block Params Strategy (Submission Recorder World)
  pub watch : Watching
  pub last_block_num : ℕ
  pub disk : Disk

-- Who moves: a goroutine, or one of the three branches of the `select` of `Run`.
-- The ticker comes with what the destination node answers then, which `addBlock` may be changing.
pub data Turn (Block : Type 0) : Type 0 where
  work : Actor → Turn Block
  done_chan : Turn Block
  ticker : DestHead Block → Turn Block
  ctx_done : Turn Block

module _ {Block Params Strategy Recorder World Disk : Type 0}
    (parts : Parts Block Params Strategy (Submission Recorder World)) (stats : Stats Recorder Disk)
    (block_number : Block → ℕ) (end_block_num : ℕ) where
  abbrev pub State : Type 0
  State = Monitor Block Params Strategy Recorder World Disk

  -- `r.s.Write(ctx)`
  unfoldable pub write : State → State
  write m =
      let submission = m.pipeline.world in
      let (recorder, disk) = stats.write submission.recorder m.disk in
      record m {
        pipeline = record (m.pipeline) { world = record submission { recorder = recorder } };
        disk = disk;
      }

  -- `case <-doneChan`: the channel is closed when `submitBlocks` has returned.
  pub finish_watch : Submitter → State → State
  unfolding write
  finish_watch submitting m = m
  finish_watch submit_done m = record (write m) { watch = completed }

  -- `case <-ticker.C`
  pub tick : Result Block → State → State
  unfolding write
  tick (err e) m = record m { pipeline = record (m.pipeline) { crashed = true } }
  tick (ok b) m =
      let m' = record m { last_block_num = block_number b } in
      let last_block_written = stats.get_last_block_written m.pipeline.world.recorder in
      if leb 100 (sub64 (block_number b) last_block_written) then write m' else m'

  pub watch_step : Turn Block → Watching → State → State
  unfolding finish_watch tick get_latest_block
  watch_step (work a) w m = record m { pipeline = step parts end_block_num a m.pipeline }
  watch_step done_chan watching m = finish_watch m.pipeline.submitter m
  watch_step (ticker head) watching m = tick (get_latest_block head) m
  watch_step ctx_done watching m =
      if m.pipeline.cancelled then record m { watch = interrupted } else m
  watch_step done_chan completed m = m
  watch_step done_chan interrupted m = m
  watch_step (ticker head) completed m = m
  watch_step (ticker head) interrupted m = m
  watch_step ctx_done completed m = m
  watch_step ctx_done interrupted m = m

  -- A process that has ended makes no step.
  unfoldable pub turn : Turn Block → State → State
  unfolding watch_step
  turn t m = if m.pipeline.crashed then m else watch_step t m.watch m

  unfoldable pub turns : List (Turn Block) → State → State
  unfolding turn
  turns [] m = m
  turns (t ∷ ts) m = turns ts (turn t m)
