-- ===== src/Benchmark/Monitor/Runs.antt =====
-- What the monitor of packages/replayor/benchmark.go leaves of a run of its goroutines.
use replayor.Prelude.{
  ℕ, ◌≡◌, refl, ◌∙◌, ap, sym, arith, true, false, Bool-cases, inl, inr, List, [], ◌∷◌,
}
use replayor.Exec.{Exec, Result, ok, err}
use replayor.Stats.Recorder.{Stats}
use replayor.Benchmark.AddBlock.{Submission}
use replayor.Benchmark.Pipeline.{
  Parts, Pipeline, Submitter, submitting, submit_done, Actor, step, run,
}
use replayor.Benchmark.Pipeline.Simulation.{parts_view, pipeline_view, act-view}
use replayor.Benchmark.Monitor.{
  Watching, watching, completed, interrupted, Monitor, Turn, work, done_chan, ticker, ctx_done,
  write, finish_watch, tick, watch_step, turn, turns, get_latest_block,
}

-- The steps of the goroutines among the turns.
abbrev pub actors : {Block : Type 0} → List (Turn Block) → List Actor
actors [] = []
actors (work a ∷ ts) = a ∷ actors ts
actors (done_chan ∷ ts) = actors ts
actors (ticker head ∷ ts) = actors ts
actors (ctx_done ∷ ts) = actors ts

module _ {Block Params Strategy Recorder World Disk View : Type 0}
    (parts : Parts Block Params Strategy (Submission Recorder World)) (stats : Stats Recorder Disk)
    (block_number : Block → ℕ) (last : ℕ) (view : Submission Recorder World → View)
    (add_view : Params → Exec View (Unit {0}))
    (adds : (x : Params) (w : Submission Recorder World)
      → add_view x (view w) ≡ ((parts.add_block x w).0, view (parts.add_block x w).1))
    (writes : (w : Submission Recorder World) (d : Disk)
      → view (record w { recorder = (stats.write w.recorder d).0 }) ≡ view w) where
  abbrev State : Type 0
  State = Monitor Block Params Strategy Recorder World Disk

  abbrev pub turns_on : List (Turn Block) → State → State
  turns_on = turns parts stats block_number last

  abbrev pub view_of : State → Pipeline Block Params Strategy View
  view_of m = pipeline_view view m.pipeline

  write-view : (m : State) → view_of (write parts stats block_number last m) ≡ view_of m
  unfolding write
  write-view m = ground (arith, writes m.pipeline.world m.disk)

  -- A crash stays.
  turns-crashed :
      (ts : List (Turn Block)) (m : State) → m.pipeline.crashed ≡ true → turns_on ts m ≡ m
  unfolding turns turn
  turns-crashed [] m h = refl
  turns-crashed (t ∷ ts) m h = simp h (turns-crashed ts m h)

  step-view :
      (a : Actor) (p : Pipeline Block Params Strategy (Submission Recorder World))
      → pipeline_view view (step parts last a p)
        ≡ step (parts_view parts add_view) last a (pipeline_view view p)
  unfolding step
  step-view a p = ground (arith, act-view parts view add_view adds last a p)

  finish-view :
      (s : Submitter) (m : State)
      → view_of (finish_watch parts stats block_number last s m) ≡ view_of m
  unfolding finish_watch
  finish-view submitting m = refl
  finish-view submit_done m = write-view m

  tick-view :
      (r : Result Block) (m : State)
      → (tick parts stats block_number last r m).pipeline.crashed ≡ false
      → view_of (tick parts stats block_number last r m) ≡ view_of m
  unfolding tick
  tick-view (err e) m h = cc
  tick-view (ok b) m h = ground (arith, write-view (record m { last_block_num = block_number b }))

  watch-view :
      (t : Turn Block) (w : Watching) (m : State)
      → (watch_step parts stats block_number last t w m).pipeline.crashed ≡ false
      → view_of (watch_step parts stats block_number last t w m)
        ≡ run (parts_view parts add_view) last (actors (t ∷ [])) (view_of m)
  unfolding watch_step run
  watch-view (work a) w m h = step-view a m.pipeline
  watch-view done_chan watching m h = finish-view m.pipeline.submitter m
  watch-view done_chan completed m h = refl
  watch-view done_chan interrupted m h = refl
  watch-view (ticker head) watching m h = tick-view (get_latest_block head) m h
  watch-view (ticker head) completed m h = refl
  watch-view (ticker head) interrupted m h = refl
  watch-view ctx_done watching m h = ground arith
  watch-view ctx_done completed m h = refl
  watch-view ctx_done interrupted m h = refl

  run-actors :
      (t : Turn Block) (ts : List (Turn Block)) (p : Pipeline Block Params Strategy View)
      → run (parts_view parts add_view) last (actors (t ∷ ts)) p
        ≡ run
            (parts_view parts add_view)
            last
            (actors ts)
            (run (parts_view parts add_view) last (actors (t ∷ [])) p)
  unfolding run
  run-actors (work a) ts p = refl
  run-actors done_chan ts p = refl
  run-actors (ticker head) ts p = refl
  run-actors ctx_done ts p = refl

  -- A monitored run in which the process has not ended is, in the view, the run of its goroutines.
  pub turns-view :
      (ts : List (Turn Block)) (m : State)
      → (turns_on ts m).pipeline.crashed ≡ false
      → view_of (turns_on ts m) ≡ run (parts_view parts add_view) last (actors ts) (view_of m)
  unfolding turns turn run
  turns-view [] m h = refl
  turns-view (t ∷ ts) m h = elim (Bool-cases m.pipeline.crashed) [
    | inl crashed ↦
        let ended = ap (λ (n : State). n.pipeline.crashed) (turns-crashed (t ∷ ts) m crashed) in cc
    | inr alive ↦
        let q : State = turn parts stats block_number last t m in
        let e : q ≡ watch_step parts stats block_number last t m.watch m = simp alive refl in
        elim (Bool-cases q.pipeline.crashed) [
          | inl crashed ↦
              let ended = ap (λ (n : State). n.pipeline.crashed) (turns-crashed ts q crashed) in cc
          | inr still ↦
              let first = watch-view t m.watch m (rw e at still) in
              turns-view ts q h
              ∙ ap (run (parts_view parts add_view) last (actors ts)) (ap view_of e ∙ first)
              ∙ sym (run-actors t ts (view_of m))
        ]
  ]
