-- ===== src/Benchmark/Monitor/Interrupted.antt =====
-- `Run` of packages/replayor/benchmark.go returns by `ctx.Done()` only where its context is cancelled,
-- which it stays.
use replayor.Prelude.{ℕ, ◌≡◌, refl, arith, true, Bool-cases, inl, inr, List, [], ◌∷◌}
use replayor.Exec.{Result, ok, err}
use replayor.Stats.Recorder.{Stats}
use replayor.Benchmark.AddBlock.{Submission}
use replayor.Benchmark.Pipeline.{Parts, Submitter, submitting, submit_done}
use replayor.Benchmark.Pipeline.Cancelled.{Stays, step-Stays}
use replayor.Benchmark.Monitor.{
  get_latest_block, Watching, watching, completed, interrupted, Monitor, Turn, work, done_chan,
  ticker, ctx_done, write, finish_watch, tick, watch_step, turn, turns,
}

module _ {Block Params Strategy Recorder World Disk : Type 0}
    (parts : Parts Block Params Strategy (Submission Recorder World)) (stats : Stats Recorder Disk)
    (block_number : Block → ℕ) (last : ℕ) where
  -- A run that was interrupted, or whose context was cancelled before, is cancelled.
  pub record IsTold (before : Type 0) (m : Monitor Block Params Strategy Recorder World Disk)
      : Type 0 where
    pub told : m.watch ≡ interrupted → m.pipeline.cancelled ≡ true
    pub stayed : before → m.pipeline.cancelled ≡ true

  finished-IsTold :
      (before : Type 0) (s : Submitter) (m : Monitor Block Params Strategy Recorder World Disk)
      → m.watch ≡ watching
      → IsTold before m
      → IsTold before (finish_watch parts stats block_number last s m)
  unfolding finish_watch write
  finished-IsTold before submitting m e h = h
  finished-IsTold before submit_done m e h = record { told = λ i. cc; stayed = h.stayed }

  ticked-IsTold :
      (before : Type 0) (r : Result Block) (m : Monitor Block Params Strategy Recorder World Disk)
      → IsTold before m
      → IsTold before (tick parts stats block_number last r m)
  unfolding tick write
  ticked-IsTold before (err e) m h = record { told = h.told; stayed = h.stayed }
  ticked-IsTold before (ok b) m h = record {
    told = λ i. let c = h.told in ground arith;
    stayed = λ b'. let c = h.stayed b' in ground arith;
  }

  watched-IsTold :
      (before : Type 0) (t : Turn Block) (w : Watching)
      (m : Monitor Block Params Strategy Recorder World Disk)
      → m.watch ≡ w
      → IsTold before m
      → IsTold before (watch_step parts stats block_number last t w m)
  unfolding watch_step Stays finish_watch tick write
  watched-IsTold before (work a) w m e h = record {
    told = λ i. step-Stays parts last a m.pipeline (h.told i);
    stayed = λ b. step-Stays parts last a m.pipeline (h.stayed b);
  }
  watched-IsTold before done_chan watching m e h = finished-IsTold before m.pipeline.submitter m e h
  watched-IsTold before done_chan completed m e h = h
  watched-IsTold before done_chan interrupted m e h = h
  watched-IsTold before (ticker head) watching m e h =
      ticked-IsTold before (get_latest_block head) m h
  watched-IsTold before (ticker head) completed m e h = h
  watched-IsTold before (ticker head) interrupted m e h = h
  watched-IsTold before ctx_done watching m e h = elim (Bool-cases m.pipeline.cancelled) [
    | inl c ↦ simp c (record { told = λ i. c; stayed = λ b. c })
    | inr c ↦ simp c h
  ]
  watched-IsTold before ctx_done completed m e h = h
  watched-IsTold before ctx_done interrupted m e h = h

  pub turns-IsTold :
      (before : Type 0) (ts : List (Turn Block))
      (m : Monitor Block Params Strategy Recorder World Disk)
      → IsTold before m
      → IsTold before (turns parts stats block_number last ts m)
  unfolding turns turn
  turns-IsTold before [] m h = h
  turns-IsTold before (t ∷ ts) m h = elim (Bool-cases m.pipeline.crashed) [
    | inl e ↦ simp e (turns-IsTold before ts m h)
    | inr e ↦ simp e (turns-IsTold before ts _ (watched-IsTold before t m.watch m refl h))
  ]
