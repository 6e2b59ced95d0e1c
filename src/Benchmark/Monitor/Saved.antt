-- ===== src/Benchmark/Monitor/Saved.antt =====
-- What is on the disk when `Run` of packages/replayor/benchmark.go has returned by `doneChan`.
use replayor.Prelude.{ℕ, ◌≡◌, refl, arith, Bool-cases, inl, inr, List, [], ◌∷◌}
use replayor.Exec.{Result, ok, err}
use replayor.Stats.Recorder.{Stats}
use replayor.Benchmark.AddBlock.{Submission}
use replayor.Benchmark.Pipeline.{Parts, Submitter, submitting, submit_done, Actor, step}
use replayor.Benchmark.Pipeline.Idle.{act-IsIdle}
use replayor.Benchmark.Monitor.{
  get_latest_block, Watching, watching, completed, interrupted, Monitor, Turn, work, done_chan,
  ticker, ctx_done, write, finish_watch, tick, watch_step, turn, turns,
}

module _ {Block Params Strategy Recorder World Disk : Type 0}
    (parts : Parts Block Params Strategy (Submission Recorder World)) (stats : Stats Recorder Disk)
    (block_number : Block → ℕ) (last : ℕ) (Saves : Recorder → Disk → Type 0)
    (saves : (r : Recorder) (d : Disk) → Saves (stats.write r d).0 (stats.write r d).1) where
  abbrev State : Type 0
  State = Monitor Block Params Strategy Recorder World Disk

  -- After its return by `doneChan`, what was recorded is what was saved.
  pub record IsSaved (m : State) : Type 0 where
    pub submitted : m.watch ≡ completed → m.pipeline.submitter ≡ submit_done
    pub saved : m.watch ≡ completed → Saves m.pipeline.world.recorder m.disk

  worked-IsSaved :
      (a : Actor) (m : State)
      → IsSaved m
      → IsSaved (record m { pipeline = step parts last a m.pipeline })
  unfolding step
  worked-IsSaved a m h = elim (Bool-cases m.pipeline.crashed) [
    | inl e ↦ simp e h
    | inr e ↦ simp e (record {
      submitted = λ w. (act-IsIdle parts last a m.pipeline (h.submitted w)).0;
      saved = λ w. rw ((act-IsIdle parts last a m.pipeline (h.submitted w)).1) (h.saved w);
    })
  ]

  finished-IsSaved :
      (s : Submitter) (m : State)
      → m.pipeline.submitter ≡ s
      → IsSaved m
      → IsSaved (finish_watch parts stats block_number last s m)
  unfolding finish_watch write
  finished-IsSaved submitting m e h = h
  finished-IsSaved submit_done m e h = record {
    submitted = λ w. e;
    saved = λ w. saves m.pipeline.world.recorder m.disk;
  }

  ticked-IsSaved :
      (r : Result Block) (m : State)
      → m.watch ≡ watching
      → IsSaved m
      → IsSaved (tick parts stats block_number last r m)
  unfolding tick write
  ticked-IsSaved (err e) m w h = record { submitted = h.submitted; saved = h.saved }
  ticked-IsSaved (ok b) m w h = record { submitted = λ c. ground arith; saved = λ c. ground arith }

  watched-IsSaved :
      (t : Turn Block) (w : Watching) (m : State)
      → m.watch ≡ w
      → IsSaved m
      → IsSaved (watch_step parts stats block_number last t w m)
  unfolding watch_step
  watched-IsSaved (work a) w m e h = worked-IsSaved a m h
  watched-IsSaved done_chan watching m e h = finished-IsSaved m.pipeline.submitter m refl h
  watched-IsSaved done_chan completed m e h = h
  watched-IsSaved done_chan interrupted m e h = h
  watched-IsSaved (ticker head) watching m e h = ticked-IsSaved (get_latest_block head) m e h
  watched-IsSaved (ticker head) completed m e h = h
  watched-IsSaved (ticker head) interrupted m e h = h
  watched-IsSaved ctx_done watching m e h = elim (Bool-cases m.pipeline.cancelled) [
    | inl c ↦ simp c (record { submitted = λ w. cc; saved = λ w. ground arith })
    | inr c ↦ simp c h
  ]
  watched-IsSaved ctx_done completed m e h = h
  watched-IsSaved ctx_done interrupted m e h = h

  pub turns-IsSaved :
      (ts : List (Turn Block)) (m : State)
      → IsSaved m
      → IsSaved (turns parts stats block_number last ts m)
  unfolding turns turn
  turns-IsSaved [] m h = h
  turns-IsSaved (t ∷ ts) m h = elim (Bool-cases m.pipeline.crashed) [
    | inl e ↦ simp e (turns-IsSaved ts m h)
    | inr e ↦ simp e (turns-IsSaved ts _ (watched-IsSaved t m.watch m refl h))
  ]
