-- ===== src/Benchmark/Pipeline/Bounded.antt =====
-- How many blocks wait in the goroutines and channels of packages/replayor/benchmark.go.
use replayor.Prelude.{
  ℕ, ◌+◌, ◌≤◌, ◌≡◌, refl, ◌∙◌, none, some, inl, inr, Option, List, [], ◌∷◌, arith, length, set,
  length-set, length-replicate, add64, Option-cases,
}
use replayor.Benchmark.Batch.{concurrency, fetch, run_workers, load_batch, SourceNode}
use replayor.Benchmark.Pipeline.{
  capacity, Limits, Parts, Loader, ranging, pushing, load_done, Mapper, mapping, emitting, map_done,
  Submitter, submitting, submit_done, Pipeline, Actor, load, map_next, map_cancel, submit_next,
  submit_cancel, cancel, crash, init_pipeline, batch_loaded, load_step, block_mapped,
  receive_incoming, map_step, map_cancel_step, block_added, receive_process, submit_step,
  submit_cancel_step, act,
}
use replayor.Benchmark.Pipeline.Flow.{pending, held}
use replayor.Benchmark.Pipeline.Delivery.{run_induction, final, final-Ends}

module _ {Block : Type 0} (node : SourceNode Block) where
  run_workers-length :
      (s : ℕ) (order : List ℕ) (results rs : List (Option Block))
      → run_workers node s order results ≡ some rs
      → length rs ≡ length results
  unfolding run_workers
  run_workers-length s [] results rs h = ground arith
  run_workers-length s (i ∷ order) results rs h = elim (Option-cases (fetch node (add64 s i))) [
    | inl panics ↦ ground arith
    | inr (b, got) ↦
        let rest = run_workers-length s order (set results i (some b)) rs (ground arith) in
        rest ∙ length-set results i (some b)
  ]

  load_batch-length :
      (s : ℕ) (order : List ℕ) (rs : List (Option Block))
      → load_batch node s order ≡ some rs
      → length rs ≡ concurrency
  unfolding load_batch
  load_batch-length s order rs h =
      run_workers-length s order _ rs h ∙ length-replicate {A = Option Block} concurrency none

module _ {Block Params Strategy World : Type 0} (parts : Parts Block Params Strategy World)
    (last : ℕ) where
  abbrev State : Type 0
  State = Pipeline Block Params Strategy World

  -- The loader holds at most one batch.
  abbrev HoldsBatch : State → Type 0
  HoldsBatch p = length (pending p.loader) ≤ concurrency

  loaded-HoldsBatch :
      (order : List ℕ) (loader : Loader Block) (p : State)
      → p.loader ≡ loader
      → HoldsBatch p
      → HoldsBatch (load_step parts last order loader p)
  unfolding load_step batch_loaded crash
  loaded-HoldsBatch order (ranging s) p e h =
      elim (Option-cases (load_batch parts.source s order)) [
        | inl panics ↦ ground arith
        | inr (rs, loaded) ↦ ground (arith, load_batch-length parts.source s order rs loaded)
      ]
  loaded-HoldsBatch order (pushing [] s) p e h = ground arith
  loaded-HoldsBatch order (pushing (b ∷ bs) s) p e h = ground arith
  loaded-HoldsBatch order load_done p e h = h

  received-HoldsBatch :
      (incoming : List (Option Block)) (p : State)
      → HoldsBatch p
      → HoldsBatch (receive_incoming parts last incoming p)
  unfolding receive_incoming block_mapped crash
  received-HoldsBatch [] p h = ground arith
  received-HoldsBatch (none ∷ rest) p h = h
  received-HoldsBatch (some b ∷ rest) p h = ground arith

  mapped-HoldsBatch :
      (mapper : Mapper Params) (p : State)
      → HoldsBatch p
      → HoldsBatch (map_step parts last mapper p)
  unfolding map_step
  mapped-HoldsBatch mapping p h = received-HoldsBatch p.incoming p h
  mapped-HoldsBatch (emitting x) p h = ground arith
  mapped-HoldsBatch map_done p h = h

  processed-HoldsBatch :
      (process : List Params) (p : State)
      → HoldsBatch p
      → HoldsBatch (receive_process parts last process p)
  unfolding receive_process block_added crash
  processed-HoldsBatch [] p h = ground arith
  processed-HoldsBatch (x ∷ xs) p h = ground arith

  submitted-HoldsBatch :
      (submitter : Submitter) (p : State)
      → HoldsBatch p
      → HoldsBatch (submit_step parts last submitter p)
  unfolding submit_step
  submitted-HoldsBatch submitting p h = processed-HoldsBatch p.process p h
  submitted-HoldsBatch submit_done p h = h

  act-HoldsBatch : (a : Actor) (p : State) → HoldsBatch p → HoldsBatch (act parts last a p)
  unfolding act map_cancel_step submit_cancel_step
  act-HoldsBatch (load order) p h = loaded-HoldsBatch order p.loader p refl h
  act-HoldsBatch map_next p h = mapped-HoldsBatch p.mapper p h
  act-HoldsBatch map_cancel p h = ground arith
  act-HoldsBatch submit_next p h = submitted-HoldsBatch p.submitter p h
  act-HoldsBatch submit_cancel p h = ground arith
  act-HoldsBatch cancel p h = h

held-length : {Params : Type 0} (mapper : Mapper Params) → length (held mapper) ≤ 1
held-length mapping = omega arith
held-length (emitting x) = omega arith
held-length map_done = omega arith

module _ {Block Params Strategy World : Type 0} (parts : Parts Block Params Strategy World)
    (limits : Limits) (strategy₀ : Strategy) (world₀ : World) (schedule : List Actor) where
  -- At any point of any schedule, neither channel holds more than its capacity of 25, and the blocks
  -- that are loaded and not yet taken by `submitBlocks`, those that `loadBlocks` and `mapBlocks` hold
  -- counted in, are at most 76.
  pub in_flight_bound :
      (length (final parts limits strategy₀ world₀ schedule).incoming ≤ capacity)
      × (length (final parts limits strategy₀ world₀ schedule).process ≤ capacity)
      × (length (pending (final parts limits strategy₀ world₀ schedule).loader)
            + length (final parts limits strategy₀ world₀ schedule).incoming
            + length (held (final parts limits strategy₀ world₀ schedule).mapper)
            + length (final parts limits strategy₀ world₀ schedule).process
          ≤ 76)
  unfolding init_pipeline
  in_flight_bound =
      let p = final parts limits strategy₀ world₀ schedule in
      let ends = final-Ends parts limits strategy₀ world₀ schedule in
      let batch =
        run_induction parts limits.end_block_num (HoldsBatch parts limits.end_block_num)
          (act-HoldsBatch parts limits.end_block_num) schedule
          (init_pipeline limits strategy₀ world₀) (omega arith) in
      (
        ends.incoming_fits,
        ends.process_fits,
        omega (arith, ends.incoming_fits, ends.process_fits, batch, held-length p.mapper),
      )
