-- ===== src/Benchmark/Pipeline/Delivery.antt =====
-- What a run of the goroutines of packages/replayor/benchmark.go submits, whatever the schedule.
use native.Mathlib.Decide.{dec_lt}
use replayor.Prelude.{
  ℕ, ◌+◌, ◌-◌, ◌≤◌, ◌<◌, ◌≡◌, refl, ◌∙◌, ap, sym, true, false, inl, inr, some, List, [], ◌∷◌, ◌++◌,
  map, arith, append-nil, count_up, length, u64_mod, All, if_keeps, length-map, length-map-count_up,
  length-count_up, count_up_prefix, map-count_up_prefix, count_up_bound, count_up_next, All-map,
  append_cut, map-count_up-append,
}
use mathlib.Core.List.{map-append}
use replayor.Exec.{done, each, each-append-inv}
use replayor.Benchmark.Batch.{fetch, concurrency}
use replayor.Benchmark.Pipeline.{
  Limits, Parts, Pipeline, Actor, submit_done, init_pipeline, act, step, run,
}
use replayor.Benchmark.Pipeline.Flow.{blocks, held, pending, map_one, Flow, act-Flow}
use replayor.Benchmark.Pipeline.Ends.{Ends, act-Ends}
use replayor.Benchmark.Pipeline.Numbers.{KeepsNumber, mapped-append, mapped_numbers}

module _ {Block Params Strategy World : Type 0} (parts : Parts Block Params Strategy World)
    (last : ℕ) where
  -- What every step of a goroutine keeps holds after every schedule.
  pub run_induction :
      (P : Pipeline Block Params Strategy World → Type 0)
      → ((a : Actor) (p : Pipeline Block Params Strategy World) → P p → P (act parts last a p))
      → (schedule : List Actor) (p : Pipeline Block Params Strategy World) → P p
      → P (run parts last schedule p)
  unfolding run
  run_induction P keep [] p h = h
  run_induction P keep (a ∷ schedule) p h =
      run_induction P keep schedule (step parts last a p)
        (if_keeps P p.crashed p (act parts last a p) h (keep a p h))

module _ {Block Params Strategy World : Type 0} (parts : Parts Block Params Strategy World)
    (limits : Limits) (strategy₀ : Strategy) (world₀ : World) (schedule : List Actor) where
  abbrev pub final : Pipeline Block Params Strategy World
  final = run parts limits.end_block_num schedule (init_pipeline limits strategy₀ world₀)

  module _ (ordered : limits.start_block_num ≤ limits.end_block_num + 1)
      (room : limits.end_block_num + concurrency < u64_mod) where
    pub final-Flow : Flow parts limits.start_block_num limits.end_block_num strategy₀ world₀ final
    unfolding init_pipeline each
    final-Flow =
        run_induction parts limits.end_block_num _
          (act-Flow parts limits.start_block_num limits.end_block_num strategy₀ world₀ room)
          schedule (init_pipeline limits strategy₀ world₀)
          (record {
            fetched = 0;
            consumed = [];
            position = omega arith;
            near = omega arith;
            served = λ i lt. absurd (omega arith);
            split = refl;
            outs = refl;
            added = refl;
            unrejected = λ e. refl;
          })

  pub final-Ends : Ends parts limits.end_block_num limits.remaining_block_count final
  unfolding init_pipeline
  final-Ends =
      run_induction parts limits.end_block_num _
        (act-Ends parts limits.end_block_num limits.remaining_block_count) schedule
        (init_pipeline limits strategy₀ world₀) (ground arith)

  module _ (ordered : limits.start_block_num ≤ limits.end_block_num + 1)
      (room : limits.end_block_num + concurrency < u64_mod) (block_number : Block → ℕ)
      (keeps : KeepsNumber parts block_number) where
    abbrev produced : List Params
    produced = final.submitted ++ (final.rejected ++ (final.process ++ held final.mapper))

    produced_numbers :
        (f : Flow parts limits.start_block_num limits.end_block_num strategy₀ world₀ final)
        → (f.consumed ≡ blocks parts limits.start_block_num (length f.consumed))
          × (length f.consumed ≤ f.fetched)
          × (map parts.number produced ≡ count_up limits.start_block_num (length f.consumed))
    produced_numbers f =
        let (cut, le) =
          map-count_up_prefix (fetch parts.source) limits.start_block_num f.fetched f.consumed
            (final.incoming ++ pending final.loader) f.split in
        (
          cut,
          le,
          mapped_numbers parts block_number keeps limits.start_block_num (length f.consumed) []
              produced strategy₀ final.strategy (λ i lt. f.served i (omega arith))
              (rw cut at f.outs),
        )

    submitted_prefix :
        (f : Flow parts limits.start_block_num limits.end_block_num strategy₀ world₀ final)
        → (map parts.number final.submitted
            ≡ count_up limits.start_block_num (length final.submitted))
          × (length final.submitted ≤ length f.consumed)
    submitted_prefix f =
        let (cut, le, numbers) = produced_numbers f in
        rw (sym (length-map parts.number final.submitted)) (
          count_up_prefix limits.start_block_num (length f.consumed)
            (map parts.number final.submitted)
            (map parts.number (final.rejected ++ (final.process ++ held final.mapper)))
            (sym (map-append parts.number final.submitted _) ∙ numbers))

    -- For a source that serves under a number the block of that number, a strategy that skips no block
    -- and keeps its number, a start block at most one past the end block and an end block 25 below
    -- 2 ^ 64: at any point of any schedule the parameters handed to `addBlock`
    -- have consecutive numbers from the start block on, none of them past the end block, and
    -- `addBlock` has run on them in that order.
    pub submitted_in_order :
        (map parts.number final.submitted
          ≡ count_up limits.start_block_num (length final.submitted))
        × All (λ x. parts.number x ≤ limits.end_block_num) final.submitted
        × (each parts.add_block final.submitted world₀ ≡ (done tt, final.world))
    submitted_in_order =
        let f = final-Flow ordered room in ((submitted_prefix f).0, final-Ends.within, f.added)

    pub submitted_bound : limits.start_block_num + length final.submitted ≤ limits.end_block_num + 1
    submitted_bound = elim (dec_lt 0 (length final.submitted)) [
      | yes some_sent ↦
          count_up_bound limits.start_block_num (length final.submitted) limits.end_block_num
            (rw submitted_in_order.0 at (
              All-map (λ n. n ≤ limits.end_block_num) parts.number final.submitted
                submitted_in_order.1))
            some_sent
      | no none_sent ↦ omega arith
    ]

    module _ (returned : final.submitter ≡ submit_done) (running : final.cancelled ≡ false) where
      -- the submitter saw the end of `processBlocks`
      length_closed :
          (final.process_closed ≡ true) × (final.process ≡ []) × (final.rejected ≡ [])
          → length final.submitted ≡ limits.end_block_num + 1 - limits.start_block_num
      length_closed (shut, none_left, none_rejected) =
          let f = final-Flow ordered room in
          let (mapper, loader, drained) = final-Ends.closed shut in
          let (cut, le, numbers) = produced_numbers f in
          let all : length f.consumed ≡ f.fetched =
            ap length (sym (append-nil f.consumed) ∙ (rw (drained, loader) at f.split))
            ∙ length-map-count_up (fetch parts.source) limits.start_block_num f.fetched in
          let len : length final.submitted ≡ length f.consumed =
            sym (length-map parts.number final.submitted)
            ∙ ap length (rw (none_rejected, none_left, mapper, append-nil) at numbers)
            ∙ length-count_up limits.start_block_num (length f.consumed) in
          let past : limits.end_block_num < limits.start_block_num + f.fetched =
            rw loader at f.position in
          omega (arith, submitted_bound)

      -- the submitter saw a block past the end
      length_rejected :
          (x : Params)
          → final.rejected ≡ x ∷ []
          → length final.submitted ≡ limits.end_block_num + 1 - limits.start_block_num
      length_rejected x r =
          let f = final-Flow ordered room in
          let (cut, le, numbers) = produced_numbers f in
          let next : parts.number x ≡ limits.start_block_num + length final.submitted =
            rw (length-map) at (
              count_up_next limits.start_block_num (length f.consumed)
                (map parts.number final.submitted) (parts.number x)
                (map parts.number (final.process ++ held final.mapper))
                (sym (map-append parts.number final.submitted _) ∙ (rw r at numbers))) in
          let past : limits.end_block_num < parts.number x = (rw r at final-Ends.beyond).0 in
          omega (arith, submitted_bound)

      length_submitted : length final.submitted ≡ limits.end_block_num + 1 - limits.start_block_num
      length_submitted = elim (final-Ends.reason returned running) [
        | inl shut ↦ length_closed shut
        | inr (x, r) ↦ length_rejected x r
      ]

      -- the mapper's work on the blocks up to the end made the submitted parameters
      submitted_mapped :
          (n : ℕ)
          → length final.submitted ≡ n
          → (st : Strategy) × (each
                (map_one parts)
                (blocks parts limits.start_block_num n)
                ([], strategy₀)
              ≡ (done tt, (final.submitted, st)))
      submitted_mapped n len =
          let f = final-Flow ordered room in
          let (cut, le, numbers) = produced_numbers f in
          let more : length f.consumed ≡ n + (length f.consumed - n) =
            omega (arith, (submitted_prefix f).1) in
          let split : blocks parts limits.start_block_num (length f.consumed)
              ≡ blocks parts limits.start_block_num n
                ++ blocks parts (limits.start_block_num + n) (length f.consumed - n) =
            ap (blocks parts limits.start_block_num) more
            ∙ map-count_up-append (fetch parts.source) limits.start_block_num n
                (length f.consumed - n) in
          let ((out, st), first, rest) =
            each-append-inv (map_one parts) (blocks parts limits.start_block_num n)
              (blocks parts (limits.start_block_num + n) (length f.consumed - n)) ([], strategy₀)
              (produced, final.strategy) (rw (cut, split) at f.outs) in
          let (later, e) =
            mapped-append parts (blocks parts (limits.start_block_num + n) (length f.consumed - n))
              out produced st final.strategy rest in
          let out_numbers : map parts.number out ≡ count_up limits.start_block_num n =
            mapped_numbers parts block_number keeps limits.start_block_num n [] out strategy₀ st
              (λ i lt. f.served i (omega (arith, le, more))) first in
          let out_length : length out ≡ n =
            sym (length-map parts.number out)
            ∙ ap length out_numbers
            ∙ length-count_up limits.start_block_num n in
          let same : final.submitted ≡ out =
            append_cut final.submitted (final.rejected ++ (final.process ++ held final.mapper)) out
              later e (omega arith) in
          (st, first ∙ ap (λ o. (done tt, (o, st))) (sym same))

      submitted_served :
          (n : ℕ)
          → length final.submitted ≡ n
          → (i : ℕ) → i < n
          → (b : Block) × (fetch parts.source (limits.start_block_num + i) ≡ some b)
      submitted_served n len i lt =
          let f = final-Flow ordered room in
          let le : length f.consumed ≤ f.fetched = (produced_numbers f).1 in
          let le' : length final.submitted ≤ length f.consumed = (submitted_prefix f).1 in
          f.served i (omega arith)

      -- For a source that serves under a number the block of that number, a strategy that skips no
      -- block and keeps its number, a start block at most one past the end block and an end block 25
      -- below 2 ^ 64: a run in which `submitBlocks` has returned without a
      -- cancellation has handed to `addBlock` exactly what the strategy makes of the blocks from
      -- the start block to the end block, in the order of their numbers, as one sequential loop
      -- would, and ends in the world of that loop; all of these blocks were fetched.
      pub complete_run :
          (map parts.number final.submitted
            ≡ count_up limits.start_block_num (limits.end_block_num + 1 - limits.start_block_num))
          × ((st : Strategy) × (each
                  (map_one parts)
                  (blocks parts limits.start_block_num
                    (limits.end_block_num + 1 - limits.start_block_num))
                  ([], strategy₀)
                ≡ (done tt, (final.submitted, st))))
          × (each parts.add_block final.submitted world₀ ≡ (done tt, final.world))
          × ((i : ℕ)
              → i < limits.end_block_num + 1 - limits.start_block_num
              → (b : Block) × (fetch parts.source (limits.start_block_num + i) ≡ some b))
      complete_run = (
        submitted_in_order.0 ∙ ap (count_up limits.start_block_num) length_submitted,
        submitted_mapped _ length_submitted,
        submitted_in_order.2,
        submitted_served _ length_submitted,
      )
