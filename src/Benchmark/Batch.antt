-- ===== src/Benchmark/Batch.antt =====
-- packages/replayor/benchmark.go, the inner part of `loadBlocks`: one batch of blocks, fetched by
-- `concurrency` goroutines that store into a shared slice in the order in which they finish.
pub mod Order
use replayor.Prelude.{
  ℕ, zero, suc, Bool, true, false, ◌&&◌, ◌||◌, Option, none, some, List, [], ◌∷◌, ltb, ◌==◌, set,
  replicate, add64,
}
use replayor.Exec.{Result, ok, err}

abbrev pub concurrency : ℕ
concurrency = 25

-- The source node: what the attempt of that index to read a block answers, the block's number
-- given as the bits of an `int64`. The block may be nil. `retry_do` is op-service's `retry.Do`.
pub record SourceNode (Block : Type 0) : Type 0 where
  pub block_by_number : ℕ → ℕ → Result (Option Block)
  pub retry_do : ℕ → (ℕ → Result (Option Block)) → Result (Option Block)

module _ {Block : Type 0} (node : SourceNode Block) where
  unfoldable pub get_block_from_source_node : ℕ → Result (Option Block)
  get_block_from_source_node block_num = node.retry_do 10 (node.block_by_number block_num)

  -- What a goroutine fetches; `none` where it panics, on an error and on a nil block.
  unfoldable pub fetch : ℕ → Option Block
  unfolding get_block_from_source_node
  fetch block_num = elim (get_block_from_source_node block_num) [
    | err e ↦ none
    | ok none ↦ none
    | ok (some block) ↦ some block
  ]

  -- The goroutines of a batch finish in the order given: each stores its block at its index.
  -- A panic in one of them ends the process: `none`.
  unfoldable pub run_workers : ℕ → List ℕ → List (Option Block) → Option (List (Option Block))
  run_workers block_start_range [] results = some results
  run_workers block_start_range (index ∷ order) results =
      elim (fetch (add64 block_start_range index)) [
        | none ↦ none
        | some block ↦ run_workers block_start_range order (set results index (some block))
      ]

  -- The slice after `wg.Wait()`, from one of nil pointers.
  unfoldable pub load_batch : ℕ → List ℕ → Option (List (Option Block))
  unfolding run_workers
  load_batch block_start_range order =
      run_workers block_start_range order (replicate concurrency none)

abbrev pub contains : ℕ → List ℕ → Bool
contains i [] = false
contains i (j ∷ js) = i == j || contains i js

abbrev pub contains_below : ℕ → List ℕ → Bool
contains_below zero order = true
contains_below (suc n) order = contains n order && contains_below n order

abbrev pub all_below : ℕ → List ℕ → Bool
all_below n [] = true
all_below n (i ∷ order) = ltb i n && all_below n order

-- Each of the goroutines of a batch has finished, so that `wg.Wait()` returns.
unfoldable pub all_finished : List ℕ → Bool
all_finished order = all_below concurrency order && contains_below concurrency order
