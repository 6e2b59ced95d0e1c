-- ===== src/Benchmark/Enrich.antt =====
-- packages/replayor/benchmark.go, `enrich`, and packages/replayor/trace.go, `computeTraceStats`: what
-- is added to the record of a block once it is on the chain.
pub mod Kept
use replayor.Prelude.{ℕ, ◌+◌, Bool, List, [], ◌∷◌, ◌==◌, if◌then◌else◌, length, add64}
use replayor.Exec.{Result, ok, err}
use replayor.Chain.{Receipt}
use replayor.Stats.{BlockCreationStats, quotient}
use replayor.Trace.{Tracer, trace_receipts}
use replayor.Trace.Storage.{StorageTracer, record_storage_changes}

-- `types.ReceiptStatusSuccessful`
abbrev receipt_status_successful : ℕ
receipt_status_successful = 1

-- What the destination node answers once the block is in: the receipts of the block with a hash, to
-- the attempt of an index, and its traces.
pub record DestNode : Type 0 where
  pub block_receipts : ℕ → ℕ → Result (List Receipt)
  pub retry_receipts : ℕ → (ℕ → Result (List Receipt)) → Result (List Receipt)
  pub tracer : Tracer
  pub storage_tracer : StorageTracer

pub record Options : Type 0 where
  pub benchmark_opcodes : Bool
  pub diff_storage : Bool

-- The loop over the receipts: their gas, and how many of them succeeded.
unfoldable pub sum_gas : ℕ → List Receipt → ℕ
sum_gas gas_used [] = gas_used
sum_gas gas_used (receipt ∷ receipts) = sum_gas (add64 gas_used receipt.gas_used) receipts

unfoldable pub count_success : ℕ → List Receipt → ℕ
count_success success [] = success
count_success success (receipt ∷ receipts) =
    count_success (if receipt.status == receipt_status_successful then success + 1 else success)
      receipts

module _ (node : DestNode) (options : Options) where
  unfoldable pub compute_trace_stats : List Receipt → BlockCreationStats → BlockCreationStats
  compute_trace_stats receipts s =
      let traced =
        if options.benchmark_opcodes
        then record s { op_codes = trace_receipts node.tracer receipts [] }
        else s in
      if options.diff_storage then record_storage_changes node.storage_tracer traced else traced

  unfoldable pub receipts_loaded : Result (List Receipt) → BlockCreationStats → BlockCreationStats
  unfolding compute_trace_stats sum_gas count_success
  receipts_loaded (err e) s = s
  receipts_loaded (ok receipts) s = compute_trace_stats receipts (record s {
    gas_used = sum_gas s.gas_used receipts;
    success = quotient (count_success 0 receipts) (length receipts);
  })

  unfoldable pub enrich : BlockCreationStats → BlockCreationStats
  unfolding receipts_loaded
  enrich s = receipts_loaded (node.retry_receipts 3 (node.block_receipts s.block_hash)) s
