-- ===== src/Benchmark/Enrich/Kept.antt =====
-- What `enrich` of packages/replayor/benchmark.go leaves as `addBlock` recorded it.
use replayor.Prelude.{◌≡◌, refl, List, [], arith, length}
use replayor.Exec.{ok, err, Result}
use replayor.Chain.{Receipt}
use replayor.Stats.{BlockCreationStats, quotient}
use replayor.Trace.{trace_receipts}
use replayor.Trace.Storage.{record_storage_changes, traces_loaded}
use replayor.Benchmark.Enrich.{
  DestNode, Options, enrich, sum_gas, count_success, receipts_loaded, compute_trace_stats,
}

-- Two records of one block, of as many transactions.
abbrev pub IsOf : BlockCreationStats → BlockCreationStats → Type 0
IsOf s s' = (s'.block_hash ≡ s.block_hash) × (s'.txn_count ≡ s.txn_count)

module _ (node : DestNode) (options : Options) where
  record_storage_changes-IsOf :
      (s : BlockCreationStats) → IsOf s (record_storage_changes node.storage_tracer s)
  unfolding record_storage_changes traces_loaded
  record_storage_changes-IsOf s = ground arith

  compute_trace_stats-IsOf :
      (receipts : List Receipt) (s : BlockCreationStats)
      → IsOf s (compute_trace_stats node options receipts s)
  unfolding compute_trace_stats
  compute_trace_stats-IsOf receipts s = ground (
    arith,
    record_storage_changes-IsOf s,
    record_storage_changes-IsOf (record s { op_codes = trace_receipts node.tracer receipts [] }),
  )

  receipts_loaded-IsOf :
      (r : Result (List Receipt)) (s : BlockCreationStats)
      → IsOf s (receipts_loaded node options r s)
  unfolding receipts_loaded
  receipts_loaded-IsOf (err e) s = (refl, refl)
  receipts_loaded-IsOf (ok receipts) s = compute_trace_stats-IsOf receipts (record s {
    gas_used = sum_gas s.gas_used receipts;
    success = quotient (count_success 0 receipts) (length receipts);
  })

  pub enrich-IsOf : (s : BlockCreationStats) → IsOf s (enrich node options s)
  unfolding enrich
  enrich-IsOf s = receipts_loaded-IsOf (node.retry_receipts 3 (node.block_receipts s.block_hash)) s
