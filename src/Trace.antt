-- ===== src/Trace.antt =====
-- packages/replayor/trace.go: the gas of each opcode of a block, from the traces of its transactions.
pub mod Counts
pub mod Frames
pub mod Storage
pub mod Slots
pub mod Changed
pub mod Accounts
pub mod Receipts
mod Tests
use replayor.Prelude.{
  ℕ, ◌+◌, String, Bool, List, [], ◌∷◌, ltb, ◌==◌, if◌then◌else◌, add64, sub64, Dict, lookup, insert,
  or_zero,
}
use replayor.Exec.{Result, ok, err}
use replayor.Chain.{Receipt}
use replayor.Stats.{OpCodeStats}

pub record StructLog : Type 0 where
  pub op : String
  pub gas : ℕ
  pub gas_cost : ℕ
  pub refund : ℕ
  pub depth : ℕ

pub record TxTrace : Type 0 where
  pub gas : ℕ
  pub failed : Bool
  pub struct_logs : List StructLog

-- What the destination node answers to the attempt of that index: the gas limit of a transaction,
-- `TransactionByHash(hash).Gas()`, and its trace, `debug_traceTransaction`. `retry_do` is
-- op-service's `retry.Do`, at the two types at which `traceReceipt` calls it.
pub record Tracer : Type 0 where
  pub transaction_gas : ℕ → ℕ → Result ℕ
  pub trace_transaction : ℕ → ℕ → Result TxTrace
  pub retry_gas : ℕ → (ℕ → Result ℕ) → Result ℕ
  pub retry_trace : ℕ → (ℕ → Result TxTrace) → Result TxTrace

abbrev pub OpCodes : Type 0
OpCodes = Dict OpCodeStats

abbrev pub no_op_code : OpCodeStats
no_op_code = record { count = 0; gas = 0 }

-- `opCodes[op] = stats.OpCodeStats{Count: opCodes[op].Count + 1, Gas: opCodes[op].Gas + gas}`
unfoldable pub count_op : String → ℕ → OpCodes → OpCodes
count_op op gas op_codes =
    let old = or_zero (lookup op op_codes) no_op_code in
    insert op (record { count = old.count + 1; gas = add64 old.gas gas }) op_codes

-- The gas of one log, by the log after it.
unfoldable pub op_gas : StructLog → List StructLog → ℕ
op_gas log [] = log.gas_cost
op_gas log (next_log ∷ _) =
    if ltb log.depth next_log.depth
    then sub64 log.gas_cost next_log.gas
    else if log.depth == next_log.depth
    then sub64 log.gas next_log.gas
    else log.gas_cost

-- The loop over the logs.
unfoldable pub count_logs : List StructLog → OpCodes → OpCodes
count_logs [] op_codes = op_codes
count_logs (log ∷ logs) op_codes = count_logs logs (count_op log.op (op_gas log logs) op_codes)

-- `gasRefund` after the loop: the refund of the last log.
unfoldable pub last_refund : ℕ → List StructLog → ℕ
last_refund gas_refund [] = gas_refund
last_refund gas_refund (log ∷ logs) = last_refund log.refund logs

unfoldable pub gas_usage : ℕ → TxTrace → List StructLog → ℕ
gas_usage gas_limit tx_trace [] = tx_trace.gas
gas_usage gas_limit tx_trace (log ∷ _) = sub64 gas_limit log.gas

unfoldable pub count_trace : ℕ → TxTrace → OpCodes → OpCodes
count_trace gas_limit tx_trace op_codes =
    let logs = tx_trace.struct_logs in
    let started = count_op "TRANSACTION" (gas_usage gas_limit tx_trace logs) op_codes in
    count_op "REFUND" (last_refund 0 logs) (count_logs logs started)

trace_loaded : ℕ → Receipt → Result TxTrace → OpCodes → OpCodes
trace_loaded gas_limit receipt (err e) op_codes = count_op "UNKNOWN" receipt.gas_used op_codes
trace_loaded gas_limit receipt (ok tx_trace) op_codes = count_trace gas_limit tx_trace op_codes

module _ (tracer : Tracer) where
  tx_loaded : Receipt → Result ℕ → OpCodes → OpCodes
  unfolding trace_loaded
  tx_loaded receipt (err e) op_codes = count_op "UNKNOWN" receipt.gas_used op_codes
  tx_loaded receipt (ok gas_limit) op_codes =
      trace_loaded gas_limit receipt
        (tracer.retry_trace 5 (tracer.trace_transaction receipt.tx_hash)) op_codes

  unfoldable pub trace_receipt : Receipt → OpCodes → OpCodes
  unfolding tx_loaded
  trace_receipt receipt op_codes =
      tx_loaded receipt (tracer.retry_gas 3 (tracer.transaction_gas receipt.tx_hash)) op_codes

  -- The loop of `computeTraceStats` over the receipts of a block.
  unfoldable pub trace_receipts : List Receipt → OpCodes → OpCodes
  unfolding trace_receipt
  trace_receipts [] op_codes = op_codes
  trace_receipts (receipt ∷ receipts) op_codes =
      trace_receipts receipts (trace_receipt receipt op_codes)
