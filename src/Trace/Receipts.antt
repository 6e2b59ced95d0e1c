-- ===== src/Trace/Receipts.antt =====
-- What the receipts of a block add to the counters of packages/replayor/trace.go together.
use mathlib.Core.List.{foldr, Perm}
use mathlib.Core.List.Perm
use replayor.Prelude.{
  ℕ, ◌+◌, ◌%◌, ◌≡◌, String, List, [], ◌∷◌, arith, if◌then◌else◌, str_eq, eq_iff, add64, u64_mod,
  lookup, or_zero, lookup-insert, inl, inr,
}
use replayor.Exec.{Result-cases}
use replayor.Chain.{Receipt}
use replayor.Trace.{
  StructLog, TxTrace, Tracer, OpCodes, no_op_code, count_op, op_gas, count_logs, last_refund,
  gas_usage, count_trace, trace_loaded, tx_loaded, trace_receipt, trace_receipts,
}
use replayor.Trace.Counts.{counted, counted-count_op, counted-count_trace}

-- What the gas of an opcode reads.
abbrev pub gas_at : String → OpCodes → ℕ
gas_at op m = (or_zero (lookup op m) no_op_code).gas

gas_at-count_op :
    (op k : String) (gas : ℕ) (m : OpCodes)
    → gas_at op (count_op k gas m) ≡ (if str_eq k op then add64 (gas_at op m) gas else gas_at op m)
unfolding count_op
gas_at-count_op op k gas m = ground (
  arith,
  lookup-insert k op
      (record {
        count = (or_zero (lookup k m) no_op_code).count + 1;
        gas = add64 (or_zero (lookup k m) no_op_code).gas gas;
      })
      m,
  eq_iff k op,
)

-- A change of the counters that adds the same to the gas of an opcode whatever it was.
abbrev AddsGas : String → (OpCodes → OpCodes) → Type 0
AddsGas op f =
    (m m' : OpCodes)
    → (gas_at op (f m) + gas_at op m') % u64_mod ≡ (gas_at op (f m') + gas_at op m) % u64_mod

count_op-AddsGas : (op k : String) (gas : ℕ) → AddsGas op (count_op k gas)
count_op-AddsGas op k gas m m' =
    ground (arith, gas_at-count_op op k gas m, gas_at-count_op op k gas m')

AddsGas-comp :
    (op : String) (f g : OpCodes → OpCodes)
    → AddsGas op f
    → AddsGas op g
    → AddsGas op (λ m. g (f m))
AddsGas-comp op f g hf hg m m' = omega (arith, hf m m', hg (f m) (f m'))

count_logs-AddsGas : (op : String) (logs : List StructLog) → AddsGas op (count_logs logs)
unfolding count_logs
count_logs-AddsGas op [] m m' = omega arith
count_logs-AddsGas op (log ∷ logs) m m' =
    AddsGas-comp op (count_op log.op (op_gas log logs)) (count_logs logs)
      (count_op-AddsGas op log.op (op_gas log logs)) (count_logs-AddsGas op logs) m m'

count_trace-AddsGas :
    (op : String) (gas_limit : ℕ) (t : TxTrace) → AddsGas op (count_trace gas_limit t)
unfolding count_trace
count_trace-AddsGas op gas_limit t =
    let logs = t.struct_logs in
    let start = count_op "TRANSACTION" (gas_usage gas_limit t logs) in
    AddsGas-comp op (λ m. count_logs logs (start m)) (count_op "REFUND" (last_refund 0 logs))
      (AddsGas-comp op start (count_logs logs)
        (count_op-AddsGas op "TRANSACTION" (gas_usage gas_limit t logs))
        (count_logs-AddsGas op logs))
      (count_op-AddsGas op "REFUND" (last_refund 0 logs))

-- A change of the counters that adds the same to the count of an opcode whatever it was.
abbrev AddsCount : String → (OpCodes → OpCodes) → Type 0
AddsCount op f =
    (m m' : OpCodes) → counted op (f m) + counted op m' ≡ counted op (f m') + counted op m

module _ (tracer : Tracer) (op : String) where
  trace_receipt-Adds :
      (receipt : Receipt)
      → AddsGas op (trace_receipt tracer receipt) × AddsCount op (trace_receipt tracer receipt)
  unfolding trace_receipt tx_loaded trace_loaded
  trace_receipt-Adds receipt =
      let unknown : AddsGas op (count_op "UNKNOWN" receipt.gas_used)
          × AddsCount op (count_op "UNKNOWN" receipt.gas_used) =
        (
          count_op-AddsGas op "UNKNOWN" receipt.gas_used,
          λ m m'. omega (
            arith,
            counted-count_op op "UNKNOWN" receipt.gas_used m,
            counted-count_op op "UNKNOWN" receipt.gas_used m',
          ),
        ) in
      elim (Result-cases (tracer.retry_gas 3 (tracer.transaction_gas receipt.tx_hash))) [
        | inr (e, failed) ↦ rw failed unknown
        | inl (gas_limit, loaded) ↦
            rw loaded
              (elim (Result-cases
                (tracer.retry_trace 5 (tracer.trace_transaction receipt.tx_hash))) [
                  | inr (e, failed) ↦ rw failed unknown
                  | inl (t, traced) ↦ rw traced (
                    count_trace-AddsGas op gas_limit t,
                    λ m m'. omega (
                      arith,
                      counted-count_trace op gas_limit t m,
                      counted-count_trace op gas_limit t m',
                    ),
                  )
                ])
      ]

  -- What the transaction of a receipt alone gives the opcode.
  abbrev pub count_of : Receipt → ℕ
  count_of receipt = counted op (trace_receipt tracer receipt [])

  abbrev pub gas_of : Receipt → ℕ
  gas_of receipt = gas_at op (trace_receipt tracer receipt [])

abbrev pub sum_of : (Receipt → ℕ) → List Receipt → ℕ
sum_of f receipts = foldr (λ receipt total. f receipt + total) 0 receipts

ℕ_set : IsSet ℕ
ℕ_set = hlevel

sum_of-eq_of_Perm : (f : Receipt → ℕ) {l l' : List Receipt} → Perm l l' → sum_of f l ≡ sum_of f l'
sum_of-eq_of_Perm f p =
    Perm.foldr-eq ℕ_set (λ (receipt : Receipt) (total : ℕ). f receipt + total)
      (λ r s n. omega arith) p 0

module _ (tracer : Tracer) (op : String) where
  trace_receipts-sum :
      (receipts : List Receipt) (m : OpCodes)
      → (counted op (trace_receipts tracer receipts m)
          ≡ counted op m + sum_of (count_of tracer op) receipts)
        × (gas_at op (trace_receipts tracer receipts m) % u64_mod
            ≡ (gas_at op m + sum_of (gas_of tracer op) receipts) % u64_mod)
  unfolding trace_receipts lookup
  trace_receipts-sum [] m = (omega arith, omega arith)
  trace_receipts-sum (receipt ∷ receipts) m =
      let (more_gas, more) = trace_receipt-Adds tracer op receipt in
      let (counts, gas) = trace_receipts-sum receipts (trace_receipt tracer receipt m) in
      (omega (arith, more m [], counts), omega (arith, more_gas m [], gas))

  -- For the receipts of a block in any order, the count of an opcode is the sum of the counts that the
  -- transactions of the receipts give alone, and its gas that of their gas, modulo 2 ^ 64, whichever
  -- of the transactions cannot be loaded or traced: so neither depends on the order.
  pub trace_receipts_lem :
      (receipts receipts' : List Receipt)
      → Perm receipts receipts'
      → (counted op (trace_receipts tracer receipts []) ≡ sum_of (count_of tracer op) receipts')
        × (gas_at op (trace_receipts tracer receipts []) % u64_mod
            ≡ sum_of (gas_of tracer op) receipts' % u64_mod)
  unfolding lookup
  trace_receipts_lem receipts receipts' p =
      let (counts, gas) = trace_receipts-sum receipts [] in
      let count_kept = sum_of-eq_of_Perm (count_of tracer op) p in
      let gas_kept = sum_of-eq_of_Perm (gas_of tracer op) p in
      (omega (arith, counts, count_kept), omega (arith, gas, gas_kept))
