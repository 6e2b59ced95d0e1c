-- ===== src/Trace/Counts.antt =====
-- What packages/replayor/trace.go adds to the counters of one opcode, and to the gas of all of them.
use replayor.Prelude.{
  ℕ, ◌+◌, ◌%◌, ◌≡◌, String, List, [], ◌∷◌, arith, if◌then◌else◌, str_eq, eq_iff, add64, u64_mod,
  lookup, insert, or_zero, lookup-insert,
}
use replayor.Stats.{OpCodeStats}
use replayor.Trace.{
  StructLog, TxTrace, OpCodes, no_op_code, count_op, op_gas, count_logs, last_refund, gas_usage,
  count_trace,
}

-- What the counter of an opcode reads.
abbrev pub counted : String → OpCodes → ℕ
counted op m = (or_zero (lookup op m) no_op_code).count

-- How many of the logs are of an opcode.
unfoldable pub occurrences : String → List StructLog → ℕ
occurrences op [] = 0
occurrences op (log ∷ logs) = (if str_eq log.op op then 1 else 0) + occurrences op logs

pub counted-count_op :
    (op k : String) (gas : ℕ) (m : OpCodes)
    → counted op (count_op k gas m) ≡ (if str_eq k op then 1 else 0) + counted op m
unfolding count_op
counted-count_op op k gas m = ground (
  arith,
  lookup-insert k op
      (record {
        count = (or_zero (lookup k m) no_op_code).count + 1;
        gas = add64 (or_zero (lookup k m) no_op_code).gas gas;
      })
      m,
  eq_iff k op,
)

counted-count_logs :
    (op : String) (logs : List StructLog) (m : OpCodes)
    → counted op (count_logs logs m) ≡ occurrences op logs + counted op m
unfolding count_logs occurrences
counted-count_logs op [] m = omega arith
counted-count_logs op (log ∷ logs) m = omega (
  arith,
  counted-count_logs op logs (count_op log.op (op_gas log logs) m),
  counted-count_op op log.op (op_gas log logs) m,
)

-- A traced transaction adds to the counter of each opcode the number of its logs, and one more to
-- those of the two entries that stand for the transaction and its refund.
pub counted-count_trace :
    (op : String) (gas_limit : ℕ) (t : TxTrace) (m : OpCodes)
    → counted op (count_trace gas_limit t m)
      ≡ counted op m
        + occurrences op t.struct_logs
        + (if str_eq "TRANSACTION" op then 1 else 0)
        + (if str_eq "REFUND" op then 1 else 0)
unfolding count_trace
counted-count_trace op gas_limit t m =
    let started = count_op "TRANSACTION" (gas_usage gas_limit t t.struct_logs) m in
    omega (
      arith,
      counted-count_op op "TRANSACTION" (gas_usage gas_limit t t.struct_logs) m,
      counted-count_logs op t.struct_logs started,
      counted-count_op op "REFUND" (last_refund 0 t.struct_logs) (count_logs t.struct_logs started),
    )

-- The gas of all entries, as the bits of a `uint64`.
unfoldable pub total_gas : OpCodes → ℕ
total_gas [] = 0
total_gas ((k, s) ∷ m) = add64 s.gas (total_gas m)

total_gas-insert :
    (k : String) (s : OpCodeStats) (m : OpCodes)
    → (total_gas (insert k s m) + (or_zero (lookup k m) no_op_code).gas) % u64_mod
      ≡ (total_gas m + s.gas) % u64_mod
unfolding total_gas insert lookup
total_gas-insert k s [] = ground arith
total_gas-insert k s ((j, t) ∷ m) = ground (arith, total_gas-insert k s m)

total_gas-count_op :
    (k : String) (gas : ℕ) (m : OpCodes)
    → total_gas (count_op k gas m) % u64_mod ≡ (total_gas m + gas) % u64_mod
unfolding count_op
total_gas-count_op k gas m = omega (
  arith,
  total_gas-insert k
      (record {
        count = (or_zero (lookup k m) no_op_code).count + 1;
        gas = add64 (or_zero (lookup k m) no_op_code).gas gas;
      })
      m,
)

-- The sum of the gas of the logs.
unfoldable pub logs_gas : List StructLog → ℕ
logs_gas [] = 0
logs_gas (log ∷ logs) = add64 (op_gas log logs) (logs_gas logs)

total_gas-count_logs :
    (logs : List StructLog) (m : OpCodes)
    → total_gas (count_logs logs m) % u64_mod ≡ (total_gas m + logs_gas logs) % u64_mod
unfolding count_logs logs_gas
total_gas-count_logs [] m = omega arith
total_gas-count_logs (log ∷ logs) m = omega (
  arith,
  total_gas-count_logs logs (count_op log.op (op_gas log logs) m),
  total_gas-count_op log.op (op_gas log logs) m,
)

-- A traced transaction adds its own gas, that of its logs and the refund, modulo 2 ^ 64.
pub total_gas-count_trace :
    (gas_limit : ℕ) (t : TxTrace) (m : OpCodes)
    → total_gas (count_trace gas_limit t m) % u64_mod
      ≡ (total_gas m
          + gas_usage gas_limit t t.struct_logs
          + logs_gas t.struct_logs
          + last_refund 0 t.struct_logs)
        % u64_mod
unfolding count_trace
total_gas-count_trace gas_limit t m =
    let started = count_op "TRANSACTION" (gas_usage gas_limit t t.struct_logs) m in
    omega (
      arith,
      total_gas-count_op "TRANSACTION" (gas_usage gas_limit t t.struct_logs) m,
      total_gas-count_logs t.struct_logs started,
      total_gas-count_op "REFUND" (last_refund 0 t.struct_logs) (count_logs t.struct_logs started),
    )
