-- ===== src/Trace/Tests.antt =====
-- packages/replayor/trace.go on the trace of a transaction that calls another contract.
use mathlib.Core.List.Perm
use replayor.Prelude.{
  Bool, ◌==◌, Dict, length, lookup, insert, ℕ, ◌+◌, ◌%◌, ◌≡◌, refl, false, String, List, [], ◌∷◌,
  arith, u64_mod, if◌then◌else◌, str_eq,
}
use replayor.Exec.{ok, err}
use replayor.Stats.{no_stats}
use replayor.Trace.Storage.{
  Accounts, StorageTrace, StorageTracer, merge_slots, merge_accounts, merge_traces, slot_in,
  count_deleted, deleted_slots, deleted_accounts, written_accounts, changes, traces_loaded,
  record_storage_changes,
}
use replayor.Trace.Slots.{touched, has, IsDict}
use replayor.Trace.Accounts.{posted, slot_touched, accounts_changed_lem}
use replayor.Trace.Receipts.{gas_at, count_of, gas_of, sum_of, trace_receipts_lem}
use replayor.Trace.Changed.{Slot, mem, IsDistinct, slots_changed_lem}
use replayor.Chain.{Receipt}
use replayor.Trace.{Tracer, trace_receipts, StructLog, TxTrace, count_trace}
use replayor.Trace.Counts.{counted, occurrences, counted-count_trace, total_gas}
use replayor.Trace.Frames.{Frame, last, next, call, gas_conserved}

abbrev log_of : String → ℕ → ℕ → ℕ → ℕ → StructLog
log_of op gas gas_cost refund depth = record {
  op = op;
  gas = gas;
  gas_cost = gas_cost;
  refund = refund;
  depth = depth;
}

abbrev inner_logs : List StructLog
inner_logs = log_of "SSTORE" 500 200 0 2 ∷ log_of "RETURN" 300 0 0 2 ∷ []

-- The first call costs 600, of which it forwards 500 and gets 300 back. The second one, of a
-- precompile, costs 150, and gets 100 back.
abbrev rest_logs : List StructLog
rest_logs = log_of "CALL" 697 150 0 1 ∷ log_of "STOP" 647 0 20 1 ∷ []

abbrev logs : List StructLog
logs =
    log_of "PUSH1" 1000 3 0 1
    ∷ log_of "CALL" 997 600 0 1
    ∷ log_of "SSTORE" 500 200 0 2
    ∷ log_of "RETURN" 300 0 0 2
    ∷ log_of "CALL" 697 150 0 1
    ∷ log_of "STOP" 647 0 20 1
    ∷ []

abbrev tx_trace : TxTrace
tx_trace = record { gas = 21_303; failed = false; struct_logs = logs }

inner_frame : Frame 2 500 inner_logs 300
inner_frame =
    next (log_of "SSTORE" 500 200 0 2) (log_of "RETURN" 300 0 0 2 ∷ []) 0 refl refl refl
      (omega arith) refl (last (log_of "RETURN" 300 0 0 2) refl refl refl refl)

rest_frame : Frame 1 697 rest_logs 647
rest_frame =
    next (log_of "CALL" 697 150 0 1) (log_of "STOP" 647 0 20 1 ∷ []) 100 refl refl refl
      (omega arith) refl (last (log_of "STOP" 647 0 20 1) refl refl refl refl)

frame : Frame 1 1000 logs 647
frame = next (log_of "PUSH1" 1000 3 0 1) _ 0 refl refl refl (omega arith) refl (
    call (log_of "CALL" 997 600 0 1) inner_logs rest_logs refl refl refl (omega arith) refl
      inner_frame rest_frame)

gas_conserved_example :
    (total_gas (count_trace 22_000 tx_trace []) + 647) % u64_mod
    ≡ (total_gas [] + 22_000 + 20) % u64_mod
gas_conserved_example =
    gas_conserved 22_000 tx_trace []
      (log_of "PUSH1" 1000 3 0 1
        ∷ log_of "CALL" 997 600 0 1
        ∷ log_of "SSTORE" 500 200 0 2
        ∷ log_of "RETURN" 300 0 0 2
        ∷ log_of "CALL" 697 150 0 1
        ∷ [])
      (log_of "STOP" 647 0 20 1) frame (omega arith) (omega arith) refl

counted-count_trace_example :
    counted "SSTORE" (count_trace 22_000 tx_trace [])
    ≡ counted "SSTORE" []
      + occurrences "SSTORE" logs
      + (if str_eq "TRANSACTION" "SSTORE" then 1 else 0)
      + (if str_eq "REFUND" "SSTORE" then 1 else 0)
counted-count_trace_example = counted-count_trace "SSTORE" 22_000 tx_trace []

-- Two transactions: one deletes a slot and writes another, the second writes the first one again.
abbrev slots : List String → Dict String
slots [] = []
slots (k ∷ ks) = (k, "1") ∷ slots ks

abbrev account : String → List String → Accounts
account a ks = (a, record { balance = "1"; nonce = 1; storage = slots ks }) ∷ []

abbrev traces : List StorageTrace
traces =
    record { tx_hash = "t1"; pre = account "a" ("x" ∷ "y" ∷ []); post = account "a" ("y" ∷ []) }
    ∷ record { tx_hash = "t2"; pre = account "b" ("x" ∷ []); post = account "a" ("x" ∷ "z" ∷ []) }
    ∷ []

abbrev storage_tracer : StorageTracer
storage_tracer = record {
  trace_block = λ hash attempt. ok traces;
  retry_traces = λ attempts op. op 0;
}

slots_changed_lem_example :
    (ps : List Slot) × IsDistinct ps
    × ((a k : String) → mem (a, k) ps ≡ touched a k traces)
    × ((record_storage_changes storage_tracer no_stats).slots_changed ≡ length ps % u64_mod)
slots_changed_lem_example = slots_changed_lem storage_tracer no_stats traces refl

four_slots : (record_storage_changes storage_tracer no_stats).slots_changed ≡ 4
unfolding record_storage_changes traces_loaded merge_traces merge_accounts merge_slots changes
    deleted_accounts deleted_slots count_deleted slot_in written_accounts lookup insert
four_slots = refl

accounts_changed_lem_example :
    (accounts : Accounts) × (tries : Dict Bool) × (IsDict accounts × IsDict tries)
    × ((a : String) → has a accounts ≡ posted a traces)
    × ((a : String) → has a tries ≡ slot_touched a traces)
    × ((record_storage_changes storage_tracer no_stats).accounts_changed
        ≡ length accounts % u64_mod)
    × ((record_storage_changes storage_tracer no_stats).storage_tries_changed
        ≡ length tries % u64_mod)
accounts_changed_lem_example = accounts_changed_lem storage_tracer no_stats traces refl

-- The second transaction of a block cannot be traced.
abbrev gas_tracer : Tracer
gas_tracer = record {
  transaction_gas = λ hash attempt. ok 22_000;
  trace_transaction = λ hash attempt. if hash == 2 then err "not found" else ok tx_trace;
  retry_gas = λ attempts op. op 0;
  retry_trace = λ attempts op. op 0;
}

abbrev receipt : ℕ → Receipt
receipt hash = record { tx_hash = hash; gas_used = 21_303; status = 1 }

trace_receipts_lem_example :
    (counted "UNKNOWN" (trace_receipts gas_tracer (receipt 1 ∷ receipt 2 ∷ []) [])
      ≡ sum_of (count_of gas_tracer "UNKNOWN") (receipt 2 ∷ receipt 1 ∷ []))
    × (gas_at "UNKNOWN" (trace_receipts gas_tracer (receipt 1 ∷ receipt 2 ∷ []) []) % u64_mod
        ≡ sum_of (gas_of gas_tracer "UNKNOWN") (receipt 2 ∷ receipt 1 ∷ []) % u64_mod)
trace_receipts_lem_example =
    trace_receipts_lem gas_tracer "UNKNOWN" (receipt 1 ∷ receipt 2 ∷ [])
      (receipt 2 ∷ receipt 1 ∷ []) (Perm.swap (receipt 2) (receipt 1) [])
