-- ===== src/Trace/Frames.antt =====
-- The gas that packages/replayor/trace.go charges to the opcodes of a transaction adds up to the gas
-- that the transaction took, for every trace that is shaped as an execution: frames inside frames.
use replayor.Prelude.{
  ℕ, suc, ◌+◌, ◌%◌, ◌≤◌, ◌<◌, ◌≡◌, refl, List, [], ◌∷◌, ◌++◌, append_assoc, arith, u64_mod, sub64,
  ◌-◌, append-nil,
}
use replayor.Trace.{StructLog, TxTrace, OpCodes, op_gas, last_refund, gas_usage, count_trace}
use replayor.Trace.Counts.{logs_gas, total_gas, total_gas-count_trace}

-- `Frame d g logs left`: a call frame at depth `d` starts with gas `g`, runs through the logs and
-- leaves `left`. An operation pays its cost. A call pays its cost, which contains what it forwards,
-- and gets back what the inner frame leaves; the stipend of a call is part of `forwarded`. A call that
-- runs no code, of an account without code or of a precompile, has no inner logs: it is a `next`, which
-- gets `back` what was not used; other operations get nothing back.
pub data Frame : ℕ → ℕ → List StructLog → ℕ → Type 0 where
  last :
      (log : StructLog) {d g left : ℕ} {logs : List StructLog}
      → log.depth ≡ d
      → log.gas ≡ g
      → g ≡ left + log.gas_cost
      → logs ≡ log ∷ []
      → Frame d g logs left
  next :
      (log : StructLog) (rest : List StructLog) (back : ℕ) {d g g' left : ℕ} {logs : List StructLog}
      → log.depth ≡ d
      → log.gas ≡ g
      → g + back ≡ g' + log.gas_cost
      → g' < u64_mod
      → logs ≡ log ∷ rest
      → Frame d g' rest left
      → Frame d g logs left
  call :
      (log : StructLog) (inner rest : List StructLog) {d g forwarded back g' left : ℕ}
      {logs : List StructLog}
      → log.depth ≡ d
      → log.gas ≡ g
      → g + back ≡ g' + log.gas_cost
      → forwarded < u64_mod
      → logs ≡ log ∷ (inner ++ rest)
      → Frame (suc d) forwarded inner back
      → Frame d g' rest left
      → Frame d g logs left

-- The first log of a frame is at its depth and shows its gas.
Frame-head :
    {d g left : ℕ} {logs : List StructLog}
    → Frame d g logs left
    → (log : StructLog) × (rest : List StructLog) × (logs ≡ log ∷ rest)
      × (log.depth ≡ d)
      × (log.gas ≡ g)
Frame-head (last log e h c p) = (log, [], p, e, h)
Frame-head (next log rest back e h c b p f) = (log, rest, p, e, h)
Frame-head (call log inner rest e h c b p f f') = (log, inner ++ rest, p, e, h)

-- What follows a frame is a log of an outer frame, or nothing.
abbrev IsOuter : ℕ → List StructLog → Type 0
IsOuter d [] = Unit
IsOuter d (log ∷ _) = log.depth < d

op_gas-same :
    (log next_log : StructLog) (rest after : List StructLog)
    → log.depth ≡ next_log.depth
    → rest ≡ next_log ∷ after
    → op_gas log rest ≡ sub64 log.gas next_log.gas
unfolding op_gas
op_gas-same log next_log rest after e p = rw p (ground arith)

op_gas-inner :
    (log next_log : StructLog) (rest after : List StructLog)
    → suc log.depth ≡ next_log.depth
    → rest ≡ next_log ∷ after
    → op_gas log rest ≡ sub64 log.gas_cost next_log.gas
unfolding op_gas
op_gas-inner log next_log rest after e p = rw p (ground arith)

op_gas-outer :
    (log : StructLog) (after : List StructLog)
    → IsOuter log.depth after
    → op_gas log after ≡ log.gas_cost
unfolding op_gas
op_gas-outer log [] o = refl
op_gas-outer log (x ∷ xs) o = ground arith

-- A frame's logs are charged what the frame takes, whatever follows it.
Frame-gas :
    {d g left : ℕ} {logs : List StructLog} (after : List StructLog)
    → Frame d g logs left
    → IsOuter d after
    → (logs_gas (logs ++ after) + left) % u64_mod ≡ (g + logs_gas after) % u64_mod
unfolding logs_gas
Frame-gas after (last log e h c p) o = rw p (omega (arith, op_gas-outer log after (rw e o)))
Frame-gas after (next log rest back e h c b p f) o =
    let (l, r, q, e', h') = Frame-head f in
    let charged : op_gas log (rest ++ after) ≡ sub64 log.gas l.gas =
      op_gas-same log l (rest ++ after) (r ++ after) (omega arith) (rw q refl) in
    rw p (omega (arith, charged, Frame-gas after f o))
Frame-gas after (call log inner rest e h c b p f f') o =
    let (l, r, q, e', h') = Frame-head f in
    let (l₂, r₂, q₂, e₂, h₂) = Frame-head f' in
    let charged : op_gas log (inner ++ (rest ++ after)) ≡ sub64 log.gas_cost l.gas =
      op_gas-inner log l (inner ++ (rest ++ after)) (r ++ (rest ++ after)) (omega arith)
        (rw q refl) in
    rw (p, append_assoc)
      (omega
        (arith, charged, Frame-gas (rest ++ after) f (rw q₂ (omega arith)), Frame-gas after f' o))

gas_usage-cons :
    (gas_limit g : ℕ) (t : TxTrace) (logs : List StructLog) (l : StructLog) (r : List StructLog)
    → logs ≡ l ∷ r
    → l.gas ≡ g
    → g ≤ gas_limit
    → gas_limit < u64_mod
    → gas_usage gas_limit t logs ≡ gas_limit - g
unfolding gas_usage
gas_usage-cons gas_limit g t logs l r q h le fits = rw q (omega arith)

-- The loop ends with the refund of the last log.
last_refund-last :
    (refund : ℕ) (before : List StructLog) (log : StructLog)
    → last_refund refund (before ++ log ∷ []) ≡ log.refund
unfolding last_refund
last_refund-last refund [] log = refl
last_refund-last refund (x ∷ before) log = last_refund-last x.refund before log

-- For a transaction whose trace is one frame that starts with no more gas than the gas limit, a
-- limit below 2 ^ 64, the gas of all entries grows by the gas limit, less the gas that the frame
-- leaves, plus the refund that the last log shows, all modulo 2 ^ 64. In a frame, an operation pays
-- its cost, a call that runs code has the frame of this code behind it, and any other call may get gas
-- back.
pub gas_conserved :
    (gas_limit : ℕ) (t : TxTrace) (m : OpCodes) (before : List StructLog) (log : StructLog)
    {d g left : ℕ}
    → Frame d g t.struct_logs left
    → g ≤ gas_limit
    → gas_limit < u64_mod
    → t.struct_logs ≡ before ++ log ∷ []
    → (total_gas (count_trace gas_limit t m) + left) % u64_mod
      ≡ (total_gas m + gas_limit + log.refund) % u64_mod
unfolding logs_gas
gas_conserved gas_limit t m before log {d} {g} {left} f le fits ends =
    let (l, r, q, e, h) = Frame-head f in
    let usage : gas_usage gas_limit t t.struct_logs ≡ gas_limit - g =
      gas_usage-cons gas_limit g t t.struct_logs l r q h le fits in
    let refund : last_refund 0 t.struct_logs ≡ log.refund =
      rw ends (last_refund-last 0 before log) in
    omega (
      arith,
      usage,
      refund,
      total_gas-count_trace gas_limit t m,
      rw append-nil at (Frame-gas [] f tt),
    )
