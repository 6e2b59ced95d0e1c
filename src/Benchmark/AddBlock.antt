-- ===== src/Benchmark/AddBlock.antt =====
-- packages/replayor/benchmark.go, `addBlock`: one block through the engine API.
pub mod Accepted
pub mod Views
use replayor.Prelude.{
  ℕ, Bool, true, String, Option, none, some, List, [], ◌∷◌, map, length, add64, sub64,
  if◌then◌else◌, take_padded,
}
use replayor.Exec.{
  Exec, Outcome, done, stopped, Stop, panic, crit, Result, ok, err, pure, stop, gets, ◌>>=◌, ◌>>◌,
}
use replayor.Chain.{
  Envelope, ForkchoiceState, PayloadAttributes, PayloadStatus, execution_valid, execution_other,
  ForkchoiceUpdatedResult, PayloadInfo, ExecutionPayload,
}
use replayor.Strategies.{BlockCreationParams, Strategy}
use replayor.Stats.{BlockCreationStats, no_stats}
use replayor.Benchmark.Enrich.{DestNode, Options, enrich}

-- The engine API, the clock and the encodings that `addBlock` calls, over the state `World` of the
-- node and of the clock. `dest_node` is what the destination node answers in a state.
pub record Engine (Tx Withdrawals World : Type 0) : Type 0 where
  pub now : World → ℕ × World
  pub forkchoice_update :
      ForkchoiceState
      → Option (PayloadAttributes Withdrawals)
      → World
      → Result ForkchoiceUpdatedResult × World
  pub get_payload : PayloadInfo → World → Result Envelope × World
  pub new_payload : ExecutionPayload → Option ℕ → World → Result PayloadStatus × World
  pub dest_node : World → DestNode
  pub marshal_binary : Tx → Result (List ℕ)
  pub gas : Tx → ℕ
  pub is_holocene : ℕ → Bool
  pub decode_holocene_extra_data : List ℕ → ℕ × ℕ
  pub encode_holocene_1559_params : ℕ → ℕ → List ℕ

-- What `addBlock` reads and writes: the field `previousReplayedBlockHash`, the recorder of
-- statistics, and the world outside.
pub record Submission (Recorder World : Type 0) : Type 0 where
  pub previous_replayed_block_hash : ℕ
  pub recorder : Recorder
  pub world : World

-- A forkchoice state with one hash for all its heads.
abbrev pub all_heads : ℕ → ForkchoiceState
all_heads hash = record {
  head_block_hash = hash;
  safe_block_hash = hash;
  finalized_block_hash = hash;
}

-- The loop that encodes the transactions; an error panics.
unfoldable pub marshal_all :
    {Tx : Type 0} → (Tx → Result (List ℕ)) → List Tx → Result (List (List ℕ))
marshal_all marshal [] = ok []
marshal_all marshal (txn ∷ txns) = elim (marshal txn) [
  | err e ↦ err e
  | ok encoded ↦ elim (marshal_all marshal txns) [ err e ↦ err e | ok rest ↦ ok (encoded ∷ rest) ]
]

module _ {Recorder World : Type 0} where
  -- A call that changes the world only.
  abbrev pub call : {A : Type 0} → (World → A × World) → Exec (Submission Recorder World) A
  call f s = let (a, w) = f s.world in (done a, record s { world = w })

  -- `l.Crit` where there is an error.
  abbrev pub or_crit : {A : Type 0} → Result A → Exec (Submission Recorder World) A
  or_crit (ok a) s = (done a, s)
  or_crit (err e) s = (stopped crit, s)

  abbrev pub require_valid : PayloadStatus → Exec (Submission Recorder World) (Unit {0})
  require_valid execution_valid s = (done tt, s)
  require_valid (execution_other code) s = (stopped crit, s)

  -- A nil pointer panics where it is followed.
  abbrev pub deref : {A : Type 0} → Option A → Exec (Submission Recorder World) A
  deref none s = (stopped panic, s)
  deref (some a) s = (done a, s)

  -- The outcome of a validation: `l.Crit` on an error.
  abbrev pub require_no_error :
      Outcome (Option String) → Exec (Submission Recorder World) (Unit {0})
  require_no_error (stopped c) s = (stopped c, s)
  require_no_error (done none) s = (done tt, s)
  require_no_error (done (some e)) s = (stopped crit, s)

  abbrev pub or_panic : {A : Type 0} → Result A → Exec (Submission Recorder World) A
  or_panic (ok a) s = (done a, s)
  or_panic (err e) s = (stopped panic, s)

-- `stats.GasLimit += txn.Gas()` over the transactions.
unfoldable pub sum_gas_limit : {Tx : Type 0} → (Tx → ℕ) → ℕ → List Tx → ℕ
sum_gas_limit gas acc [] = acc
sum_gas_limit gas acc (txn ∷ txns) = sum_gas_limit gas (add64 acc (gas txn)) txns

-- What the parts of `addBlock` leave to the later ones.
pub record Requested : Type 0 where
  pub payload_id : ℕ
  pub start_time : ℕ
  pub fcu_end : ℕ

pub record Fetched : Type 0 where
  pub envelope : Envelope
  pub get_time : ℕ

pub record Imported : Type 0 where
  pub new_start : ℕ
  pub new_end : ℕ
  pub fcu2_time : ℕ

module _ {Tx Withdrawals Recorder World Kept : Type 0} (engine : Engine Tx Withdrawals World)
    (record_block_stats : BlockCreationStats → Recorder → Recorder)
    (strategy : Strategy Tx Withdrawals Kept) (options : Options) where
  unfoldable pub attributes :
      BlockCreationParams Tx Withdrawals → List (List ℕ) → PayloadAttributes Withdrawals
  attributes block txn_data = record {
    timestamp = block.time;
    no_tx_pool = true;
    suggested_fee_recipient = block.fee_recipient;
    transactions = txn_data;
    gas_limit = block.gas_limit;
    prev_randao = block.mix_digest;
    parent_beacon_block_root = block.beacon_root;
    withdrawals = some block.withdrawals;
    eip1559_params =
        if engine.is_holocene block.time
        then (let (d, e) = engine.decode_holocene_extra_data block.extra in
            some (take_padded 8 (engine.encode_holocene_1559_params d e)))
        else none;
  }

  -- The record of a block, from the times at which `addBlock` reads the clock.
  unfoldable pub block_stats :
      BlockCreationParams Tx Withdrawals → Requested → Fetched → Imported → BlockCreationStats
  block_stats block requested fetched imported =
      let payload = fetched.envelope.execution_payload in
      let fcu = sub64 requested.fcu_end requested.start_time in
      let get = sub64 fetched.get_time requested.fcu_end in
      let new = sub64 imported.new_end imported.new_start in
      let fcu_no_attrs = sub64 imported.fcu2_time imported.new_end in
      record no_stats {
        txn_count = length block.transactions;
        gas_limit = sum_gas_limit engine.gas 0 block.transactions;
        fcu_time = fcu;
        get_time = get;
        new_time = new;
        fcu_no_attrs_time = fcu_no_attrs;
        total_time = add64 (add64 (add64 (add64 0 fcu) get) new) fcu_no_attrs;
        block_number = payload.block_number;
        block_hash = payload.block_hash;
      }

  -- `r.previousReplayedBlockHash = …`, `r.enrich` and `r.s.RecordBlockStats`.
  unfoldable pub finish : BlockCreationStats → Exec (Submission Recorder World) (Unit {0})
  finish stats s = (
    done tt,
    record s {
      previous_replayed_block_hash = stats.block_hash;
      recorder = record_block_stats (enrich (engine.dest_node s.world) options stats) s.recorder;
    },
  )

  -- From the encoding of the transactions to the first forkchoice update.
  unfoldable pub request_payload :
      BlockCreationParams Tx Withdrawals → Exec (Submission Recorder World) Requested
  unfolding attributes
  request_payload block = do
    previous ← gets (λ s. s.previous_replayed_block_hash)
    txn_data ← or_panic (marshal_all engine.marshal_binary block.transactions)
    start_time ← call engine.now
    reply ← call (engine.forkchoice_update (all_heads previous) (some (attributes block txn_data)))
    fcu_end ← call engine.now
    result ← or_crit reply
    require_valid result.payload_status
    payload_id ← deref result.payload_id
    pure (record { payload_id = payload_id; start_time = start_time; fcu_end = fcu_end })

  -- The payload that the node has built, validated.
  unfoldable pub fetch_payload :
      BlockCreationParams Tx Withdrawals → ℕ → Exec (Submission Recorder World) Fetched
  fetch_payload block payload_id = do
    reply ← call (engine.get_payload (record { id = payload_id; timestamp = block.time }))
    envelope ← or_crit reply
    get_time ← call engine.now
    require_no_error (strategy.validate_execution envelope block)
    pure (record { envelope = envelope; get_time = get_time })

  -- The payload given back to the node and made its head.
  unfoldable pub import_payload :
      BlockCreationParams Tx Withdrawals → Envelope → Exec (Submission Recorder World) Imported
  import_payload block envelope = do
    new_start ← call engine.now
    reply ← call (engine.new_payload envelope.execution_payload envelope.parent_beacon_block_root)
    status ← or_crit reply
    new_end ← call engine.now
    require_valid status
    reply2 ← call (engine.forkchoice_update (all_heads envelope.execution_payload.block_hash) none)
    fcu2status ← or_crit reply2
    fcu2_time ← call engine.now
    require_valid fcu2status.payload_status
    require_no_error (strategy.validate_block envelope block)
    pure (record { new_start = new_start; new_end = new_end; fcu2_time = fcu2_time })

  unfoldable pub add_block :
      BlockCreationParams Tx Withdrawals → Exec (Submission Recorder World) (Unit {0})
  add_block block = do
    requested ← request_payload block
    fetched ← fetch_payload block requested.payload_id
    imported ← import_payload block fetched.envelope
    finish (block_stats block requested fetched imported)
