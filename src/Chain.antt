-- ===== src/Chain.antt =====
-- The values of op-geth and op-node that the program reads, as what their accessors answer. Hashes,
-- addresses and other fixed byte arrays are numbers; a `[]byte` is a list of numbers; a pointer is
-- an `Option`. The types `Tx` of transactions and `Withdrawals` stay abstract.
use replayor.Prelude.{ℕ, Bool, Option, List}

pub record Block (Tx Withdrawals : Type 0) : Type 0 where
  pub number : ℕ
  pub hash : ℕ
  pub transactions : List Tx
  pub gas_limit : ℕ
  pub gas_used : ℕ
  pub time : ℕ
  pub mix_digest : ℕ
  pub beacon_root : Option ℕ
  pub coinbase : ℕ
  pub withdrawals : Withdrawals
  pub extra : List ℕ

-- The fields of `eth.ExecutionPayload` and its envelope that the program reads.
pub record ExecutionPayload : Type 0 where
  pub block_hash : ℕ
  pub block_number : ℕ

pub record Envelope : Type 0 where
  pub execution_payload : ExecutionPayload
  pub parent_beacon_block_root : Option ℕ

pub record ForkchoiceState : Type 0 where
  pub head_block_hash : ℕ
  pub safe_block_hash : ℕ
  pub finalized_block_hash : ℕ

pub record PayloadAttributes (Withdrawals : Type 0) : Type 0 where
  pub timestamp : ℕ
  pub no_tx_pool : Bool
  pub suggested_fee_recipient : ℕ
  pub transactions : List (List ℕ)
  pub gas_limit : Option ℕ
  pub prev_randao : ℕ
  pub parent_beacon_block_root : Option ℕ
  pub withdrawals : Option Withdrawals
  pub eip1559_params : Option (List ℕ)

-- `eth.ExecutePayloadStatus`; the program tells `ExecutionValid` from the rest.
pub data PayloadStatus : Type 0 where
  execution_valid : PayloadStatus
  execution_other : ℕ → PayloadStatus

pub record ForkchoiceUpdatedResult : Type 0 where
  pub payload_status : PayloadStatus
  pub payload_id : Option ℕ

pub record PayloadInfo : Type 0 where
  pub id : ℕ
  pub timestamp : ℕ

pub record Receipt : Type 0 where
  pub tx_hash : ℕ
  pub gas_used : ℕ
  pub status : ℕ
