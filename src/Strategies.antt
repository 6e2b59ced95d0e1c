-- ===== src/Strategies.antt =====
-- packages/strategies/strategy.go: what a strategy makes of a block, and the interface of strategies.
pub mod Replay
pub mod Tables
pub mod Signing
pub mod Nonces
pub mod Packing
pub mod Stress
mod Tests
use replayor.Prelude.{ℕ, String, Option, List}
use replayor.Exec.{Exec, Outcome}
use replayor.Chain.{Block, Envelope}

-- The values that the strategies keep in the field `validateInfo interface{}`.
pub data ValidateInfo (Tx Withdrawals : Type 0) : Type 0 where
  hash_info : ℕ → ValidateInfo Tx Withdrawals
  block_info : Block Tx Withdrawals → ValidateInfo Tx Withdrawals

pub record BlockCreationParams (Tx Withdrawals : Type 0) : Type 0 where
  pub number : ℕ
  pub transactions : List Tx
  pub gas_limit : Option ℕ
  pub time : ℕ
  pub mix_digest : ℕ
  pub beacon_root : Option ℕ
  pub fee_recipient : ℕ
  pub withdrawals : Withdrawals
  pub extra : List ℕ
  pub validate_info : ValidateInfo Tx Withdrawals

-- The interface over the state that a strategy keeps. A validation answers with an error or nil,
-- or panics.
pub record Strategy (Tx Withdrawals State : Type 0) : Type 0 where
  pub block_received :
      Block Tx Withdrawals → Exec State (Option (BlockCreationParams Tx Withdrawals))
  pub validate_execution : Envelope → BlockCreationParams Tx Withdrawals → Outcome (Option String)
  pub validate_block : Envelope → BlockCreationParams Tx Withdrawals → Outcome (Option String)
