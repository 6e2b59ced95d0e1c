-- ===== src/Strategies/Replay.antt =====
-- packages/strategies/replay.go: the strategy that replays each block as it is.
use replayor.Prelude.{String, Option, none, some, ◌==◌, if◌then◌else◌}
use replayor.Exec.{Exec, Outcome, done, stopped, panic}
use replayor.Chain.{Block, Envelope}
use replayor.Strategies.{ValidateInfo, hash_info, block_info, BlockCreationParams, Strategy}

module _ {Tx Withdrawals : Type 0} where
  unfoldable pub block_to_creation_params :
      Block Tx Withdrawals → BlockCreationParams Tx Withdrawals
  block_to_creation_params input = record {
    number = input.number;
    transactions = input.transactions;
    gas_limit = some input.gas_limit;
    time = input.time;
    mix_digest = input.mix_digest;
    beacon_root = input.beacon_root;
    fee_recipient = input.coinbase;
    withdrawals = input.withdrawals;
    extra = input.extra;
    validate_info = hash_info input.hash;
  }

  unfoldable pub block_received :
      Block Tx Withdrawals → Exec (Unit {0}) (Option (BlockCreationParams Tx Withdrawals))
  unfolding block_to_creation_params
  block_received input s = (done (some (block_to_creation_params input)), s)

  -- The assertion `a.validateInfo.(common.Hash)` panics on another type.
  check_hash : Envelope → ValidateInfo Tx Withdrawals → Outcome (Option String)
  check_hash e (hash_info expected_hash) =
      if e.execution_payload.block_hash == expected_hash
      then done none
      else done (some "expected block hash, got another")
  check_hash e (block_info b) = stopped panic

  unfoldable pub validate_execution :
      Envelope → BlockCreationParams Tx Withdrawals → Outcome (Option String)
  unfolding check_hash
  validate_execution e a = check_hash e a.validate_info

  unfoldable pub validate_block :
      Envelope → BlockCreationParams Tx Withdrawals → Outcome (Option String)
  unfolding validate_execution
  validate_block e a = validate_execution e a

  unfoldable pub one_for_one : Strategy Tx Withdrawals (Unit {0})
  unfolding block_received validate_execution validate_block
  one_for_one = record {
    block_received = block_received;
    validate_execution = validate_execution;
    validate_block = validate_block;
  }
