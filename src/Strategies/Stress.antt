-- ===== src/Strategies/Stress.antt =====
-- packages/strategies/stress.go: the strategy that fills blocks with its own transactions.
pub mod Returns
pub mod Numbers
pub mod Kept
pub mod Bounds
pub mod Fresh
use replayor.Prelude.{
  ℕ, ◌+◌, Bool, String, Option, none, some, List, [], ◌∷◌, ◌++◌, ltb, ◌==◌, str_eq, add64,
  if◌then◌else◌,
}
use replayor.Exec.{
  Exec, Outcome, done, stopped, Result, ok, err, pure, stop, panic, gets, ◌>>=◌, ◌>>◌,
}
use replayor.Chain.{Block, Envelope}
use replayor.Config.{ReplayorConfig}
use replayor.Strategies.{BlockCreationParams, block_info, Strategy}
use replayor.Strategies.Signing.{
  Wallet, Globals, prepare_deploy_contract, prepare_deposit, deposit_txns, user_txns,
}
use replayor.Strategies.Packing.{
  Draw, last_tx, pack_erc20_transfer, pack_eth_transfer, pack_storage_stressor,
  pack_precompile_targeter,
}

-- `panic(err)`, and an index that is out of range.
abbrev pub or_panic : {A : Type 0} → Result A → Exec Globals A
or_panic (ok a) g = (done a, g)
or_panic (err e) g = (stopped panic, g)

abbrev pub deref : {A : Type 0} → Option A → Exec Globals A
deref none g = (stopped panic, g)
deref (some a) g = (done a, g)

-- `draws` are the random numbers drawn for the block of a number. A loop that has not ended with them
-- stops as at a panic; enough of them end it.
abbrev pub looped : {Tx : Type 0} → Option (List Tx × Globals) → Exec Globals (List Tx)
looped none g = (stopped panic, g)
looped (some (result, g')) g = (done result, g')

module _ {Tx Withdrawals : Type 0} (wallet : Wallet Tx) (cfg : ReplayorConfig) (start_block_num : ℕ)
    (draws : ℕ → List Draw) where
  unfoldable pub pack_it_up : Block Tx Withdrawals → Exec Globals (List Tx)
  pack_it_up input = do
    gas_info ← deref (last_tx input.transactions)
    if str_eq cfg.stress_test_type "erc20"
        then (λ g. looped (pack_erc20_transfer wallet cfg gas_info g) g)
        else if str_eq cfg.stress_test_type "precompile"
        then pack_precompile_targeter wallet cfg gas_info
        else if str_eq cfg.stress_test_type "storage"
        then pack_storage_stressor wallet cfg gas_info
        else (λ g. looped (pack_eth_transfer wallet cfg (draws input.number) gas_info g) g)

  deploy_with : Block Tx Withdrawals → List ℕ → Exec Globals (List Tx)
  deploy_with input bytecode = do
    signed ← prepare_deploy_contract wallet input bytecode
    contract_deploy_tx ← or_panic signed
    pure (contract_deploy_tx ∷ [])

  -- The deployment that goes before the block's own transactions, if the test needs one.
  unfoldable pub deploy_txns : Block Tx Withdrawals → Exec Globals (List Tx)
  unfolding deploy_with
  deploy_txns input =
      if str_eq cfg.stress_test_type "erc20"
      then deploy_with input wallet.erc20_bytecode
      else if str_eq cfg.stress_test_type "precompile"
      then deploy_with input wallet.precompile_targeter_bytecode
      else if str_eq cfg.stress_test_type "storage"
      then deploy_with input wallet.storage_stressor_bytecode
      else pure []

  -- One of the first ten blocks: a deposit is added, and in the first one the deployment.
  unfoldable pub fund : Block Tx Withdrawals → ℕ → List Tx → Exec Globals (List Tx)
  unfolding deploy_txns
  fund input l1_info transactions = do
    dep ← prepare_deposit wallet start_block_num l1_info input.number
    deployed ← if input.number == add64 start_block_num 1 then deploy_txns input else pure []
    pure (
        (deposit_txns wallet transactions ++ dep ∷ [])
        ++ (deployed ++ user_txns wallet transactions))

  -- A later block: its own transactions give way to those of the test.
  unfoldable pub fill : Block Tx Withdrawals → List Tx → Exec Globals (List Tx)
  unfolding pack_it_up
  fill input transactions = do
    packed ← pack_it_up input
    pure (deposit_txns wallet transactions ++ packed)

  -- `transactions[0]` panics where there is none.
  unfoldable pub modify_transactions : Block Tx Withdrawals → List Tx → Exec Globals (List Tx)
  unfolding fund fill
  modify_transactions input [] = stop panic
  modify_transactions input (deposit_txn ∷ rest) = do
    l1_info ← or_panic (wallet.l1_block_hash input.time (wallet.data_of deposit_txn))
    if ltb input.number (add64 start_block_num 11)
        then fund input l1_info (deposit_txn ∷ rest)
        else fill input (deposit_txn ∷ rest)

  unfoldable pub stress_params : Block Tx Withdrawals → List Tx → BlockCreationParams Tx Withdrawals
  stress_params input txns = record {
    number = input.number;
    transactions = txns;
    gas_limit = some cfg.gas_limit;
    time = input.time;
    mix_digest = input.mix_digest;
    beacon_root = input.beacon_root;
    fee_recipient = 0;
    withdrawals = input.withdrawals;
    extra = input.extra;
    validate_info = block_info input;
  }

  unfoldable pub stress_received :
      Block Tx Withdrawals → Exec Globals (Option (BlockCreationParams Tx Withdrawals))
  unfolding modify_transactions stress_params
  stress_received input = do
    txns ← modify_transactions input input.transactions
    pure (some (stress_params input txns))

  -- Both validations accept every payload.
  unfoldable pub stress_test : Strategy Tx Withdrawals Globals
  unfolding stress_received
  stress_test = record {
    block_received = stress_received;
    validate_execution = λ e a. done none;
    validate_block = λ e a. done none;
  }
