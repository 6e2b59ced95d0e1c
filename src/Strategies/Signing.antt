-- ===== src/Strategies/Signing.antt =====
-- packages/strategies/stress.go: the accounts of the stress test and the transactions they sign.
use replayor.Prelude.{
  ℕ, Bool, Option, none, some, List, [], ◌∷◌, get_elem?, set, replicate, add64, sub64, or_zero, ltb,
  if◌then◌else◌,
}
use replayor.Exec.{Exec, done, Result, ok, err, pure, stop, panic, gets, ◌>>=◌, ◌>>◌}
use replayor.Chain.{Block}

-- `types.DynamicFeeTx` and `types.DepositTx`, as far as the program fills them.
pub record DynamicFeeTx : Type 0 where
  pub to : Option ℕ
  pub nonce : ℕ
  pub value : ℕ
  pub gas : ℕ
  pub gas_tip_cap : ℕ
  pub gas_fee_cap : ℕ
  pub tx_data : List ℕ

pub record DepositTx : Type 0 where
  pub source_hash : ℕ
  pub from : ℕ
  pub to : Option ℕ
  pub mint : ℕ
  pub value : ℕ
  pub gas : ℕ

-- What the strategy calls of op-geth and op-node: `types.SignTx` with the key of an account,
-- `types.NewTx`, the accessors of transactions, `crypto.CreateAddress`, the addresses of the
-- generated keys, `derive.L1BlockInfoFromBytes`, `UserDepositSource.SourceHash`, the first 20 bytes
-- of `crypto.Keccak256` of a number, padded to 32, and the compiled contracts.
pub record Wallet (Tx : Type 0) : Type 0 where
  pub sign_tx : DynamicFeeTx → ℕ → Result Tx
  pub new_deposit : DepositTx → Tx
  pub is_deposit_tx : Tx → Bool
  pub gas_tip_cap : Tx → ℕ
  pub data_of : Tx → List ℕ
  pub create_address : ℕ → ℕ → ℕ
  pub addresses : ℕ → ℕ
  pub l1_block_hash : ℕ → List ℕ → Result ℕ
  pub user_deposit_hash : ℕ → ℕ → ℕ
  pub receiver_bytes : ℕ → List ℕ
  pub erc20_bytecode : List ℕ
  pub precompile_targeter_bytecode : List ℕ
  pub storage_stressor_bytecode : List ℕ

abbrev pub num_addresses : ℕ
num_addresses = 10

-- The package's variables that change.
pub record Globals : Type 0 where
  pub nonces : List ℕ
  pub test_contract_address : ℕ

unfoldable pub init_globals : Globals
init_globals = record { nonces = replicate num_addresses 0; test_contract_address = 0 }

-- `nonces[i]` and `nonces[i]++`, of the index of an account.
abbrev pub nonce_at : ℕ → Globals → ℕ
nonce_at i g = or_zero (get_elem? g.nonces i) 0

abbrev pub bump_nonce : ℕ → Globals → Globals
bump_nonce i g = record g { nonces = set g.nonces i (add64 (nonce_at i g) 1) }

abbrev pub modify : (Globals → Globals) → Exec Globals (Unit {0})
modify f g = (done tt, f g)

module _ {Tx : Type 0} (wallet : Wallet Tx) where
  unfoldable pub create_signed_tx : ℕ → Option ℕ → ℕ → ℕ → ℕ → ℕ → List ℕ → Exec Globals (Result Tx)
  create_signed_tx from_index to value gas tip_cap fee_cap data_bytes = do
    nonce ← gets (nonce_at from_index)
    modify (bump_nonce from_index)
    pure (
        wallet.sign_tx
          (record {
            to = to;
            nonce = nonce;
            value = value;
            gas = gas;
            gas_tip_cap = tip_cap;
            gas_fee_cap = fee_cap;
            tx_data = data_bytes;
          })
          from_index)

  -- The address of the new contract is that of the nonce before the one that is now the next.
  unfoldable pub keep_contract_address : Result Tx → Exec Globals (Result Tx)
  keep_contract_address (err e) g = (done (err e), g)
  keep_contract_address (ok signed_tx) g = (
    done (ok signed_tx),
    record g {
      test_contract_address = wallet.create_address (wallet.addresses 0) (sub64 (nonce_at 0 g) 1);
    },
  )

  -- `input.Transactions()[1]` panics where there is none.
  unfoldable pub prepare_deploy_contract :
      {Withdrawals : Type 0} → Block Tx Withdrawals → List ℕ → Exec Globals (Result Tx)
  unfolding create_signed_tx keep_contract_address
  prepare_deploy_contract input bytecode = elim (get_elem? input.transactions 1) [
    | none ↦ stop panic
    | some txn ↦
        create_signed_tx 0 none 0 2_000_000 (wallet.gas_tip_cap txn) 999_999_999_999 bytecode
        >>= keep_contract_address
  ]

  -- `addresses[i]` panics where `i` is not the index of an account.
  unfoldable pub prepare_deposit : ℕ → ℕ → ℕ → Exec Globals Tx
  prepare_deposit start_block_num l1_block_hash current_block_num =
      let i = sub64 (sub64 current_block_num start_block_num) 1 in
      let addr = wallet.addresses i in
      if ltb i num_addresses
      then (do
        modify (bump_nonce i)
        pure (
            wallet.new_deposit (record {
              source_hash = wallet.user_deposit_hash l1_block_hash 10_000;
              from = addr;
              to = some addr;
              mint = 100_000_000_000_000_000_000_000_000;
              value = 100_000_000_000_000_000_000_000_000;
              gas = 21_000;
            })))
      else stop panic

  -- `splitTxs`
  unfoldable pub deposit_txns : List Tx → List Tx
  deposit_txns [] = []
  deposit_txns (txn ∷ txs) =
      let rest = deposit_txns txs in if wallet.is_deposit_tx txn then txn ∷ rest else rest

  unfoldable pub user_txns : List Tx → List Tx
  user_txns [] = []
  user_txns (txn ∷ txs) =
      let rest = user_txns txs in if wallet.is_deposit_tx txn then rest else txn ∷ rest
