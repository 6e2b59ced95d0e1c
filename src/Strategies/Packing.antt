-- ===== src/Strategies/Packing.antt =====
-- packages/strategies/stress.go, `packItUp`: the transactions that fill a block up to the gas target.
pub mod Erc20
pub mod Eth
pub mod Gas
pub mod Fresh
use replayor.Prelude.{
  ℕ, zero, suc, ◌+◌, ◌-◌, ◌/◌, ◌^◌, ◌++◌, Bool, true, false, String, Option, none, some, List, [],
  ◌∷◌, ltb, leb, ◌==◌, str_eq, if◌then◌else◌, lookup, replicate, or_zero,
}
use replayor.Exec.{Exec, done, Result, ok, err, pure, stop, panic, gets, ◌>>=◌, ◌>>◌}
use replayor.Chain.{Block}
use replayor.Config.{ReplayorConfig}
use replayor.Strategies.Tables.{precompile_signatures, storage_stressor_signatures}
use replayor.Strategies.Signing.{
  DynamicFeeTx, Wallet, Globals, num_addresses, nonce_at, bump_nonce, modify,
}

-- `input.Transactions()[len(input.Transactions())-1]`
unfoldable pub last_tx : {Tx : Type 0} → List Tx → Option Tx
last_tx [] = none
last_tx (txn ∷ []) = some txn
last_tx (txn ∷ next ∷ txns) = last_tx (next ∷ txns)

-- `int64(gasTarget) <= 0`: zero, or a number that `int64` makes negative.
abbrev pub not_positive : ℕ → Bool
not_positive target = if target == 0 then true else leb (2 ^ 63) target

-- One pair of random numbers below `num_addresses`, `none` where `rand.Int` fails.
pub record Draw : Type 0 where
  pub from : Option ℕ
  pub to : Option ℕ

abbrev pub erc20_gas : ℕ
erc20_gas = 23_000

abbrev pub eth_gas : ℕ
eth_gas = 21_000

-- `transferSignature`, and `transferAmount` padded to 32 bytes.
abbrev pub transfer_signature : List ℕ
transfer_signature = 169 ∷ 5 ∷ 156 ∷ 187 ∷ []

abbrev pub transfer_amount : List ℕ
transfer_amount = replicate 24 0 ++ 1 ∷ 99 ∷ 69 ∷ 120 ∷ 93 ∷ 138 ∷ 0 ∷ 0 ∷ []

-- What `append(result, signedTx)` and `nonces[i] += 1` do, on success alone.
unfoldable pub keep_signed : {Tx : Type 0} → ℕ → Result Tx → List Tx × Globals → List Tx × Globals
keep_signed i (err e) (result, g) = (result, g)
keep_signed i (ok signed_tx) (result, g) = (result ++ signed_tx ∷ [], bump_nonce i g)

module _ {Tx : Type 0} (wallet : Wallet Tx) (cfg : ReplayorConfig) where
  unfoldable pub erc20_tx : Tx → ℕ → ℕ → DynamicFeeTx
  erc20_tx gas_info contract nonce = record {
    to = some contract;
    nonce = nonce;
    value = 0;
    gas = erc20_gas;
    gas_tip_cap = wallet.gas_tip_cap gas_info;
    gas_fee_cap = 999_999_999_999;
    tx_data = transfer_signature ++ (wallet.receiver_bytes nonce ++ transfer_amount);
  }

  -- The loop, with fuel; `none` where the fuel is not enough.
  unfoldable pub erc20_loop : ℕ → Tx → ℕ → List Tx × Globals → Option (List Tx × Globals)
  unfolding erc20_tx keep_signed
  erc20_loop zero gas_info fill_up_remaining (result, g) = none
  erc20_loop (suc fuel) gas_info fill_up_remaining (result, g) =
      elim (ltb fill_up_remaining erc20_gas) [
        | true ↦ some (result, g)
        | false ↦ erc20_loop fuel gas_info (fill_up_remaining - erc20_gas) (
            keep_signed 0
              (wallet.sign_tx (erc20_tx gas_info g.test_contract_address (nonce_at 0 g)) 0)
              (result, g))
      ]

  unfoldable pub pack_erc20_transfer : Tx → Globals → Option (List Tx × Globals)
  unfolding erc20_loop
  pack_erc20_transfer gas_info g =
      if not_positive cfg.gas_target
      then some ([], g)
      else erc20_loop (cfg.gas_target / erc20_gas + 1) gas_info cfg.gas_target ([], g)

  unfoldable pub eth_tx : Tx → ℕ → ℕ → DynamicFeeTx
  eth_tx gas_info to_address nonce = record {
    to = some to_address;
    nonce = nonce;
    value = 1;
    gas = eth_gas;
    gas_tip_cap = wallet.gas_tip_cap gas_info;
    gas_fee_cap = 999_999_999_999;
    tx_data = [];
  }

  -- The numbers drawn, where both draws succeed and differ.
  unfoldable pub drawn : Draw → Option (ℕ × ℕ)
  drawn draw = elim draw.from [
    | none ↦ none
    | some from ↦ elim draw.to [
      | none ↦ none
      | some to ↦ if from == to then none else some (from, to)
    ]
  ]

  -- The loop, by the pairs that are drawn; `none` where it has not ended with the last of them.
  unfoldable pub eth_loop : List Draw → Tx → ℕ → List Tx × Globals → Option (List Tx × Globals)
  unfolding eth_tx drawn keep_signed
  eth_loop [] gas_info fill_up_remaining (result, g) =
      if ltb fill_up_remaining eth_gas then some (result, g) else none
  eth_loop (draw ∷ draws) gas_info fill_up_remaining (result, g) =
      elim (ltb fill_up_remaining eth_gas) [
        | true ↦ some (result, g)
        | false ↦ elim (drawn draw) [
          | none ↦ eth_loop draws gas_info fill_up_remaining (result, g)
          | some (from, to) ↦ eth_loop draws gas_info (fill_up_remaining - eth_gas) (
              keep_signed from
                (wallet.sign_tx (eth_tx gas_info (wallet.addresses to) (nonce_at from g)) from)
                (result, g))
        ]
      ]

  unfoldable pub pack_eth_transfer : List Draw → Tx → Globals → Option (List Tx × Globals)
  unfolding eth_loop
  pack_eth_transfer draws gas_info g =
      if not_positive cfg.gas_target
      then some ([], g)
      else eth_loop draws gas_info cfg.gas_target ([], g)

  unfoldable pub target_tx : Tx → ℕ → List ℕ → ℕ → DynamicFeeTx
  target_tx gas_info contract call nonce = record {
    to = some contract;
    nonce = nonce;
    value = 0;
    gas = cfg.gas_target;
    gas_tip_cap = wallet.gas_tip_cap gas_info;
    gas_fee_cap = 999_999_999_999_999_999;
    tx_data = call;
  }

  -- The argument that follows the signature, in 32 bytes, and the number of transactions.
  unfoldable pub storage_calls : String → List ℕ × ℕ
  storage_calls function =
      if str_eq function "writeStorage"
      then (replicate 31 0 ++ 100 ∷ [], cfg.gas_target / 4_849_870)
      else if str_eq function "writeStorage2"
      then (replicate 31 0 ++ 42 ∷ [], cfg.gas_target / 4_963_747)
      else if str_eq function "deployContracts"
      then (replicate 31 0 ++ 8 ∷ [], cfg.gas_target / 4_816_325)
      else ([], 0)

  keep_result : Result Tx → List Tx → List Tx
  keep_result (err e) result = result
  keep_result (ok signed_tx) result = result ++ signed_tx ∷ []

  -- This loop raises the nonce whether or not the signing succeeds.
  unfoldable pub storage_loop : ℕ → Tx → List ℕ → List Tx × Globals → List Tx × Globals
  unfolding target_tx keep_result
  storage_loop zero gas_info call (result, g) = (result, g)
  storage_loop (suc n) gas_info call (result, g) = storage_loop n gas_info call (
    keep_result (wallet.sign_tx (target_tx gas_info g.test_contract_address call (nonce_at 0 g)) 0)
        result,
    bump_nonce 0 g,
  )

  abbrev pub run_loop : (Globals → List Tx × Globals) → Exec Globals (List Tx)
  run_loop f g = let (result, g') = f g in (done result, g')

  unfoldable pub pack_storage_stressor : Tx → Exec Globals (List Tx)
  unfolding storage_calls storage_loop
  pack_storage_stressor gas_info =
      elim (lookup cfg.stress_test_function storage_stressor_signatures) [
        | none ↦ stop panic
        | some fcn_sig ↦
            let calls = storage_calls cfg.stress_test_function in
            run_loop (λ g. storage_loop calls.1 gas_info (fcn_sig ++ calls.0) ([], g))
      ]

  unfoldable pub signed_or_panic : Result Tx → Exec Globals (List Tx)
  signed_or_panic (err e) g = stop panic g
  signed_or_panic (ok signed_tx) g = (done (signed_tx ∷ []), bump_nonce 0 g)

  unfoldable pub pack_precompile_targeter : Tx → Exec Globals (List Tx)
  unfolding target_tx signed_or_panic
  pack_precompile_targeter gas_info = elim (lookup cfg.stress_test_function precompile_signatures) [
    | none ↦ stop panic
    | some fcn_sig ↦ λ g.
        signed_or_panic
          (wallet.sign_tx (target_tx gas_info g.test_contract_address fcn_sig (nonce_at 0 g)) 0) g
  ]
