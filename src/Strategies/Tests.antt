-- ===== src/Strategies/Tests.antt =====
-- packages/strategies/stress.go with bare transactions, all of which can be signed.
use replayor.Prelude.{
  ℕ, ◌+◌, ◌*◌, ◌/◌, ◌≤◌, ◌++◌, length, zero, suc, or_zero, get_elem?, ◌≡◌, ◌≢◌, refl, ◌⊎◌, inr,
  true, false, Bool, none, some, List, [], ◌∷◌, map, arith, count_up, replicate, ap, str_eq, lookup,
}
use replayor.Exec.{done, ok}
use replayor.Chain.{Block}
use replayor.Config.{ReplayorConfig}
use replayor.Strategies.Tables.{storage_stressor_signatures}
use replayor.Strategies.Signing.{
  num_addresses, init_globals, prepare_deposit, prepare_deploy_contract, deposit_txns, user_txns,
  create_signed_tx, DynamicFeeTx, DepositTx, Wallet, Globals,
}
use replayor.Strategies.Packing.{
  Draw, last_tx, erc20_gas, drawn, pack_erc20_transfer, pack_eth_transfer, pack_storage_stressor,
  storage_calls, storage_loop,
}
use replayor.Strategies.Packing.Eth.{useful, transfers, IsRaised, pack_eth_transfer_lem}
use replayor.Strategies.Stress.Bounds.{pack_it_up-bound}
use replayor.Strategies.Packing.Erc20.{transfer, from_nonce, pack_erc20_transfer_lem}
use replayor.Strategies.Stress.{pack_it_up, modify_transactions, fund, deploy_txns}
use replayor.Strategies.Stress.Kept.{IsKept, modify_transactions-IsKept}
use replayor.Strategies.Stress.Returns.{pack_it_up_returns}

pub data BareTx : Type 0 where
  deposit : DepositTx → BareTx
  dynamic : DynamicFeeTx → BareTx

abbrev is_deposit : BareTx → Bool
is_deposit (deposit d) = true
is_deposit (dynamic t) = false

abbrev wallet : Wallet BareTx
wallet = record {
  sign_tx = λ t i. ok (dynamic t);
  new_deposit = deposit;
  is_deposit_tx = is_deposit;
  gas_tip_cap = λ t. 1;
  data_of = λ t. [];
  create_address = λ address nonce. address + nonce;
  addresses = λ i. 100 + i;
  l1_block_hash = λ time call. ok 5;
  user_deposit_hash = λ hash index. hash + index;
  receiver_bytes = λ nonce. nonce ∷ [];
  erc20_bytecode = [];
  precompile_targeter_bytecode = [];
  storage_stressor_bytecode = [];
}

abbrev cfg : ReplayorConfig
cfg = record {
  source_node_url = "";
  chain_id = 8453;
  engine_api_url = "";
  execution_url = "";
  strategy = "stress";
  block_count = 20;
  gas_target = 100_000;
  gas_limit = 200_000;
  benchmark_start_block = 0;
  benchmark_opcodes = false;
  compute_storage_diffs = false;
  test_name = "test_";
  bucket = "";
  storage_type = "disk";
  disk_path = "/tmp";
  stress_test_type = "storage";
  stress_test_function = "writeStorage";
}

abbrev tip : BareTx
tip = deposit (record { source_hash = 0; from = 0; to = none; mint = 0; value = 0; gas = 0 })

abbrev input : Block BareTx ℕ
input = record {
  number = 40;
  hash = 1040;
  transactions = tip ∷ [];
  gas_limit = 30_000_000;
  gas_used = 0;
  time = 40;
  mix_digest = 0;
  beacon_root = none;
  coinbase = 0;
  withdrawals = 0;
  extra = [];
}

pack_erc20_transfer_lem_example :
    pack_erc20_transfer wallet cfg tip
      (from_nonce wallet cfg tip dynamic (λ t. refl) 7 (replicate 9 1) 3)
    ≡ some (
      map
          (transfer wallet cfg tip dynamic (λ t. refl) 7 (replicate 9 1))
          (count_up 3 (100_000 / erc20_gas)),
      from_nonce wallet cfg tip dynamic (λ t. refl) 7 (replicate 9 1) (3 + 100_000 / erc20_gas),
    )
pack_erc20_transfer_lem_example =
    pack_erc20_transfer_lem wallet cfg tip dynamic (λ t. refl) 7 (replicate 9 1) 3 (omega arith)
      (omega arith) (omega arith)

input_last : last_tx input.transactions ≡ some tip
unfolding last_tx
input_last = refl

function_named : (cfg.stress_test_type ≡ "erc20") ⊎ (cfg.stress_test_function ≢ "")
function_named = inr λ e. let clash : true ≡ false = ap (λ t. str_eq t "writeStorage") e in cc

signature_found :
    lookup cfg.stress_test_function storage_stressor_signatures ≡ some (65 ∷ 114 ∷ 12 ∷ 62 ∷ [])
unfolding lookup
signature_found = refl

pack_it_up_returns_example :
    (r : List BareTx × Globals) × (pack_it_up wallet cfg 5
        (λ n. [])
        input
        (record { nonces = replicate 10 2; test_contract_address = 7 })
      ≡ (done r.0, r.1))
pack_it_up_returns_example =
    pack_it_up_returns wallet cfg dynamic (λ t. refl) 5 (λ n. []) input tip
      (record { nonces = replicate 10 2; test_contract_address = 7 }) input_last
      (inr (inr (refl, inr (65 ∷ 114 ∷ 12 ∷ 62 ∷ [], signature_found)))) function_named

-- The second block after the start block.
second_block :
    (out : List BareTx) × (g : Globals) × (modify_transactions wallet cfg 38
        (λ n. [])
        input
        (tip ∷ [])
        init_globals
      ≡ (done out, g))
unfolding modify_transactions fund deploy_txns prepare_deposit prepare_deploy_contract deposit_txns
    user_txns init_globals create_signed_tx
second_block = (_, _, refl)

modify_transactions-IsKept_example : IsKept wallet 38 40 (tip ∷ []) second_block.0
modify_transactions-IsKept_example =
    modify_transactions-IsKept wallet cfg 38 (λ n. []) (omega arith) input (tip ∷ []) second_block.0
      init_globals second_block.1 (omega arith) second_block.2

-- Pairs of accounts drawn for a block: of the second the accounts are one, and of the fourth a draw
-- fails.
abbrev pair : ℕ → ℕ → Draw
pair from to = record { from = some from; to = some to }

abbrev some_draws : List Draw
some_draws =
    pair 3 4
    ∷ pair 5 5
    ∷ pair 0 3
    ∷ record { from = some 3; to = none }
    ∷ pair 3 9
    ∷ pair 3 1
    ∷ pair 2 1
    ∷ []

abbrev packed_pairs : List (ℕ × ℕ)
packed_pairs = (3, 4) ∷ (0, 3) ∷ (3, 9) ∷ (3, 1) ∷ []

abbrev fresh : Globals
fresh = record { nonces = replicate 10 2; test_contract_address = 7 }

pairs_drawn : packed_pairs ++ (2, 1) ∷ [] ≡ useful wallet cfg tip (λ t i. dynamic t) some_draws
unfolding useful drawn
pairs_drawn = refl

equal_nonces : (n a i : ℕ) → or_zero (get_elem? (replicate n a) i) 0 ≤ a
equal_nonces zero a i = omega arith
equal_nonces (suc n) a zero = omega arith
equal_nonces (suc n) a (suc i) = equal_nonces n a i

pack_eth_transfer_lem_example :
    (g : Globals) × (pack_eth_transfer wallet cfg some_draws tip fresh
      ≡ some (transfers wallet cfg tip (λ t i. dynamic t) fresh [] packed_pairs, g))
    × IsRaised fresh packed_pairs g
pack_eth_transfer_lem_example =
    pack_eth_transfer_lem wallet cfg tip (λ t i. dynamic t) (λ t i. refl) fresh some_draws
      packed_pairs ((2, 1) ∷ []) pairs_drawn refl (omega arith) (omega arith)
      (omega arith, (omega arith, (omega arith, (omega arith, tt)))) refl
      (λ i lt. omega (arith, equal_nonces num_addresses 2 i))

-- Two storage writes take 9,699,740 of ten million.
abbrev large : ReplayorConfig
large = record cfg { gas_target = 10_000_000; gas_limit = 20_000_000 }

two_writes :
    (out : List BareTx) × (g : Globals) × (pack_it_up wallet large 5 (λ n. []) input fresh
      ≡ (done out, g))
unfolding pack_it_up last_tx pack_storage_stressor storage_calls lookup storage_loop
two_writes = (_, _, refl)

pack_it_up-bound_example : length two_writes.0 * 4_849_870 ≤ 10_000_000
pack_it_up-bound_example =
    pack_it_up-bound wallet large 5 (λ n. []) input fresh two_writes.1 two_writes.0 two_writes.2
