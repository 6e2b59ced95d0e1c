-- ===== src/Benchmark/Tests/Stress.antt =====
-- A run of packages/replayor/benchmark.go with the strategy of packages/strategies/stress.go.
use replayor.Prelude.{
  ℕ, ◌+◌, ◌≡◌, refl, false, some, List, [], ◌∷◌, map, arith, count_up, replicate,
}
use replayor.Exec.{done, each, ok}
use replayor.Chain.{Block}
use replayor.Strategies.{BlockCreationParams}
use replayor.Stats.{BlockCreationStats}
use replayor.Benchmark.Batch.{SourceNode, fetch, all_finished, load_batch}
use replayor.Config.{ReplayorConfig}
use replayor.Strategies.Signing.{
  Wallet, Globals, prepare_deposit, prepare_deploy_contract, deposit_txns, user_txns,
}
use replayor.Strategies.Stress.{stress_test, stress_received}
use replayor.Benchmark.Stressed.{stress_parts, stress_run}
use replayor.Benchmark.AddBlock.{
  Submission, add_block, request_payload, fetch_payload, import_payload, finish, marshal_all,
  block_stats,
}
use replayor.Benchmark.Pipeline.{Pipeline, submit_done, init_pipeline, run}
use replayor.Benchmark.Pipeline.Delivery.{final}
use replayor.Benchmark.Tests.{
  two_blocks, block_of, engine, keep_all, no_options, at_genesis, schedule,
}

-- The stress strategy before any nonce is used, and a node whose blocks have one transaction.
abbrev pub bare_wallet : Wallet ℕ
bare_wallet = record {
  sign_tx = λ t i. ok t.nonce;
  new_deposit = λ d. d.from;
  is_deposit_tx = λ t. false;
  gas_tip_cap = λ t. 1;
  data_of = λ t. [];
  create_address = λ address nonce. address + nonce;
  addresses = λ i. 100 + i;
  l1_block_hash = λ time call. ok 5;
  user_deposit_hash = λ hash index. hash + index;
  receiver_bytes = λ nonce. nonce ∷ [];
  erc20_bytecode = [];
  precompile_targeter_bytecode = [];
  storage_stressor_bytecode = [];
}

abbrev pub erc20_cfg : ReplayorConfig
erc20_cfg = record {
  source_node_url = "";
  chain_id = 8453;
  engine_api_url = "";
  execution_url = "";
  strategy = "stress";
  block_count = 2;
  gas_target = 100_000;
  gas_limit = 200_000;
  benchmark_start_block = 0;
  benchmark_opcodes = false;
  compute_storage_diffs = false;
  test_name = "test_";
  bucket = "";
  storage_type = "disk";
  disk_path = "/tmp";
  stress_test_type = "erc20";
  stress_test_function = "";
}

abbrev pub busy_chain : SourceNode (Block ℕ ℕ)
busy_chain = record {
  block_by_number = λ n attempt. ok (some (record (block_of n) { transactions = 1 ∷ 2 ∷ [] }));
  retry_do = λ attempts op. op 0;
}

abbrev stressing :
    Pipeline (Block ℕ ℕ) (BlockCreationParams ℕ ℕ) Globals (Submission (List BlockCreationStats) ℕ)
stressing =
    final (stress_parts engine keep_all no_options busy_chain bare_wallet erc20_cfg 0 (λ n. []))
      two_blocks (record { nonces = replicate 10 0; test_contract_address = 0 }) at_genesis schedule

stressing_ends : (stressing.submitter ≡ submit_done) × (stressing.cancelled ≡ false)
unfolding run init_pipeline stress_parts add_block request_payload fetch_payload import_payload
    finish stress_test all_finished load_batch fetch marshal_all block_stats stress_received
    prepare_deposit prepare_deploy_contract deposit_txns user_txns
stressing_ends = (refl, refl)

pub busy_numbered : (n : ℕ) (b : Block ℕ ℕ) → fetch busy_chain n ≡ some b → b.number ≡ n
unfolding fetch
busy_numbered n b h = ground arith

stress_run_example :
    (map (λ (x : BlockCreationParams ℕ ℕ). x.number) stressing.submitted ≡ count_up 1 2)
    × (each
          (add_block engine keep_all (stress_test bare_wallet erc20_cfg 0 (λ n. [])) no_options)
          stressing.submitted
          at_genesis
        ≡ (done tt, stressing.world))
stress_run_example =
    stress_run engine keep_all no_options busy_chain bare_wallet erc20_cfg 0 (λ n. []) two_blocks
      (record { nonces = replicate 10 0; test_contract_address = 0 }) at_genesis schedule
      busy_numbered (omega arith) (omega arith) stressing_ends.0 stressing_ends.1
