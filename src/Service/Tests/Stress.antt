-- ===== src/Service/Tests/Stress.antt =====
-- `Start` of packages/replayor/service.go with the stress strategy: it walks from block 0 to block 1,
-- and its benchmark funds an account in block 2.
use replayor.Prelude.{ℕ, ◌≡◌, refl, false, true, [], arith}
use replayor.Config.{ReplayorConfig}
use replayor.Strategies.Signing.{
  init_globals, prepare_deposit, prepare_deploy_contract, deposit_txns, user_txns,
}
use replayor.Strategies.Replay.{one_for_one}
use replayor.Strategies.Stress.{stress_test, stress_received}
use replayor.Stats.Recorder.{
  StoredStats, record_block_stats, write_stats, last_number, stored_stats,
}
use replayor.Benchmark.Batch.{fetch, load_batch, all_finished}
use replayor.Benchmark.AddBlock.{
  add_block, request_payload, fetch_payload, import_payload, finish, marshal_all, block_stats,
}
use replayor.Benchmark.Replayed.{replay_parts}
use replayor.Benchmark.Stressed.{stress_parts}
use replayor.Benchmark.Pipeline.{new_limits, init_pipeline, run}
use replayor.Benchmark.Monitor.{turns}
use replayor.Benchmark.Tests.Watched.{Disk, one_file, once, reads_back}
use replayor.Benchmark.Tests.Stress.{bare_wallet, busy_chain, busy_numbered}
use replayor.Service.Calls.{reached}
use replayor.Service.Walk.{
  Session, run_ended, read_head, wait_ready, walk_up, check_start, walk_monitor, benchmark_run,
}
use replayor.Service.Stressed.{HasRecords, start_stress_records}
use replayor.Service.{start, run_loaded, load_strategy, stress_monitor, close}
use replayor.Service.Tests.{config, node_engine, exec_node, one_block, session}

abbrev stress_config : ReplayorConfig
stress_config = record (config "stress") { stress_test_type = "erc20" }

stress_started :
    (s' : Session StoredStats ℕ Disk) × ((start node_engine busy_chain bare_wallet
          (λ n. [])
          (stored_stats one_file once)
          stress_config
          exec_node
          one_block
          one_block
          session
        ≡ (reached tt, s'))
      × (s'.cancelled ≡ false))
unfolding start read_head wait_ready walk_up check_start close run_loaded load_strategy
    stress_monitor walk_monitor benchmark_run turns run init_pipeline replay_parts stress_parts
    stress_test stress_received prepare_deposit prepare_deploy_contract deposit_txns user_txns
    init_globals add_block request_payload fetch_payload import_payload finish one_for_one
    marshal_all all_finished load_batch fetch block_stats record_block_stats write_stats last_number
    run_ended new_limits
stress_started = (_, (refl, refl))

start_stress_records_example :
    (stress_started.0.closed ≡ true)
    × HasRecords node_engine busy_chain bare_wallet
        (λ n. [])
        one_file
        once
        stress_config
        stress_started.0.disk
start_stress_records_example =
    start_stress_records node_engine busy_chain bare_wallet (λ n. []) one_file once stress_config
      exec_node one_block one_block session stress_started.0 refl (omega arith) (omega arith)
      busy_numbered reads_back refl stress_started.1.0 stress_started.1.1
