-- ===== src/Benchmark/Tests/Stresses.antt =====
-- A `Run` of packages/replayor/benchmark.go with its monitor and the strategy of
-- packages/strategies/stress.go, against a storage of one file.
use replayor.Prelude.{
  ℕ, ◌≡◌, refl, none, false, List, [], ◌∷◌, ◌++◌, map, count_up, arith, replicate,
}
use replayor.Exec.{ok}
use replayor.Strategies.{BlockCreationParams}
use replayor.Strategies.Signing.{
  Globals, prepare_deposit, prepare_deploy_contract, deposit_txns, user_txns,
}
use replayor.Strategies.Stress.{stress_test, stress_received}
use replayor.Stats.{BlockCreationStats}
use replayor.Stats.Recorder.{write_stats, last_number, record_block_stats}
use replayor.Benchmark.Batch.{fetch, all_finished, load_batch}
use replayor.Benchmark.AddBlock.{
  add_block, request_payload, fetch_payload, import_payload, finish, marshal_all, block_stats,
}
use replayor.Benchmark.Counted.{txn_counts, sizes}
use replayor.Benchmark.Stressed.{stress_parts}
use replayor.Benchmark.Pipeline.{init_pipeline, run}
use replayor.Benchmark.Monitor.{turns, Turn, work, done_chan, ticker, completed}
use replayor.Benchmark.Monitor.Stresses.{stressed_final, stress_saves}
use replayor.Chain.{Block}
use replayor.Benchmark.Tests.{two_blocks, engine, no_options, schedule, with_recorder}
use replayor.Benchmark.Tests.Stress.{bare_wallet, erc20_cfg, busy_chain, busy_numbered}
use replayor.Benchmark.Tests.Watched.{one_file, once, ahead, reads_back}

abbrev fresh : Globals
fresh = record { nonces = replicate 10 0; test_contract_address = 0 }

abbrev stressed_turns : List (Turn (Block ℕ ℕ))
stressed_turns = map work schedule ++ ticker ahead ∷ done_chan ∷ []

stressed_ends :
    let m =
      stressed_final engine no_options busy_chain bare_wallet erc20_cfg 0
        (λ n. [])
        one_file
        once
        two_blocks
        0
        fresh
        with_recorder
        none
        stressed_turns in
    (m.watch ≡ completed) × (m.pipeline.cancelled ≡ false) × (m.pipeline.crashed ≡ false)
unfolding turns run init_pipeline stress_parts add_block request_payload fetch_payload
    import_payload finish stress_test stress_received prepare_deposit prepare_deploy_contract
    deposit_txns user_txns marshal_all all_finished load_batch fetch block_stats record_block_stats
    write_stats last_number
stressed_ends = (refl, refl, refl)

stress_saves_example :
    (stats : List BlockCreationStats) × ((one_file.read
        (stressed_final engine no_options busy_chain bare_wallet erc20_cfg 0
          (λ n. [])
          one_file
          once
          two_blocks
          0
          fresh
          with_recorder
          none
          stressed_turns).disk).0
      ≡ ok stats)
    × (map
          (λ (x : BlockCreationParams ℕ ℕ). x.number)
          (stressed_final engine no_options busy_chain bare_wallet erc20_cfg 0
            (λ n. [])
            one_file
            once
            two_blocks
            0
            fresh
            with_recorder
            none
            stressed_turns).pipeline.submitted
        ≡ count_up 1 2)
    × (txn_counts stats
        ≡ sizes
            (stressed_final engine no_options busy_chain bare_wallet erc20_cfg 0
              (λ n. [])
              one_file
              once
              two_blocks
              0
              fresh
              with_recorder
              none
              stressed_turns).pipeline.submitted)
stress_saves_example =
    stress_saves engine no_options busy_chain bare_wallet erc20_cfg 0 (λ n. []) one_file once
      two_blocks 0 fresh with_recorder none stressed_turns busy_numbered (omega arith) (omega arith)
      reads_back refl stressed_ends.0 stressed_ends.1 stressed_ends.2
