-- ===== src/Main/Tests.antt =====
-- cmd/replayor/main.go on flags that replay block 2 of a source, after a walk to block 1.
use replayor.Prelude.{ℕ, [], ◌≡◌, refl, false, none, List, String, if◌then◌else◌, str_eq}
use replayor.Exec.{Result, ok}
use replayor.Config.{
  Flags, load_replayor_config, make_config, test_name_of, check_stress, test_description,
}
use replayor.Stats.{BlockCreationStats}
use replayor.Stats.Storage.{file_written, disk_write}
use replayor.Stats.Create.{Places, disk_dir, disk_path, new_disk_storage, new_storage}
use replayor.Stats.Tests.{plain, One, one_file, one_object}
use replayor.Clients.{Dialer, setup_clients}
use replayor.Strategies.Replay.{one_for_one}
use replayor.Stats.Recorder.{
  StoredStats, record_block_stats, write_stats, last_number, stored_stats,
}
use replayor.Benchmark.Batch.{fetch, load_batch, all_finished}
use replayor.Benchmark.AddBlock.{
  add_block, request_payload, fetch_payload, import_payload, finish, marshal_all, block_stats,
}
use replayor.Benchmark.Replayed.{replay_parts}
use replayor.Benchmark.Pipeline.{new_limits, init_pipeline, run}
use replayor.Benchmark.Monitor.{turns}
use replayor.Benchmark.Tests.{chain}
use replayor.Benchmark.Tests.Stress.{bare_wallet}
use replayor.Service.Calls.{reached}
use replayor.Service.Walk.{
  Session, run_ended, read_head, wait_ready, walk_up, check_start, walk_monitor, benchmark_run,
}
use replayor.Service.Tests.{node_engine, exec_node, one_block}
use replayor.Service.{start, run_loaded, load_strategy, replay_monitor, close}
use replayor.Config.Read.{CliContext, read_flags}
use replayor.Main.Dialled.{IsRetried, AreDialled, main_dials}
use replayor.Main.Recorded.{opening}
use replayor.Main.{Application, new_service, main}

abbrev flags : String → Flags
flags storage_type = record {
  engine_api_secret = "secret";
  source_node_url = "source";
  engine_api_url = "engine";
  execution_url = "node";
  chain_id = "8453";
  rollup_config_path = "";
  rollup_chain_id = ok 8453;
  hostname = ok "host";
  test_name = "";
  strategy = "replay";
  block_count = 1;
  gas_target = 0;
  gas_limit = 0;
  benchmark_start_block = 1;
  benchmark_opcodes = false;
  compute_storage_diffs = false;
  bucket = "";
  storage_type = storage_type;
  disk_path = "/tmp";
  stress_test_type = "";
  stress_test_function = "";
}

-- A client is the address that was dialled.
abbrev dialer : Dialer String String One
dialer = record {
  dial = λ url w. (ok url, w);
  new_rpc = λ url w. (ok url, w);
  retry_node = λ attempts op. op;
  retry_engine = λ attempts op. op;
}

abbrev places : Places (List BlockCreationStats) One
places = record { unix = λ w. 7; format_int = λ n. "n"; files = one_file; objects = one_object }

abbrev once : ℕ → (One → Result (Unit {0}) × One) → One → Result (Unit {0}) × One
once attempts op d = op d

wired :
    (app : Application String String One) × (main dialer plain places (flags "disk") none
      ≡ (ok app, none))
unfolding main load_replayor_config test_name_of check_stress make_config setup_clients new_storage
    new_disk_storage disk_path disk_dir test_description new_service
wired = (_, refl)

-- A command line that keeps the records on disk.
abbrev command_line : CliContext
command_line = record {
  string = λ name.
      if str_eq name "strategy"
      then "replay"
      else if str_eq name "storage-type"
      then "disk"
      else if str_eq name "stress-test-type"
      then ""
      else if str_eq name "stress-test-function"
      then ""
      else name;
  int = λ name. 1;
  uint64 = λ name. if str_eq name "benchmark-start-block" then 7 else 0;
  bool = λ name. false;
}

abbrev rollup : String → String → Result ℕ
rollup id path = ok 8453

served :
    (app : Application String String One) × (main dialer plain places
        (read_flags rollup (ok "host") command_line)
        none
      ≡ (ok app, none))
unfolding main load_replayor_config test_name_of check_stress make_config setup_clients new_storage
    new_disk_storage disk_path disk_dir test_description new_service read_flags
served = (_, refl)

retried : IsRetried dialer
retried = record { node = λ n op w w' x h. (w, h); engine = λ n op w w' x h. (w, h) }

main_dials_example :
    AreDialled dialer served.0.clients "source-node-url" "execution-url" "engine-api-url"
    × (served.0.stats.stats ≡ [])
    × (served.0.stats.last_block_written ≡ 7)
main_dials_example =
    main_dials dialer plain places rollup (ok "host") command_line served.0 none none retried
      served.1

started :
    (s' : Session StoredStats ℕ One) × (start node_engine chain bare_wallet
        (λ n. [])
        (stored_stats wired.0.storage once)
        wired.0.cfg
        exec_node
        one_block
        one_block
        (opening wired.0 1000 none)
      ≡ (reached tt, s'))
unfolding wired start read_head wait_ready walk_up check_start close run_loaded load_strategy
    replay_monitor walk_monitor benchmark_run turns run init_pipeline replay_parts add_block
    request_payload fetch_payload import_payload finish one_for_one marshal_all all_finished
    load_batch fetch block_stats record_block_stats write_stats last_number run_ended new_limits
    make_config disk_write file_written new_service
started = (_, refl)
