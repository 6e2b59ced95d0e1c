-- ===== src/Service/Tests.antt =====
-- `Start` of packages/replayor/service.go on concrete nodes: it walks from block 0 to block 1, and its
-- benchmark replays block 2.
mod Stress
use replayor.Prelude.{
  ℕ, ◌+◌, ◌-◌, ◌≡◌, refl, ap, ◌∙◌, sym, false, true, none, some, List, [], ◌∷◌, ◌++◌, map, count_up,
  arith, String, eq_iff,
}
use replayor.Exec.{done, ok}
use replayor.Chain.{Block, execution_valid}
use replayor.Config.{ReplayorConfig}
use replayor.Strategies.Replay.{one_for_one}
use replayor.Strategies.Signing.{init_globals}
use replayor.Stats.Recorder.{
  StoredStats, new_stored_stats, record_block_stats, write_stats, last_number, stored_stats,
}
use replayor.Benchmark.Batch.{fetch, load_batch, all_finished}
use replayor.Benchmark.AddBlock.{
  Engine, add_block, request_payload, fetch_payload, import_payload, finish, marshal_all,
  block_stats,
}
use replayor.Benchmark.Replayed.{replay_parts}
use replayor.Benchmark.Pipeline.{load, new_limits, init_pipeline, run}
use replayor.Benchmark.Monitor.{Turn, work, done_chan, turns}
use replayor.Benchmark.Tests.{block_of, chain, engine, one_turn, numbered}
use replayor.Benchmark.Tests.Watched.{Disk, one_file, once, reads_back}
use replayor.Benchmark.Tests.Stress.{bare_wallet}
use replayor.Service.Calls.{reached, failed}
use replayor.Service.Starts.{IsStarted}
use replayor.Service.Walk.{
  ExecutionNode, Session, run_ended, read_head, wait_ready, walk_up, check_start, walk_monitor,
  benchmark_run,
}
use replayor.Service.Walked.{IsLastHead}
use replayor.Service.Benchmarked.{IsRecorded, start_records}
use replayor.Service.OnChain.{start_on_chain}
use replayor.Service.Errors.{start-unknown_strategy, start_error_lem, IsUntouched, IsMismatch}
use replayor.Service.Stops.{stops, stops_lem}
use replayor.Service.{Service, is_stopped, start, run_loaded, load_strategy, replay_monitor, close}

abbrev config : String → ReplayorConfig
config strategy = record {
  source_node_url = "";
  chain_id = 8453;
  engine_api_url = "";
  execution_url = "";
  strategy = strategy;
  block_count = 1;
  gas_target = 0;
  gas_limit = 0;
  benchmark_start_block = 1;
  benchmark_opcodes = false;
  compute_storage_diffs = false;
  test_name = "test_";
  bucket = "";
  storage_type = "disk";
  disk_path = "/tmp";
  stress_test_type = "";
  stress_test_function = "";
}

-- The world is the hash of the node's head.
abbrev pub node_engine : Engine ℕ ℕ ℕ
node_engine = record engine {
  now = λ w. (0, w);
  forkchoice_update = λ state attrs w. (
    ok (record { payload_status = execution_valid; payload_id = some (state.head_block_hash + 1) }),
    state.head_block_hash,
  );
}

abbrev pub exec_node : ExecutionNode (Block ℕ ℕ) ℕ
exec_node = record {
  latest_block = λ w. (ok (block_of (w - 1000)), w);
  retry_do = λ attempts op. op;
}

abbrev pub one_block : List (Turn (Block ℕ ℕ))
one_block = map work (load (count_up 0 25) ∷ one_turn ++ one_turn) ++ done_chan ∷ []

abbrev session : Session StoredStats ℕ Disk
session = record {
  recorder = new_stored_stats 1;
  world = 1000;
  disk = none;
  globals = init_globals;
  cancelled = false;
  closed = false;
}

started :
    (s' : Session StoredStats ℕ Disk) × (start node_engine chain bare_wallet
        (λ n. [])
        (stored_stats one_file once)
        (config "replay")
        exec_node
        one_block
        one_block
        session
      ≡ (reached tt, s'))
unfolding start read_head wait_ready walk_up check_start close run_loaded load_strategy
    replay_monitor walk_monitor benchmark_run turns run init_pipeline replay_parts add_block
    request_payload fetch_payload import_payload finish one_for_one marshal_all all_finished
    load_batch fetch block_stats record_block_stats write_stats last_number run_ended new_limits
started = (_, refl)

not_cancelled : started.0.cancelled ≡ false
unfolding start read_head wait_ready walk_up check_start close run_loaded load_strategy
    replay_monitor walk_monitor benchmark_run turns run init_pipeline replay_parts add_block
    request_payload fetch_payload import_payload finish one_for_one marshal_all all_finished
    load_batch fetch block_stats record_block_stats write_stats last_number run_ended new_limits
    started
not_cancelled = refl

start_records_example :
    (started.0.closed ≡ true)
    × IsRecorded node_engine chain bare_wallet
        (λ n. [])
        one_file
        once
        (config "replay")
        1
        started.0.disk
start_records_example =
    start_records node_engine chain bare_wallet (λ n. []) one_file once (config "replay") exec_node
      one_block one_block session started.0 refl (omega arith) (omega arith) numbered reads_back
      refl started.1 not_cancelled

-- The latest block of the node is the one whose hash was made its head last.
follows :
    (n : ℕ) (b : Block ℕ ℕ) (w : ℕ)
    → fetch chain n ≡ some b
    → IsLastHead node_engine b w
    → (exec_node.latest_block w).0 ≡ ok b
unfolding fetch
follows n b w h (w₀, result, answered, valid, now) =
    let served : block_of n ≡ b = ground arith in
    let there : w ≡ b.hash = sym now in
    let same : w - 1000 ≡ n = omega (arith, there, ap (λ (x : Block ℕ ℕ). x.hash) served) in
    ap (λ k. ok (block_of k)) same ∙ ap (λ x. ok x) served

start_on_chain_example :
    (h : IsStarted node_engine chain bare_wallet
      (λ n. [])
      (stored_stats one_file once)
      (config "replay")
      exec_node
      one_block
      one_block
      session
      started.0)
    × (fetch chain 1 ≡ some h.current_block)
start_on_chain_example =
    start_on_chain node_engine chain bare_wallet (λ n. []) (stored_stats one_file once)
      (config "replay") exec_node one_block one_block (block_of 0) session started.0 numbered
      follows refl (omega arith) (omega arith) started.1 not_cancelled

start-unknown_strategy_example :
    ¬ (
      (start node_engine chain bare_wallet
        (λ n. [])
        (stored_stats one_file once)
        (config "stres")
        exec_node
        one_block
        one_block
        session).0
      ≡ reached tt)
    × IsUntouched node_engine chain bare_wallet
        (λ n. [])
        (stored_stats one_file once)
        (config "stres")
        exec_node
        one_block
        one_block
        session
        (start node_engine chain bare_wallet
          (λ n. [])
          (stored_stats one_file once)
          (config "stres")
          exec_node
          one_block
          one_block
          session).1
start-unknown_strategy_example =
    start-unknown_strategy node_engine chain bare_wallet (λ n. []) (stored_stats one_file once)
      (config "stres") exec_node one_block one_block
      (λ e. ground (arith, eq_iff "stres" "stress", e))
      (λ e. ground (arith, eq_iff "stres" "replay", e)) session

-- A node that stays at its first block.
abbrev stuck_node : ExecutionNode (Block ℕ ℕ) ℕ
stuck_node = record { latest_block = λ w. (ok (block_of 0), w); retry_do = λ attempts op. op }

not_started :
    (s' : Session StoredStats ℕ Disk) × (start node_engine chain bare_wallet
        (λ n. [])
        (stored_stats one_file once)
        (config "replay")
        stuck_node
        one_block
        one_block
        session
      ≡ (failed "current block is not equal to benchmark start block", s'))
unfolding start read_head wait_ready walk_up check_start close run_loaded load_strategy
    replay_monitor walk_monitor benchmark_run turns run init_pipeline replay_parts add_block
    request_payload fetch_payload import_payload finish one_for_one marshal_all all_finished
    load_batch fetch block_stats record_block_stats write_stats last_number run_ended new_limits
not_started = (_, refl)

start_error_lem_example :
    IsMismatch node_engine chain bare_wallet
      (λ n. [])
      (stored_stats one_file once)
      (config "replay")
      stuck_node
      one_block
      one_block
      session
      not_started.0
      "current block is not equal to benchmark start block"
start_error_lem_example =
    start_error_lem node_engine chain bare_wallet (λ n. []) (stored_stats one_file once)
      (config "replay") stuck_node one_block one_block session not_started.0
      "current block is not equal to benchmark start block" not_started.1

abbrev begun : Service
begun = record { stopped = false; benchmark_cancel = true; cancelled = false }

stops_lem_example :
    ((stops 3 begun).0
      ≡ done none ∷ done (some "already stopped") ∷ done (some "already stopped") ∷ [])
    × (is_stopped (stops 3 begun).1 ≡ true)
    × ((stops 3 begun).1.cancelled ≡ true)
stops_lem_example = stops_lem 2 begun refl refl
