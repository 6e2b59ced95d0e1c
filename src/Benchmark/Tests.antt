-- ===== src/Benchmark/Tests.antt =====
-- Runs of packages/replayor/benchmark.go against a small chain, and its theorems at that chain.
pub mod Batches
pub mod Stress
pub mod Watched
mod Nonces
mod Stresses
use replayor.Prelude.{
  ℕ, ◌+◌, ◌-◌, ◌≤◌, ◌<◌, ◌≡◌, refl, false, true, Option, none, some, List, [], ◌∷◌, ◌++◌, map,
  arith, count_up, All, length, replicate,
}
use replayor.Exec.{done, each, ok, err}
use replayor.Chain.{Block, execution_valid}
use replayor.Strategies.{BlockCreationParams}
use replayor.Strategies.Replay.{block_to_creation_params, one_for_one}
use replayor.Stats.{BlockCreationStats}
use replayor.Benchmark.Batch.{SourceNode, concurrency, fetch, all_finished, load_batch}
use replayor.Benchmark.Enrich.{DestNode, Options}
use replayor.Stats.Recorder.{StoredStats, new_stored_stats, record_block_stats}
use replayor.Benchmark.Batch.Order.{stored, load_batch_lem}
use replayor.Benchmark.AddBlock.Accepted.{IsAccepted, add_block-IsAccepted}
use replayor.Config.{ReplayorConfig}
use replayor.Strategies.Signing.{
  Wallet, Globals, prepare_deposit, prepare_deploy_contract, deposit_txns, user_txns,
}
use replayor.Strategies.Stress.{stress_test, stress_received}
use replayor.Benchmark.Stressed.{stress_parts, stress_run}
use replayor.Benchmark.Recorded.{recorded_hashes, recorded_in_order}
use replayor.Benchmark.AddBlock.{
  Engine, Submission, Requested, Fetched, Imported, add_block, request_payload, fetch_payload,
  import_payload, finish, marshal_all, block_stats,
}
use replayor.Benchmark.Replayed.{
  IsReplayed, replay_parts, replay-KeepsNumber, replayed_hash, walk_up_hash,
}
use replayor.Benchmark.Pipeline.{
  Limits, Parts, Pipeline, Actor, load, map_next, submit_next, submit_done, init_pipeline, run,
}
use replayor.Benchmark.Pipeline.Flow.{map_one, blocks}
use replayor.Benchmark.Pipeline.Progress.{work}
use replayor.Benchmark.Pipeline.Completion.{can_complete}
use replayor.Benchmark.Pipeline.Returns.{Returns}
use replayor.Benchmark.Pipeline.Delivery.{final, submitted_in_order, complete_run}

-- The block of a number, whose hash is the number and 1000.
abbrev pub block_of : ℕ → Block ℕ ℕ
block_of n = record {
  number = n;
  hash = n + 1000;
  transactions = [];
  gas_limit = 30_000_000;
  gas_used = 0;
  time = n;
  mix_digest = 0;
  beacon_root = none;
  coinbase = 0;
  withdrawals = 0;
  extra = [];
}

abbrev pub chain : SourceNode (Block ℕ ℕ)
chain = record {
  block_by_number = λ n attempt. ok (some (block_of n));
  retry_do = λ attempts op. op 0;
}

-- A node that always agrees, and builds on a hash the block of the next one.
abbrev node : DestNode
node = record {
  block_receipts = λ hash attempt. ok [];
  retry_receipts = λ attempts op. op 0;
  tracer = record {
    transaction_gas = λ hash attempt. ok 0;
    trace_transaction = λ hash attempt. err "no trace";
    retry_gas = λ attempts op. op 0;
    retry_trace = λ attempts op. op 0;
  };
  storage_tracer = record {
    trace_block = λ hash attempt. ok [];
    retry_traces = λ attempts op. op 0;
  };
}

abbrev pub engine : Engine ℕ ℕ ℕ
engine = record {
  now = λ w. (w, w + 1);
  forkchoice_update = λ state attrs w. (
    ok (record { payload_status = execution_valid; payload_id = some (state.head_block_hash + 1) }),
    w,
  );
  get_payload = λ info w. (
    ok (record {
      execution_payload = record { block_hash = info.id; block_number = info.id - 1000 };
      parent_beacon_block_root = none;
    }),
    w,
  );
  new_payload = λ payload root w. (ok execution_valid, w);
  dest_node = λ w. node;
  marshal_binary = λ txn. ok (txn ∷ []);
  gas = λ txn. 21_000;
  is_holocene = λ t. false;
  decode_holocene_extra_data = λ extra. (0, 0);
  encode_holocene_1559_params = λ d e. [];
}

abbrev pub keep_all : BlockCreationStats → List BlockCreationStats → List BlockCreationStats
keep_all stats recorded = recorded ++ stats ∷ []

abbrev pub no_options : Options
no_options = record { benchmark_opcodes = false; diff_storage = false }

abbrev pub at_genesis : Submission (List BlockCreationStats) ℕ
at_genesis = record { previous_replayed_block_hash = 1000; recorder = []; world = 0 }

add_block-at_genesis :
    (s' : Submission (List BlockCreationStats) ℕ) × (add_block engine keep_all one_for_one
        no_options
        (block_to_creation_params (block_of 1))
        at_genesis
      ≡ (done tt, s'))
unfolding add_block request_payload fetch_payload import_payload finish one_for_one marshal_all
add_block-at_genesis = (_, refl)

replayed_hash_example : add_block-at_genesis.0.previous_replayed_block_hash ≡ 1001
replayed_hash_example =
    replayed_hash engine keep_all no_options (block_of 1) at_genesis add_block-at_genesis.0
      add_block-at_genesis.1

abbrev pub two_blocks : Limits
two_blocks = record { start_block_num = 1; end_block_num = 2; remaining_block_count = 2 }

-- One block through all three goroutines.
abbrev pub one_turn : List Actor
one_turn = load (count_up 0 25) ∷ map_next ∷ map_next ∷ submit_next ∷ []

abbrev pub schedule : List Actor
schedule = load (count_up 0 25) ∷ one_turn ++ (one_turn ++ one_turn)

abbrev parts :
    Parts (Block ℕ ℕ) (BlockCreationParams ℕ ℕ) (Unit {0}) (Submission (List BlockCreationStats) ℕ)
parts = replay_parts engine keep_all no_options chain

abbrev ended :
    Pipeline
      (Block ℕ ℕ)
      (BlockCreationParams ℕ ℕ)
      (Unit {0})
      (Submission (List BlockCreationStats) ℕ)
ended = final parts two_blocks tt at_genesis schedule

run_ends : (ended.submitter ≡ submit_done) × (ended.cancelled ≡ false)
unfolding run init_pipeline replay_parts add_block request_payload fetch_payload import_payload
    finish one_for_one all_finished load_batch fetch marshal_all block_stats
run_ends = (refl, refl)

pub numbered : (n : ℕ) (b : Block ℕ ℕ) → fetch chain n ≡ some b → b.number ≡ n
unfolding fetch
numbered n b h = ground arith

submitted_in_order_example :
    (map (λ (x : BlockCreationParams ℕ ℕ). x.number) ended.submitted
      ≡ count_up 1 (length ended.submitted))
    × All (λ (x : BlockCreationParams ℕ ℕ). x.number ≤ 2) ended.submitted
    × (each parts.add_block ended.submitted at_genesis ≡ (done tt, ended.world))
unfolding replay_parts
submitted_in_order_example =
    submitted_in_order parts two_blocks tt at_genesis schedule (omega arith) (omega arith)
      (λ b. b.number) (replay-KeepsNumber engine keep_all no_options chain numbered)

walk_up_hash_example :
    (b : Block ℕ ℕ) × (fetch chain 2 ≡ some b) × IsReplayed engine keep_all no_options b ended.world
walk_up_hash_example =
    walk_up_hash engine keep_all no_options chain two_blocks at_genesis schedule numbered
      (omega arith) (omega arith) run_ends.0 run_ends.1

complete_run_example :
    (map (λ (x : BlockCreationParams ℕ ℕ). x.number) ended.submitted ≡ count_up 1 2)
    × ((st : Unit {0}) × (each (map_one parts) (blocks parts 1 2) ([], tt)
          ≡ (done tt, (ended.submitted, st))))
    × (each parts.add_block ended.submitted at_genesis ≡ (done tt, ended.world))
    × ((i : ℕ) → i < 2 → (b : Block ℕ ℕ) × (fetch parts.source (1 + i) ≡ some b))
unfolding replay_parts
complete_run_example =
    complete_run parts two_blocks tt at_genesis schedule (omega arith) (omega arith) (λ b. b.number)
      (replay-KeepsNumber engine keep_all no_options chain numbered) run_ends.0 run_ends.1

-- The loops of the replay strategy return on the chain.
returns_in_order : Returns parts 1 2 tt at_genesis
unfolding replay_parts add_block request_payload fetch_payload import_payload finish one_for_one
    marshal_all fetch block_stats each map_one
returns_in_order = record {
  served = λ n after before. (block_of n, refl);
  answered = (_, _, refl);
  added = (_, _, _, refl, refl);
}

turn_running : (final parts two_blocks tt at_genesis one_turn).cancelled ≡ false
unfolding run init_pipeline replay_parts add_block request_payload fetch_payload import_payload
    finish one_for_one all_finished load_batch fetch marshal_all block_stats
turn_running = refl

can_complete_example :
    (rest : List Actor) × (length rest
      ≤ work parts 2 (final parts two_blocks tt at_genesis one_turn))
    × ((final parts two_blocks tt at_genesis (one_turn ++ rest)).cancelled ≡ false)
    × ((final parts two_blocks tt at_genesis (one_turn ++ rest)).crashed ≡ false)
    × ((final parts two_blocks tt at_genesis (one_turn ++ rest)).submitter ≡ submit_done)
can_complete_example =
    can_complete parts two_blocks tt at_genesis one_turn (λ b. b.number)
      (replay-KeepsNumber engine keep_all no_options chain numbered) (omega arith) (omega arith)
      returns_in_order turn_running

add_block-IsAccepted_example :
    (r : Requested) × (f : Fetched) × (i : Imported) × IsAccepted engine keep_all one_for_one
      no_options
      (block_to_creation_params (block_of 1))
      at_genesis
      add_block-at_genesis.0
      r
      f
      i
add_block-IsAccepted_example =
    add_block-IsAccepted engine keep_all one_for_one no_options
      (block_to_creation_params (block_of 1)) at_genesis add_block-at_genesis.0
      add_block-at_genesis.1

abbrev with_recorder : Submission StoredStats ℕ
with_recorder = record {
  previous_replayed_block_hash = 1000;
  recorder = new_stored_stats 1;
  world = 0;
}

abbrev recording :
    Pipeline (Block ℕ ℕ) (BlockCreationParams ℕ ℕ) (Unit {0}) (Submission StoredStats ℕ)
recording =
    final (replay_parts engine record_block_stats no_options chain) two_blocks tt with_recorder
      schedule

recording_ends : (recording.submitter ≡ submit_done) × (recording.cancelled ≡ false)
unfolding run init_pipeline replay_parts add_block request_payload fetch_payload import_payload
    finish one_for_one all_finished load_batch fetch marshal_all block_stats
recording_ends = (refl, refl)

recorded_in_order_example :
    (bs : List (Block ℕ ℕ)) × (map (fetch chain) (count_up 1 2) ≡ map some bs)
    × (recorded_hashes engine no_options chain recording.world ≡ map (λ b. b.hash) bs)
recorded_in_order_example =
    recorded_in_order engine no_options chain two_blocks with_recorder schedule numbered
      (omega arith) (omega arith) refl recording_ends.0 recording_ends.1
