-- ===== src/Benchmark/Tests/Watched.antt =====
-- A `Run` of packages/replayor/benchmark.go with its monitor, against a storage of one file.
use replayor.Prelude.{
  ℕ, ◌≡◌, refl, none, some, Option, List, [], ◌∷◌, ◌++◌, map, count_up, arith, false,
}
use replayor.Exec.{Result, ok, err}
use replayor.Chain.{Block}
use replayor.Stats.{BlockCreationStats}
use replayor.Stats.Storage.{Storage}
use replayor.Stats.Recorder.{StoredStats, write_stats, last_number, record_block_stats}
use replayor.Benchmark.Batch.{fetch, all_finished, load_batch}
use replayor.Benchmark.AddBlock.{
  add_block, request_payload, fetch_payload, import_payload, finish, marshal_all, block_stats,
}
use replayor.Strategies.Replay.{one_for_one}
use replayor.Benchmark.Replayed.{replay_parts}
use replayor.Benchmark.Pipeline.{init_pipeline, run}
use replayor.Benchmark.Monitor.{turns, DestHead, Turn, work, done_chan, ticker, completed}
use replayor.Benchmark.Monitor.Replays.{watched_final, run_saves}
use replayor.Benchmark.Tests.{
  chain, two_blocks, block_of, engine, no_options, schedule, with_recorder, numbered,
}

abbrev pub Disk : Type 0
Disk = Option (List BlockCreationStats)

abbrev found : Disk → Result (List BlockCreationStats)
found none = err "missing"
found (some stats) = ok stats

abbrev pub one_file : Storage Disk
one_file = record { write = λ stats d. (ok tt, some stats); read = λ d. (found d, d) }

abbrev pub once : ℕ → (Disk → Result (Unit {0}) × Disk) → Disk → Result (Unit {0}) × Disk
once attempts op d = op d

-- The ticker fires once while the node is far ahead, so that the recorder writes early.
abbrev pub ahead : DestHead (Block ℕ ℕ)
ahead = record { latest_block = λ attempt. ok (block_of 150); retry_latest = λ attempts op. op 0 }

abbrev watched_turns : List (Turn (Block ℕ ℕ))
watched_turns = ticker ahead ∷ (map work schedule ++ ticker ahead ∷ done_chan ∷ [])

watched_ends :
    let m =
      watched_final engine no_options chain one_file once two_blocks 0 with_recorder none
        watched_turns in
    (m.watch ≡ completed) × (m.pipeline.cancelled ≡ false) × (m.pipeline.crashed ≡ false)
unfolding turns run init_pipeline replay_parts add_block request_payload fetch_payload
    import_payload finish one_for_one marshal_all all_finished load_batch fetch block_stats
    record_block_stats write_stats last_number
watched_ends = (refl, refl, refl)

pub reads_back :
    (r : StoredStats) (d : Disk) → (one_file.read (write_stats one_file once r d).1).0 ≡ ok r.stats
unfolding write_stats
reads_back r d = refl

run_saves_example :
    (stats : List BlockCreationStats) × (bs : List (Block ℕ ℕ)) × ((one_file.read
        (watched_final engine no_options chain one_file once two_blocks 0 with_recorder none
          watched_turns).disk).0
      ≡ ok stats)
    × (map (fetch chain) (count_up 1 2) ≡ map some bs)
    × (map (λ (x : BlockCreationStats). x.block_hash) stats ≡ map (λ b. b.hash) bs)
run_saves_example =
    run_saves engine no_options chain one_file once two_blocks 0 with_recorder none watched_turns
      numbered (omega arith) (omega arith) reads_back refl watched_ends.0 watched_ends.1
      watched_ends.2
