-- ===== src/Benchmark/Tests/Batches.antt =====
-- One batch of packages/replayor/benchmark.go, and a run of its goroutines over bare numbers.
use replayor.Prelude.{
  ◌+◌, ℕ, ◌≤◌, ◌<◌, ◌≡◌, refl, true, Option, some, List, [], ◌∷◌, ◌++◌, map, arith, count_up,
  length,
}
use replayor.Exec.{done, ok}
use replayor.Chain.{Block}
use replayor.Benchmark.Batch.{concurrency, fetch, all_finished, load_batch}
use replayor.Benchmark.Batch.Order.{stored, load_batch_lem}
use replayor.Benchmark.Pipeline.Flow.{pending, held}
use replayor.Benchmark.Pipeline.Bounded.{in_flight_bound}
use replayor.Benchmark.Pipeline.{capacity, map_next, new_limits, load, Pipeline, Parts}
use replayor.Benchmark.Pipeline.Progress.{in_turn}
use replayor.Benchmark.Pipeline.Numbers.{KeepsNumber}
use replayor.Benchmark.Pipeline.Remaining.{remaining_block_count_lem}
use replayor.Benchmark.Pipeline.Delivery.{final}
use replayor.Benchmark.Tests.{chain, one_turn}

-- The goroutines of a batch finish from the last to the first.
abbrev reversed : List ℕ
reversed =
    24 ∷ 23 ∷ 22 ∷ 21 ∷ 20 ∷ 19 ∷ 18 ∷ 17 ∷ 16 ∷ 15 ∷ 14 ∷ 13 ∷ 12 ∷ 11 ∷ 10 ∷ 9 ∷ 8 ∷ 7 ∷ 6 ∷ 5 ∷ 4
    ∷ 3 ∷ 2 ∷ 1 ∷ 0 ∷ []

reversed_finishes : all_finished reversed ≡ true
unfolding all_finished
reversed_finishes = refl

reversed_loads : (rs : List (Option (Block ℕ ℕ))) × (load_batch chain 5 reversed ≡ some rs)
unfolding load_batch fetch
reversed_loads = (_, refl)

load_batch_lem_example :
    (reversed_loads.0 ≡ map (stored chain 5) (count_up 0 concurrency))
    × ((i : ℕ) → i < concurrency → (b : Block ℕ ℕ) × (stored chain 5 i ≡ some b))
load_batch_lem_example =
    load_batch_lem chain 5 reversed reversed_loads.0 reversed_finishes reversed_loads.1

-- A pipeline of bare numbers, whose `addBlock` keeps what it is given.
abbrev numbers : Parts ℕ ℕ (Unit {0}) (List ℕ)
numbers = record {
  source = record { block_by_number = λ n attempt. ok (some n); retry_do = λ attempts op. op 0 };
  number = λ n. n;
  block_received = λ n st. (done (some n), st);
  add_block = λ n added. (done tt, added ++ n ∷ []);
}

abbrev part_way : Pipeline ℕ ℕ (Unit {0}) (List ℕ)
part_way = final numbers (new_limits 0 2) tt [] (load in_turn ∷ one_turn ++ one_turn)

number_kept : (n m : ℕ) → fetch numbers.source n ≡ some m → m ≡ n
unfolding fetch
number_kept n m h = ground arith

numbers-KeepsNumber : KeepsNumber numbers (λ n. n)
numbers-KeepsNumber = record { sourced = number_kept; kept = λ n st r h. (n, ground arith, refl) }

remaining_block_count_lem_example : part_way.remaining_block_count + length part_way.submitted ≡ 2
remaining_block_count_lem_example =
    remaining_block_count_lem numbers tt [] (load in_turn ∷ one_turn ++ one_turn) 0 2 (omega arith)
      (λ n. n) numbers-KeepsNumber

abbrev flowing : Pipeline ℕ ℕ (Unit {0}) (List ℕ)
flowing =
    final numbers (new_limits 0 60) tt []
      (load in_turn ∷ load in_turn ∷ load in_turn ∷ map_next ∷ [])

in_flight_bound_example :
    (length flowing.incoming ≤ capacity)
    × (length flowing.process ≤ capacity)
    × (length (pending flowing.loader)
          + length flowing.incoming
          + length (held flowing.mapper)
          + length flowing.process
        ≤ 76)
in_flight_bound_example =
    in_flight_bound numbers (new_limits 0 60) tt []
      (load in_turn ∷ load in_turn ∷ load in_turn ∷ map_next ∷ [])
