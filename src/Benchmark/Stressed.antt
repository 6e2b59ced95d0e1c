-- ===== src/Benchmark/Stressed.antt =====
-- The stress strategy of packages/strategies/stress.go in the pipeline of
-- packages/replayor/benchmark.go.
pub mod Nonces
use replayor.Prelude.{ℕ, ◌+◌, ◌-◌, ◌≤◌, ◌<◌, ◌≡◌, false, some, List, map, count_up, u64_mod}
use replayor.Exec.{done, each}
use replayor.Chain.{Block}
use replayor.Config.{ReplayorConfig}
use replayor.Strategies.{BlockCreationParams}
use replayor.Strategies.Signing.{Wallet, Globals}
use replayor.Strategies.Packing.{Draw}
use replayor.Strategies.Stress.{stress_test}
use replayor.Strategies.Stress.Numbers.{number-stress_received}
use replayor.Stats.{BlockCreationStats}
use replayor.Benchmark.Batch.{SourceNode, concurrency, fetch}
use replayor.Benchmark.Enrich.{Options}
use replayor.Benchmark.AddBlock.{Engine, Submission, add_block}
use replayor.Benchmark.Pipeline.{Limits, Parts, Actor, submit_done}
use replayor.Benchmark.Pipeline.Numbers.{KeepsNumber}
use replayor.Benchmark.Pipeline.Delivery.{final, complete_run}

module _ {Tx Withdrawals Recorder World : Type 0} (engine : Engine Tx Withdrawals World)
    (record_block_stats : BlockCreationStats → Recorder → Recorder) (options : Options)
    (node : SourceNode (Block Tx Withdrawals)) (wallet : Wallet Tx) (cfg : ReplayorConfig)
    (start_block_num : ℕ) (draws : ℕ → List Draw) where
  unfoldable pub stress_parts :
      Parts
        (Block Tx Withdrawals)
        (BlockCreationParams Tx Withdrawals)
        Globals
        (Submission Recorder World)
  stress_parts =
      let strategy = stress_test wallet cfg start_block_num draws in
      record {
        source = node;
        number = λ x. x.number;
        block_received = strategy.block_received;
        add_block = add_block engine record_block_stats strategy options;
      }

  stress-KeepsNumber :
      ((n : ℕ) (b : Block Tx Withdrawals) → fetch node n ≡ some b → b.number ≡ n)
      → KeepsNumber stress_parts (λ b. b.number)
  unfolding stress_parts stress_test
  stress-KeepsNumber sourced = record {
    sourced = sourced;
    kept = λ b g r h. number-stress_received wallet cfg start_block_num draws b g r h;
  }

  -- For a source that serves under a number the block of that number, a start block at most one
  -- past the end block and an end block 25 below 2 ^ 64: whatever the schedule, a run of the stress
  -- strategy in which `submitBlocks` has returned without a cancellation has handed one block for
  -- every number from the start block to the end block to `addBlock`, in order, and `addBlock`
  -- returned for each.
  pub stress_run :
      (limits : Limits) (g : Globals) (s : Submission Recorder World) (schedule : List Actor)
      → ((n : ℕ) (b : Block Tx Withdrawals) → fetch node n ≡ some b → b.number ≡ n)
      → limits.start_block_num ≤ limits.end_block_num + 1
      → limits.end_block_num + concurrency < u64_mod
      → (final stress_parts limits g s schedule).submitter ≡ submit_done
      → (final stress_parts limits g s schedule).cancelled ≡ false
      → (map
            (λ (x : BlockCreationParams Tx Withdrawals). x.number)
            (final stress_parts limits g s schedule).submitted
          ≡ count_up limits.start_block_num (limits.end_block_num + 1 - limits.start_block_num))
        × (each
              (add_block engine record_block_stats
                (stress_test wallet cfg start_block_num draws)
                options)
              (final stress_parts limits g s schedule).submitted
              s
            ≡ (done tt, (final stress_parts limits g s schedule).world))
  unfolding stress_parts
  stress_run limits g s schedule sourced ordered room returned running =
      let (numbers, made, added, served) =
        complete_run stress_parts limits g s schedule ordered room (λ b. b.number)
          (stress-KeepsNumber sourced) returned running in
      (numbers, added)
