-- ===== src/Service/Walked.antt =====
-- The walk to the start block in `Start` of packages/replayor/service.go, and the runs of its two
-- benchmarks.
use mathlib.Core.Path.{subst}
use replayor.Prelude.{
  ℕ, ◌+◌, ◌<◌, u64_mod, Bool, true, false, ◌≡◌, refl, ap, sym, ◌∙◌, ◌⊎◌, inl, inr, arith, some,
  List, sub64, Bool-cases,
}
use replayor.Chain.{Block}
use replayor.Strategies.{BlockCreationParams}
use replayor.Strategies.Replay.{one_for_one}
use replayor.Stats.Recorder.{Stats, no_op_stats}
use replayor.Benchmark.Batch.{SourceNode, concurrency, fetch}
use replayor.Benchmark.AddBlock.{Engine, Submission}
use replayor.Benchmark.AddBlock.Accepted.{IsHead}
use replayor.Benchmark.Replayed.{replay_parts, walk_up_hash}
use replayor.Benchmark.Pipeline.{new_limits, Parts, init_pipeline, submit_done}
use replayor.Benchmark.Pipeline.Delivery.{final}
use replayor.Benchmark.Monitor.{Watching, watching, completed, interrupted, Monitor, Turn}
use replayor.Benchmark.Monitor.Runs.{actors, turns-view}
use replayor.Benchmark.Monitor.Saved.{IsSaved, turns-IsSaved}
use replayor.Benchmark.Monitor.Interrupted.{IsTold, turns-IsTold}
use replayor.Service.Calls.{reached}
use replayor.Service.Walk.{Session, run_ended, benchmark_run, walk_monitor, walk_up}

run_ended-reached :
    (crashed : Bool) (w : Watching)
    → run_ended crashed w ≡ reached tt
    → (crashed ≡ false) × ((w ≡ completed) ⊎ (w ≡ interrupted))
unfolding run_ended
run_ended-reached true w h = cc
run_ended-reached false watching h = cc
run_ended-reached false completed h = (refl, inl refl)
run_ended-reached false interrupted h = (refl, inr refl)

module _ {Tx Withdrawals Params Strategy Recorder Kept World Disk : Type 0}
    (parts : Parts (Block Tx Withdrawals) Params Strategy (Submission Recorder World))
    (stats : Stats Recorder Disk) (strategy : Strategy) (recorder : Recorder)
    (b : Block Tx Withdrawals) (block_count : ℕ) (ts : List (Turn (Block Tx Withdrawals)))
    (s : Session Kept World Disk) where
  abbrev monitor : Monitor (Block Tx Withdrawals) Params Strategy Recorder World Disk
  monitor = benchmark_run parts stats strategy recorder b block_count ts s

  -- A `Run` that has returned uncancelled has returned by `doneChan`, and began uncancelled.
  pub benchmark_run-returned :
      run_ended monitor.pipeline.crashed monitor.watch ≡ reached tt
      → monitor.pipeline.cancelled ≡ false
      → (monitor.pipeline.crashed ≡ false)
        × (monitor.watch ≡ completed)
        × (monitor.pipeline.submitter ≡ submit_done)
        × (s.cancelled ≡ false)
  unfolding benchmark_run
  benchmark_run-returned returned running =
      let (alive, why) = run_ended-reached monitor.pipeline.crashed monitor.watch returned in
      let told : IsTold parts stats (λ x. x.number) (new_limits b.number block_count).end_block_num
          (s.cancelled ≡ true) monitor =
        turns-IsTold parts stats (λ x. x.number) (new_limits b.number block_count).end_block_num
          (s.cancelled ≡ true) ts _ (record { told = λ i. cc; stayed = λ c. c }) in
      let saved : IsSaved parts stats (λ x. x.number)
          (new_limits b.number block_count).end_block_num (λ r d. Unit {0}) _ monitor =
        turns-IsSaved parts stats (λ x. x.number) (new_limits b.number block_count).end_block_num
          (λ r d. Unit {0}) (λ r d. tt) ts _ (record { submitted = λ w. cc; saved = λ w. tt }) in
      elim why [
        | inr i ↦ let c = told.told i in cc
        | inl done ↦ (
          alive,
          done,
          saved.submitted done,
          elim (Bool-cases s.cancelled) [ inl c ↦ let c' = told.stayed c in cc | inr c ↦ c ],
        )
      ]

  -- Where the recorder does not change as it writes, the run is that of its goroutines.
  pub benchmark_run-final :
      ((r : Recorder) (d : Disk) → (stats.write r d).0 ≡ r)
      → monitor.pipeline.crashed ≡ false
      → s.cancelled ≡ false
      → monitor.pipeline
        ≡ final parts
            (new_limits b.number block_count)
            strategy
            (record { previous_replayed_block_hash = b.hash; recorder = recorder; world = s.world })
            (actors ts)
  unfolding benchmark_run init_pipeline
  benchmark_run-final writes alive running =
      turns-view parts stats (λ x. x.number) (new_limits b.number block_count).end_block_num
        (λ w. w) parts.add_block (λ x w. refl) (λ w d. simp (writes w.recorder d) refl) ts _ alive
      ∙ simp running refl

-- The walk ends at the start block, without a wrap.
new_limits-walk :
    (n start_block : ℕ)
    → n < start_block
    → start_block + concurrency < u64_mod
    → ((new_limits n (sub64 start_block n)).start_block_num ≡ n + 1)
      × ((new_limits n (sub64 start_block n)).end_block_num ≡ start_block)
unfolding new_limits
new_limits-walk n start_block h room = (omega arith, omega arith)

-- The block was made the head of the node last, and the node said that it is valid.
abbrev pub IsLastHead :
    {Tx Withdrawals World : Type 0}
    → Engine Tx Withdrawals World
    → Block Tx Withdrawals
    → World
    → Type 0
IsLastHead {World = World} engine b w =
    IsHead {Recorder = Unit {0}} engine (λ bcs r. r) one_for_one
      (record { benchmark_opcodes = false; diff_storage = false }) b.hash w

module _ {Tx Withdrawals Recorder World Disk : Type 0} (engine : Engine Tx Withdrawals World)
    (node : SourceNode (Block Tx Withdrawals)) (start_block : ℕ) (first : Block Tx Withdrawals)
    (ts : List (Turn (Block Tx Withdrawals))) (s : Session Recorder World Disk) where
  abbrev walk :
      Monitor
        (Block Tx Withdrawals)
        (BlockCreationParams Tx Withdrawals)
        (Unit {0})
        (Unit {0})
        World
        Disk
  walk = walk_monitor engine node start_block first ts s

  walk-final :
      walk.pipeline.crashed ≡ false
      → s.cancelled ≡ false
      → walk.pipeline
        ≡ final
            (replay_parts engine
              (no_op_stats {World = Disk}).record_block_stats
              (record { benchmark_opcodes = false; diff_storage = false })
              node)
            (new_limits first.number (sub64 start_block first.number))
            tt
            (record { previous_replayed_block_hash = first.hash; recorder = tt; world = s.world })
            (actors ts)
  unfolding walk_monitor
  walk-final alive running =
      benchmark_run-final
        (replay_parts engine (no_op_stats {World = Disk}).record_block_stats
          (record { benchmark_opcodes = false; diff_storage = false }) node)
        no_op_stats tt tt first (sub64 start_block first.number) ts s (λ r d. refl) alive running

  walk-returned :
      run_ended walk.pipeline.crashed walk.watch ≡ reached tt
      → walk.pipeline.cancelled ≡ false
      → (walk.pipeline.crashed ≡ false)
        × (walk.watch ≡ completed)
        × (walk.pipeline.submitter ≡ submit_done)
        × (s.cancelled ≡ false)
  unfolding walk_monitor
  walk-returned =
      benchmark_run-returned
        (replay_parts engine (no_op_stats {World = Disk}).record_block_stats
          (record { benchmark_opcodes = false; diff_storage = false }) node)
        no_op_stats tt tt first (sub64 start_block first.number) ts s

  -- When the walk has returned uncancelled, the source's block of the start block's number was made
  -- the head of the node last.
  pub walk-IsLastHead :
      ((n : ℕ) (b : Block Tx Withdrawals) → fetch node n ≡ some b → b.number ≡ n)
      → first.number < start_block
      → start_block + concurrency < u64_mod
      → run_ended walk.pipeline.crashed walk.watch ≡ reached tt
      → walk.pipeline.cancelled ≡ false
      → (b : Block Tx Withdrawals) × (fetch node start_block ≡ some b)
        × IsLastHead engine b walk.pipeline.world.world
  walk-IsLastHead sourced before room returned running =
      let (alive, done, submitted, began) = walk-returned returned running in
      let same = walk-final alive began in
      let (from, to) = new_limits-walk first.number start_block before room in
      let (b, fetched, replayed) =
        walk_up_hash engine (no_op_stats {World = Disk}).record_block_stats
          (record { benchmark_opcodes = false; diff_storage = false }) node
          (new_limits first.number (sub64 start_block first.number))
          (record { previous_replayed_block_hash = first.hash; recorder = tt; world = s.world })
          (actors ts) sourced (omega (arith, from, to)) (omega (arith, to, room))
          (ap (λ p. p.submitter) (sym same) ∙ submitted)
          (ap (λ p. p.cancelled) (sym same) ∙ running) in
      (
        b,
        ap (fetch node) (sym to) ∙ fetched,
        subst (λ p. IsLastHead engine b p.world.world) (sym same) replayed.1,
      )

  pub walk_up-returned :
      (s' : Session Recorder World Disk)
      → first.number < start_block
      → walk_up engine node start_block first ts s ≡ (reached tt, s')
      → (run_ended walk.pipeline.crashed walk.watch ≡ reached tt)
        × (s'.world ≡ walk.pipeline.world.world)
        × (s'.cancelled ≡ walk.pipeline.cancelled)
  unfolding walk_up
  walk_up-returned s' before h = ground arith
