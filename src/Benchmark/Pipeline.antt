-- ===== src/Benchmark/Pipeline.antt =====
-- packages/replayor/benchmark.go: the goroutines `loadBlocks`, `mapBlocks` and `submitBlocks` over
-- the channels `incomingBlocks` and `processBlocks`. A schedule is a list of actors, each of which
-- takes one step, or none where it blocks.
pub mod Ends
pub mod Delivery
pub mod Flow
pub mod Numbers
pub mod Awake
pub mod Simulation
pub mod Idle
pub mod Cancelled
pub mod Progress
pub mod Remaining
pub mod Bounded
pub mod Completion
pub mod Returns
pub mod Submits
use replayor.Prelude.{
  ℕ, ◌+◌, Bool, true, false, Option, none, some, List, [], ◌∷◌, ◌++◌, ltb, leb, if◌then◌else◌,
  length, add64, sub64,
}
use replayor.Exec.{Exec, Outcome, done, stopped}
use replayor.Benchmark.Batch.{SourceNode, concurrency, load_batch, all_finished}

-- The capacity of both channels.
abbrev pub capacity : ℕ
capacity = 25

-- The numbers that `NewBenchmark` computes from the current block's.
pub record Limits : Type 0 where
  pub start_block_num : ℕ
  pub end_block_num : ℕ
  pub remaining_block_count : ℕ

unfoldable pub new_limits : ℕ → ℕ → Limits
new_limits current_block benchmark_block_count = record {
  start_block_num = add64 current_block 1;
  end_block_num = add64 current_block benchmark_block_count;
  remaining_block_count = benchmark_block_count;
}

-- What the goroutines call: the source node, the strategy's `BlockReceived`, which answers nil or
-- the parameters of a block, and `addBlock`, each over its own state.
pub record Parts (Block Params Strategy World : Type 0) : Type 0 where
  pub source : SourceNode Block
  pub number : Params → ℕ
  pub block_received : Block → Exec Strategy (Option Params)
  pub add_block : Params → Exec World (Unit {0})

-- Where `loadBlocks` stands: at the head of its loop, sending a batch, or returned.
pub data Loader (Block : Type 0) : Type 0 where
  ranging : ℕ → Loader Block
  pushing : List (Option Block) → ℕ → Loader Block
  load_done : Loader Block

-- Where `mapBlocks` stands: in its `select`, sending to `processBlocks`, or returned.
pub data Mapper (Params : Type 0) : Type 0 where
  mapping : Mapper Params
  emitting : Params → Mapper Params
  map_done : Mapper Params

-- Where `submitBlocks` stands: in its `select`, or returned.
pub data Submitter : Type 0 where
  submitting : Submitter
  submit_done : Submitter

-- `submitted` are the parameters handed to `addBlock` by calls that returned, `rejected` those that
-- ended the loop of `submitBlocks`; no code reads them. After a panic or `Crit` the process is gone.
pub record Pipeline (Block Params Strategy World : Type 0) : Type 0 where
  pub loader : Loader Block
  pub incoming : List (Option Block)
  pub incoming_closed : Bool
  pub mapper : Mapper Params
  pub strategy : Strategy
  pub process : List Params
  pub process_closed : Bool
  pub submitter : Submitter
  pub submitted : List Params
  pub rejected : List Params
  pub remaining_block_count : ℕ
  pub world : World
  pub cancelled : Bool
  pub crashed : Bool

-- Who moves: a goroutine, one of the two `ctx.Done()` branches, or the owner of the context. A batch
-- comes with the order in which its goroutines finish.
pub data Actor : Type 0 where
  load : List ℕ → Actor
  map_next : Actor
  map_cancel : Actor
  submit_next : Actor
  submit_cancel : Actor
  cancel : Actor

module _ {Block Params Strategy World : Type 0} where
  unfoldable pub init_pipeline : Limits → Strategy → World → Pipeline Block Params Strategy World
  init_pipeline limits strategy world = record {
    loader = ranging limits.start_block_num;
    incoming = [];
    incoming_closed = false;
    mapper = mapping;
    strategy = strategy;
    process = [];
    process_closed = false;
    submitter = submitting;
    submitted = [];
    rejected = [];
    remaining_block_count = limits.remaining_block_count;
    world = world;
    cancelled = false;
    crashed = false;
  }

module _ {Block Params Strategy World : Type 0} (parts : Parts Block Params Strategy World)
    (end_block_num : ℕ) where
  abbrev pub State : Type 0
  State = Pipeline Block Params Strategy World

  unfoldable pub crash : State → State
  crash p = record p { crashed = true }

  -- `loadBlocks`
  pub batch_loaded : ℕ → Option (List (Option Block)) → State → State
  unfolding crash
  batch_loaded s none p = crash p
  batch_loaded s (some results) p = record p { loader = pushing results (add64 s concurrency) }

  unfoldable pub load_step : List ℕ → Loader Block → State → State
  unfolding batch_loaded
  load_step order (ranging s) p =
      if leb s end_block_num
      then (if all_finished order then batch_loaded s (load_batch parts.source s order) p else p)
      else record p { loader = load_done; incoming_closed = true }
  load_step order (pushing [] s) p = record p { loader = ranging s }
  load_step order (pushing (block ∷ results) s) p =
      if ltb (length p.incoming) capacity
      then record p { loader = pushing results s; incoming = p.incoming ++ block ∷ [] }
      else p
  load_step order load_done p = p

  -- `mapBlocks`
  pub block_mapped : Outcome (Option Params) → Strategy → List (Option Block) → State → State
  unfolding crash
  block_mapped (stopped c) strategy rest p = crash p
  block_mapped (done none) strategy rest p = record p { incoming = rest; strategy = strategy }
  block_mapped (done (some params)) strategy rest p = record p {
    incoming = rest;
    strategy = strategy;
    mapper = emitting params;
  }

  pub receive_incoming : List (Option Block) → State → State
  unfolding block_mapped
  receive_incoming [] p =
      if p.incoming_closed then record p { process_closed = true; mapper = map_done } else p
  receive_incoming (none ∷ rest) p = record p { incoming = rest }
  receive_incoming (some b ∷ rest) p =
      block_mapped (parts.block_received b p.strategy).0 (parts.block_received b p.strategy).1 rest
        p

  unfoldable pub map_step : Mapper Params → State → State
  unfolding receive_incoming
  map_step mapping p = receive_incoming p.incoming p
  map_step (emitting params) p =
      if ltb (length p.process) capacity
      then record p { process = p.process ++ params ∷ []; mapper = mapping }
      else p
  map_step map_done p = p

  unfoldable pub map_cancel_step : Mapper Params → State → State
  map_cancel_step mapping p = if p.cancelled then record p { mapper = map_done } else p
  map_cancel_step (emitting params) p = p
  map_cancel_step map_done p = p

  -- `submitBlocks`
  pub block_added : Outcome (Unit {0}) → World → Params → List Params → State → State
  unfolding crash
  block_added (stopped c) world block rest p = crash p
  block_added (done _) world block rest p = record p {
    process = rest;
    world = world;
    submitted = p.submitted ++ block ∷ [];
    remaining_block_count = sub64 p.remaining_block_count 1;
  }

  pub receive_process : List Params → State → State
  unfolding block_added
  receive_process [] p = if p.process_closed then record p { submitter = submit_done } else p
  receive_process (block ∷ rest) p =
      if ltb end_block_num (parts.number block)
      then record p { process = rest; submitter = submit_done; rejected = block ∷ [] }
      else block_added (parts.add_block block p.world).0 (parts.add_block block p.world).1 block
          rest p

  unfoldable pub submit_step : Submitter → State → State
  unfolding receive_process
  submit_step submitting p = receive_process p.process p
  submit_step submit_done p = p

  unfoldable pub submit_cancel_step : Submitter → State → State
  submit_cancel_step submitting p = if p.cancelled then record p { submitter = submit_done } else p
  submit_cancel_step submit_done p = p

  unfoldable pub act : Actor → State → State
  unfolding load_step map_step map_cancel_step submit_step submit_cancel_step
  act (load order) p = load_step order p.loader p
  act map_next p = map_step p.mapper p
  act map_cancel p = map_cancel_step p.mapper p
  act submit_next p = submit_step p.submitter p
  act submit_cancel p = submit_cancel_step p.submitter p
  act cancel p = record p { cancelled = true }

  unfoldable pub step : Actor → State → State
  unfolding act
  step a p = if p.crashed then p else act a p

  unfoldable pub run : List Actor → State → State
  unfolding step
  run [] p = p
  run (a ∷ schedule) p = run schedule (step a p)
