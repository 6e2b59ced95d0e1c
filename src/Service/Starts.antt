-- ===== src/Service/Starts.antt =====
-- What holds when `Start` of packages/replayor/service.go returns nil.
use replayor.Prelude.{
  ap, sym, ◌∙◌, Option, ℕ, ◌≡◌, refl, ◌⊎◌, inl, inr, arith, eq_iff, String, some, none, List, true,
}
use replayor.Exec.{ok, Result-cases}
use replayor.Chain.{Block}
use replayor.Config.{ReplayorConfig}
use replayor.Strategies.Signing.{Wallet}
use replayor.Strategies.Packing.{Draw}
use replayor.Stats.Recorder.{Stats}
use replayor.Benchmark.Batch.{SourceNode}
use replayor.Benchmark.AddBlock.{Engine}
use replayor.Benchmark.Monitor.{Turn}
use replayor.Service.Calls.{Phase, reached, >>=-eq-reached}
use replayor.Service.Walk.{ExecutionNode, Session, read_head, wait_ready, walk_up, check_start}
use replayor.Service.{Loaded, loaded_stress, loaded_replay, load_strategy, run_loaded, close, start}

load_strategy-some :
    (strategy : String) (l : Loaded)
    → load_strategy strategy ≡ some l
    → ((strategy ≡ "stress") × (l ≡ loaded_stress)) ⊎ ((strategy ≡ "replay") × (l ≡ loaded_replay))
unfolding load_strategy
load_strategy-some strategy l h = ground (arith, eq_iff strategy "stress", eq_iff strategy "replay")

module _ {Tx Withdrawals Recorder World Disk : Type 0} where
  pub read_head-eq :
      (exec_node : ExecutionNode (Block Tx Withdrawals) World) (s s' : Session Recorder World Disk)
      (b : Block Tx Withdrawals)
      → read_head exec_node s ≡ (reached b, s')
      → ((exec_node.latest_block s.world).0 ≡ ok b)
        × (s' ≡ record s { world = (exec_node.latest_block s.world).1 })
  unfolding read_head
  read_head-eq exec_node s s' b h = elim (Result-cases (exec_node.latest_block s.world).0) [
    | inl (b', answered) ↦ ground arith
    | inr (e, failed) ↦ ground arith
  ]

  check_start-eq :
      (start_block : ℕ) (b : Block Tx Withdrawals) (s s' : Session Recorder World Disk)
      → check_start start_block b s ≡ (reached tt, s')
      → ((start_block ≡ 0) ⊎ (b.number ≡ start_block)) × (s' ≡ s)
  unfolding check_start
  check_start-eq start_block b s s' h = ground arith

  pub wait_ready-eq :
      (engine : Engine Tx Withdrawals World)
      (exec_node : ExecutionNode (Block Tx Withdrawals) World) (hash : ℕ)
      (s s' : Session Recorder World Disk)
      → wait_ready engine exec_node hash s ≡ (reached tt, s')
      → s' ≡ record s { world = s'.world }
  unfolding wait_ready
  wait_ready-eq engine exec_node hash s s' h = ground arith

  pub walk_up-eq :
      (engine : Engine Tx Withdrawals World) (node : SourceNode (Block Tx Withdrawals))
      (start_block : ℕ) (b : Block Tx Withdrawals) (ts : List (Turn (Block Tx Withdrawals)))
      (s s' : Session Recorder World Disk)
      → walk_up engine node start_block b ts s ≡ (reached tt, s')
      → (s'.recorder ≡ s.recorder) × (s'.globals ≡ s.globals) × (s'.closed ≡ s.closed)
  unfolding walk_up
  walk_up-eq engine node start_block b ts s s' h = ground arith

module _ {Tx Withdrawals Recorder World Disk : Type 0} (engine : Engine Tx Withdrawals World)
    (node : SourceNode (Block Tx Withdrawals)) (wallet : Wallet Tx) (draws : ℕ → List Draw)
    (stats : Stats Recorder Disk) (cfg : ReplayorConfig)
    (exec_node : ExecutionNode (Block Tx Withdrawals) World)
    (walk_turns bench_turns : List (Turn (Block Tx Withdrawals))) where
  -- The way of a `Start` that returned nil: from the head that it read first and the state `walking`
  -- in which it walks up, over the state `walked` after that, to the head `current_block` that it
  -- read then, and the state `running` from which the benchmark ran until `ended`.
  pub record IsStarted (s s' : Session Recorder World Disk) : Type 0 where
    pub first : Block Tx Withdrawals
    pub walking : Session Recorder World Disk
    pub walked : Session Recorder World Disk
    pub current_block : Block Tx Withdrawals
    pub running : Session Recorder World Disk
    pub ended : Session Recorder World Disk
    pub strategy : Loaded
    pub first_read : (exec_node.latest_block s.world).0 ≡ ok first
    pub waited : walking ≡ record s { world = walking.world }
    pub walk_returned :
        walk_up engine node cfg.benchmark_start_block first walk_turns walking
        ≡ (reached tt, walked)
    pub second_read : (exec_node.latest_block walked.world).0 ≡ ok current_block
    pub read : running ≡ record walked { world = (exec_node.latest_block walked.world).1 }
    pub at_start :
        (cfg.benchmark_start_block ≡ 0) ⊎ (current_block.number ≡ cfg.benchmark_start_block)
    pub loaded : load_strategy cfg.strategy ≡ some strategy
    pub run_returned :
        run_loaded engine node wallet draws stats cfg
          (some strategy)
          current_block
          bench_turns
          running
        ≡ (reached tt, ended)
    pub closed : s' ≡ record ended { closed = true }

  -- The benchmark begins with the recorder of the service.
  pub recorder-IsStarted :
      {s s' : Session Recorder World Disk} (h : IsStarted s s') → h.running.recorder ≡ s.recorder
  recorder-IsStarted h =
      ap (λ (x : Session Recorder World Disk). x.recorder) h.read
      ∙ (walk_up-eq engine node cfg.benchmark_start_block h.first walk_turns h.walking h.walked
          h.walk_returned).0
      ∙ ap (λ (x : Session Recorder World Disk). x.recorder) h.waited

  run_loaded-reached :
      (l : Option Loaded) (b : Block Tx Withdrawals) (s s' : Session Recorder World Disk)
      → run_loaded engine node wallet draws stats cfg l b bench_turns s ≡ (reached tt, s')
      → (strategy : Loaded) × (l ≡ some strategy)
        × (run_loaded engine node wallet draws stats cfg (some strategy) b bench_turns s
            ≡ (reached tt, s'))
  unfolding run_loaded
  run_loaded-reached none b s s' h = cc
  run_loaded-reached (some l) b s s' h = (l, refl, h)

  -- When `Start` returns nil, it read a head from the node, walked up, read the head again and found it
  -- to be the start block, if one is configured; the configuration names a strategy, whose benchmark
  -- ran from that block and returned; and then the application was closed.
  pub start-IsStarted :
      (s s' : Session Recorder World Disk)
      → start engine node wallet draws stats cfg exec_node walk_turns bench_turns s
        ≡ (reached tt, s')
      → IsStarted s s'
  unfolding start close
  start-IsStarted s s' h =
      let read = read_head exec_node in
      let (first, s₁, p₁, h₁) = >>=-eq-reached read _ s h in
      let (_, walking, p₂, h₂) = >>=-eq-reached (wait_ready engine exec_node first.hash) _ s₁ h₁ in
      let (_, walked, p₃, h₃) =
        >>=-eq-reached (walk_up engine node cfg.benchmark_start_block first walk_turns) _ walking
          h₂ in
      let (b, s₂, p₄, h₄) = >>=-eq-reached read _ walked h₃ in
      let (_, running, p₅, h₅) = >>=-eq-reached (check_start cfg.benchmark_start_block b) _ s₂ h₄ in
      let (_, ended, p₆, h₆) =
        >>=-eq-reached
          (run_loaded engine node wallet draws stats cfg (load_strategy cfg.strategy) b bench_turns)
          _ running h₅ in
      let (strategy, loaded, returned) =
        run_loaded-reached (load_strategy cfg.strategy) b running ended p₆ in
      let (first_read, before) = read_head-eq exec_node s s₁ first p₁ in
      let (second_read, after) = read_head-eq exec_node walked s₂ b p₄ in
      let (at_start, same) = check_start-eq cfg.benchmark_start_block b s₂ running p₅ in
      record {
        first = first;
        walking = walking;
        walked = walked;
        current_block = b;
        running = running;
        ended = ended;
        strategy = strategy;
        first_read = first_read;
        waited =
            wait_ready-eq engine exec_node first.hash s₁ walking p₂
            ∙ ap (λ (x : Session Recorder World Disk). record x { world = walking.world }) before;
        walk_returned = p₃;
        second_read = second_read;
        read = same ∙ after;
        at_start = at_start;
        loaded = loaded;
        run_returned = returned;
        closed = ap (λ (x : Phase (Unit {0}) × Session Recorder World Disk). x.1) (sym h₆);
      }
