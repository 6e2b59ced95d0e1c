-- ===== src/Service/OnChain.antt =====
-- The block from which the benchmark of `Start` in packages/replayor/service.go begins.
use mathlib.Core.Path.{subst}
use replayor.Prelude.{ℕ, ◌+◌, ◌<◌, u64_mod, false, ◌≡◌, ap, sym, ◌∙◌, some, List}
use replayor.Exec.{ok}
use replayor.Chain.{Block}
use replayor.Config.{ReplayorConfig}
use replayor.Strategies.Signing.{Wallet}
use replayor.Strategies.Packing.{Draw}
use replayor.Stats.Recorder.{Stats}
use replayor.Benchmark.Batch.{SourceNode, concurrency, fetch}
use replayor.Benchmark.AddBlock.{Engine}
use replayor.Benchmark.Monitor.{Turn}
use replayor.Service.Calls.{Phase, reached}
use replayor.Service.Walk.{ExecutionNode, Session}
use replayor.Service.Walked.{benchmark_run-returned, IsLastHead, walk-IsLastHead, walk_up-returned}
use replayor.Service.Starts.{IsStarted, start-IsStarted}
use replayor.Benchmark.Replayed.{replay_parts}
use replayor.Benchmark.Stressed.{stress_parts}
use replayor.Service.{
  Loaded, loaded_stress, loaded_replay, options_of, stress_monitor, replay_monitor, run_loaded,
  start,
}

module _ {Tx Withdrawals Recorder World Disk : Type 0} (engine : Engine Tx Withdrawals World)
    (node : SourceNode (Block Tx Withdrawals)) (wallet : Wallet Tx) (draws : ℕ → List Draw)
    (stats : Stats Recorder Disk) (cfg : ReplayorConfig)
    (exec_node : ExecutionNode (Block Tx Withdrawals) World)
    (walk_turns bench_turns : List (Turn (Block Tx Withdrawals))) where
  started-IsLastHead :
      {s s' : Session Recorder World Disk}
      (h : IsStarted engine node wallet draws stats cfg exec_node walk_turns bench_turns s s')
      → ((n : ℕ) (b : Block Tx Withdrawals) → fetch node n ≡ some b → b.number ≡ n)
      → h.first.number < cfg.benchmark_start_block
      → cfg.benchmark_start_block + concurrency < u64_mod
      → h.running.cancelled ≡ false
      → (b : Block Tx Withdrawals) × (fetch node cfg.benchmark_start_block ≡ some b)
        × IsLastHead engine b h.walked.world
  started-IsLastHead h sourced before room running =
      let (returned, world, cancelled) =
        walk_up-returned engine node cfg.benchmark_start_block h.first walk_turns h.walking h.walked
          before h.walk_returned in
      let (b, fetched, last) =
        walk-IsLastHead engine node cfg.benchmark_start_block h.first walk_turns h.walking sourced
          before room returned
          (sym cancelled
            ∙ ap (λ (x : Session Recorder World Disk). x.cancelled) (sym h.read)
            ∙ running) in
      (b, fetched, subst (IsLastHead engine b) (sym world) last)

  -- A benchmark that has returned uncancelled began uncancelled.
  loaded-began :
      (l : Loaded) (b : Block Tx Withdrawals) (s s' : Session Recorder World Disk)
      → run_loaded engine node wallet draws stats cfg (some l) b bench_turns s ≡ (reached tt, s')
      → s'.cancelled ≡ false
      → s.cancelled ≡ false
  unfolding run_loaded stress_monitor replay_monitor
  loaded-began loaded_stress b s s' h running =
      (benchmark_run-returned
        (stress_parts engine stats.record_block_stats (options_of cfg) node wallet cfg b.number
          draws)
        stats s.globals s.recorder b cfg.block_count bench_turns s
        (ap (λ (r : Phase (Unit {0}) × Session Recorder World Disk). r.0) h)
        (ap (λ (r : Phase (Unit {0}) × Session Recorder World Disk). r.1.cancelled) h ∙ running)).3
  loaded-began loaded_replay b s s' h running =
      (benchmark_run-returned (replay_parts engine stats.record_block_stats (options_of cfg) node)
        stats tt s.recorder b cfg.block_count bench_turns s
        (ap (λ (r : Phase (Unit {0}) × Session Recorder World Disk). r.0) h)
        (ap (λ (r : Phase (Unit {0}) × Session Recorder World Disk). r.1.cancelled) h ∙ running)).3

  -- For a source that serves under a number the block of that number, a start block 25 below 2 ^ 64,
  -- and a node whose latest block is that block of the source whose hash was made its head last: where
  -- the node's block is before the start block at first, and `Start` returns nil without a
  -- cancellation, the benchmark began on the block that the source serves under the start block's
  -- number.
  pub start_on_chain :
      (first : Block Tx Withdrawals) (s s' : Session Recorder World Disk)
      → ((n : ℕ) (b : Block Tx Withdrawals) → fetch node n ≡ some b → b.number ≡ n)
      → ((n : ℕ) (b : Block Tx Withdrawals) (w : World)
          → fetch node n ≡ some b
          → IsLastHead engine b w
          → (exec_node.latest_block w).0 ≡ ok b)
      → (exec_node.latest_block s.world).0 ≡ ok first
      → first.number < cfg.benchmark_start_block
      → cfg.benchmark_start_block + concurrency < u64_mod
      → start engine node wallet draws stats cfg exec_node walk_turns bench_turns s
        ≡ (reached tt, s')
      → s'.cancelled ≡ false
      → (h : IsStarted engine node wallet draws stats cfg exec_node walk_turns bench_turns s s')
        × (fetch node cfg.benchmark_start_block ≡ some h.current_block)
  start_on_chain first s s' sourced follows at_first before room returned running =
      let h =
        start-IsStarted engine node wallet draws stats cfg exec_node walk_turns bench_turns s s'
          returned in
      let began =
        loaded-began h.strategy h.current_block h.running h.ended h.run_returned
          (ap (λ (x : Session Recorder World Disk). x.cancelled) (sym h.closed) ∙ running) in
      let read_first : h.first ≡ first = let r = sym h.first_read ∙ at_first in cc in
      let (b, fetched, last) =
        started-IsLastHead h sourced
          (subst (λ (x : Block Tx Withdrawals). x.number < cfg.benchmark_start_block)
            (sym read_first) before)
          room began in
      let read =
        sym h.second_read ∙ follows cfg.benchmark_start_block b h.walked.world fetched last in
      let same : b ≡ h.current_block = cc in (h, fetched ∙ ap (λ x. some x) same)
