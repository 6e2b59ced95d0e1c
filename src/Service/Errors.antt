-- ===== src/Service/Errors.antt =====
-- How `Start` of packages/replayor/service.go fails.
use replayor.Prelude.{
  Bool, true, false, ap, ℕ, ◌≡◌, refl, ◌∙◌, inl, inr, arith, eq_iff, String, Option, some, none,
  List,
}
use replayor.Exec.{ok, Result-cases}
use replayor.Chain.{Block}
use replayor.Config.{ReplayorConfig}
use replayor.Strategies.Signing.{Wallet}
use replayor.Strategies.Packing.{Draw}
use replayor.Stats.Recorder.{Stats}
use replayor.Benchmark.Batch.{SourceNode}
use replayor.Benchmark.AddBlock.{Engine}
use replayor.Benchmark.Monitor.{Turn, Watching, watching, completed, interrupted}
use replayor.Service.Calls.{
  Phase, Starting, reached, failed, >>=-eq-failed, ◌>>=◌, ◌>>◌, Keeps, Keeps->>=,
}
use replayor.Service.Walk.{
  ExecutionNode, Session, run_ended, read_head, wait_ready, walk_up, check_start, walk_monitor,
}
use replayor.Service.Starts.{start-IsStarted, read_head-eq, wait_ready-eq, walk_up-eq}
use replayor.Service.{
  Loaded, loaded_stress, loaded_replay, load_strategy, stress_monitor, replay_monitor, run_loaded,
  close, start,
}

load_strategy-none :
    (strategy : String)
    → ¬ (strategy ≡ "stress")
    → ¬ (strategy ≡ "replay")
    → load_strategy strategy ≡ none
unfolding load_strategy
load_strategy-none strategy h k = ground (arith, eq_iff strategy "stress", eq_iff strategy "replay")

module _ {Tx Withdrawals Recorder World Disk : Type 0} (engine : Engine Tx Withdrawals World)
    (node : SourceNode (Block Tx Withdrawals)) (wallet : Wallet Tx) (draws : ℕ → List Draw)
    (stats : Stats Recorder Disk) (cfg : ReplayorConfig)
    (exec_node : ExecutionNode (Block Tx Withdrawals) World)
    (walk_turns bench_turns : List (Turn (Block Tx Withdrawals))) where
  -- Nothing is recorded, no account is used and the application is not closed.
  abbrev pub IsUntouched : Session Recorder World Disk → Session Recorder World Disk → Type 0
  IsUntouched s s' = (s'.recorder ≡ s.recorder) × (s'.globals ≡ s.globals) × (s'.closed ≡ s.closed)

  read_head-Keeps :
      (s₀ : Session Recorder World Disk)
      → Keeps (IsUntouched s₀) (read_head {Tx = Tx} {Withdrawals = Withdrawals} exec_node)
  unfolding read_head
  read_head-Keeps s₀ = record { keeps = λ s h. h }

  wait_ready-Keeps :
      (hash : ℕ) (s₀ : Session Recorder World Disk)
      → Keeps (IsUntouched s₀) (wait_ready engine exec_node hash)
  unfolding wait_ready
  wait_ready-Keeps hash s₀ = record { keeps = λ s h. h }

  walk_up-Keeps :
      (b : Block Tx Withdrawals) (s₀ : Session Recorder World Disk)
      → Keeps (IsUntouched s₀) (walk_up engine node cfg.benchmark_start_block b walk_turns)
  unfolding walk_up
  walk_up-Keeps b s₀ = record { keeps = λ s h. ground arith }

  check_start-Keeps :
      (b : Block Tx Withdrawals) (s₀ : Session Recorder World Disk)
      → Keeps (IsUntouched s₀) (check_start cfg.benchmark_start_block b)
  unfolding check_start
  check_start-Keeps b s₀ = record { keeps = λ s h. ground arith }

  start-Keeps :
      (s₀ : Session Recorder World Disk)
      → load_strategy cfg.strategy ≡ none
      → Keeps
          (IsUntouched s₀)
          (start engine node wallet draws stats cfg exec_node walk_turns bench_turns)
  unfolding start run_loaded
  start-Keeps s₀ unknown = rw unknown (
      Keeps->>= (IsUntouched s₀) _ _ (read_head-Keeps s₀) λ first.
        Keeps->>= (IsUntouched s₀) _ _ (wait_ready-Keeps first.hash s₀) λ _.
          Keeps->>= (IsUntouched s₀) _ _ (walk_up-Keeps first s₀) λ _.
            Keeps->>= (IsUntouched s₀) _ _ (read_head-Keeps s₀) λ b.
              Keeps->>= (IsUntouched s₀) _ _ (check_start-Keeps b s₀)
                λ _. record { keeps = λ s h. h })

  -- With a strategy that is neither of the two, `Start` never returns nil: whatever else happens,
  -- nothing is recorded, no account of the stress test is used and the application is not closed.
  pub start-unknown_strategy :
      ¬ (cfg.strategy ≡ "stress")
      → ¬ (cfg.strategy ≡ "replay")
      → (s : Session Recorder World Disk)
      → ¬ (
          (start engine node wallet draws stats cfg exec_node walk_turns bench_turns s).0
          ≡ reached tt)
        × IsUntouched s
            (start engine node wallet draws stats cfg exec_node walk_turns bench_turns s).1
  start-unknown_strategy h k s =
      let unknown = load_strategy-none cfg.strategy h k in
      let reach : Starting (Session Recorder World Disk) (Unit {0}) =
        start engine node wallet draws stats cfg exec_node walk_turns bench_turns in
      (
        λ e.
            (let started =
                start-IsStarted engine node wallet draws stats cfg exec_node walk_turns bench_turns
                  s (reach s).1 (ap (λ r. (r, (reach s).1)) e) in
              let found = started.loaded in cc),
        (start-Keeps s unknown).keeps s (refl, refl, refl),
      )

  read_head-failed :
      (s s' : Session Recorder World Disk) (e : String)
      → ¬ (read_head {Tx = Tx} {Withdrawals = Withdrawals} exec_node s ≡ (failed e, s'))
  unfolding read_head
  read_head-failed s s' e h = elim (Result-cases (exec_node.latest_block s.world).0) [
    | inl (b, answered) ↦ ground arith
    | inr (e', failing) ↦ ground arith
  ]

  run_ended-failed :
      (crashed : Bool) (w : Watching) (e : String) → ¬ (run_ended crashed w ≡ failed e)
  unfolding run_ended
  run_ended-failed true w e h = cc
  run_ended-failed false watching e h = cc
  run_ended-failed false completed e h = cc
  run_ended-failed false interrupted e h = cc

  walk_up-failed :
      (b : Block Tx Withdrawals) (s s' : Session Recorder World Disk) (e : String)
      → ¬ (walk_up engine node cfg.benchmark_start_block b walk_turns s ≡ (failed e, s'))
  unfolding walk_up
  walk_up-failed b s s' e h =
      let m = walk_monitor engine node cfg.benchmark_start_block b walk_turns s in
      ground (arith, run_ended-failed m.pipeline.crashed m.watch e)

  run_loaded-failed :
      (l : Option Loaded) (b : Block Tx Withdrawals) (s s' : Session Recorder World Disk)
      (e : String)
      → ¬ (run_loaded engine node wallet draws stats cfg l b bench_turns s ≡ (failed e, s'))
  unfolding run_loaded
  run_loaded-failed none b s s' e h = cc
  run_loaded-failed (some loaded_stress) b s s' e h =
      let m = stress_monitor engine node wallet draws stats cfg b bench_turns s in
      run_ended-failed m.pipeline.crashed m.watch e
        (ap (λ (r : Phase (Unit {0}) × Session Recorder World Disk). r.0) h)
  run_loaded-failed (some loaded_replay) b s s' e h =
      let m = replay_monitor engine node wallet draws stats cfg b bench_turns s in
      run_ended-failed m.pipeline.crashed m.watch e
        (ap (λ (r : Phase (Unit {0}) × Session Recorder World Disk). r.0) h)

  check_start-failed :
      (b : Block Tx Withdrawals) (s s' : Session Recorder World Disk) (e : String)
      → check_start cfg.benchmark_start_block b s ≡ (failed e, s')
      → (e ≡ "current block is not equal to benchmark start block")
        × ¬ (cfg.benchmark_start_block ≡ 0)
        × ¬ (b.number ≡ cfg.benchmark_start_block)
        × (s' ≡ s)
  unfolding check_start
  check_start-failed b s s' e h = ground arith

  IsUntouched-trans :
      (s s' s'' : Session Recorder World Disk)
      → IsUntouched s s'
      → IsUntouched s' s''
      → IsUntouched s s''
  IsUntouched-trans s s' s'' (h, k, l) (h', k', l') = (h' ∙ h, k' ∙ k, l' ∙ l)

  world-IsUntouched :
      (s s' : Session Recorder World Disk) (w : World)
      → s' ≡ record s { world = w }
      → IsUntouched s s'
  world-IsUntouched s s' w h = simp h (refl, refl, refl)

  wait_ready-failed :
      (hash : ℕ) (s s' : Session Recorder World Disk) (e : String)
      → ¬ (wait_ready engine exec_node hash s ≡ (failed e, s'))
  unfolding wait_ready
  wait_ready-failed hash s s' e h = cc

  -- What is left of an error where the node was read last in a state.
  abbrev pub IsMismatch :
      Session Recorder World Disk → Session Recorder World Disk → String → Type 0
  IsMismatch s s' e =
      (e ≡ "current block is not equal to benchmark start block")
      × ¬ (cfg.benchmark_start_block ≡ 0)
      × (b : Block Tx Withdrawals) × (w : World) × ((exec_node.latest_block w).0 ≡ ok b)
      × (s'.world ≡ (exec_node.latest_block w).1)
      × ¬ (b.number ≡ cfg.benchmark_start_block)
      × IsUntouched s s'

  walked-IsMismatch :
      (walked s' : Session Recorder World Disk) (e : String)
      → (read_head exec_node >>= λ b.
            check_start cfg.benchmark_start_block b
            >> (run_loaded engine node wallet draws stats cfg
                  (load_strategy cfg.strategy)
                  b
                  bench_turns
                >> close))
          walked
        ≡ (failed e, s')
      → IsMismatch walked s' e
  unfolding close
  walked-IsMismatch walked s' e h = elim (>>=-eq-failed (read_head exec_node) _ walked h) [
    | inl r ↦ absurd (read_head-failed walked s' e r)
    | inr (b, s₂, p₄, h₄) ↦ elim (>>=-eq-failed (check_start cfg.benchmark_start_block b) _ s₂ h₄) [
      | inl r ↦
          let (answered, after) = read_head-eq exec_node walked s₂ b p₄ in
          let (what, configured, other, same) = check_start-failed b s₂ s' e r in
          let ends = same ∙ after in
          (
            what,
            configured,
            b,
            walked.world,
            answered,
            ap (λ (x : Session Recorder World Disk). x.world) ends,
            other,
            world-IsUntouched walked s' (exec_node.latest_block walked.world).1 ends,
          )
      | inr (_, running, p₅, h₅) ↦
          elim (>>=-eq-failed
            (run_loaded engine node wallet draws stats cfg (load_strategy cfg.strategy) b
              bench_turns)
            _ running h₅) [
              | inl r ↦ absurd (run_loaded-failed (load_strategy cfg.strategy) b running s' e r)
              | inr (_, ended, p₆, h₆) ↦ cc
            ]
    ]
  ]

  -- When `Start` returns an error, it is the one that the current block is not the start block: a
  -- start block is configured, the node answered with a block of another number when `Start` last
  -- read it, and nothing is recorded, no account is used and the application is not closed.
  pub start_error_lem :
      (s s' : Session Recorder World Disk) (e : String)
      → start engine node wallet draws stats cfg exec_node walk_turns bench_turns s ≡ (failed e, s')
      → IsMismatch s s' e
  unfolding start
  start_error_lem s s' e h = elim (>>=-eq-failed (read_head exec_node) _ s h) [
    | inl r ↦ absurd (read_head-failed s s' e r)
    | inr (first, s₁, p₁, h₁) ↦
        elim (>>=-eq-failed (wait_ready engine exec_node first.hash) _ s₁ h₁) [
          | inl r ↦ absurd (wait_ready-failed first.hash s₁ s' e r)
          | inr (_, walking, p₂, h₂) ↦
              elim (>>=-eq-failed (walk_up engine node cfg.benchmark_start_block first walk_turns) _
                walking h₂) [
                  | inl r ↦ absurd (walk_up-failed first walking s' e r)
                  | inr (_, walked, p₃, h₃) ↦
                      let (what, configured, b, w, answered, world, other, kept) =
                        walked-IsMismatch walked s' e h₃ in
                      (
                        what,
                        configured,
                        b,
                        w,
                        answered,
                        world,
                        other,
                        IsUntouched-trans s s₁ s'
                            (world-IsUntouched s s₁ (exec_node.latest_block s.world).1
                              (read_head-eq exec_node s s₁ first p₁).1)
                            (IsUntouched-trans s₁ walking s'
                              (world-IsUntouched s₁ walking walking.world
                                (wait_ready-eq engine exec_node first.hash s₁ walking p₂))
                              (IsUntouched-trans walking walked s'
                                (walk_up-eq engine node cfg.benchmark_start_block first walk_turns
                                  walking walked p₃)
                                kept)),
                      )
                ]
        ]
  ]
