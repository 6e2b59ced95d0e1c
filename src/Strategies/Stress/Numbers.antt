-- ===== src/Strategies/Stress/Numbers.antt =====
-- The parameters that packages/strategies/stress.go makes of a block.
use replayor.Prelude.{ℕ, arith, ◌≡◌, refl, Option, some, List}
use replayor.Exec.{Outcome, done, stopped, continue, pure}
use replayor.Chain.{Block}
use replayor.Config.{ReplayorConfig}
use replayor.Strategies.{BlockCreationParams}
use replayor.Strategies.Signing.{Wallet, Globals}
use replayor.Strategies.Packing.{Draw}
use replayor.Strategies.Stress.{modify_transactions, stress_params, stress_received}

module _ {Tx Withdrawals : Type 0} (wallet : Wallet Tx) (cfg : ReplayorConfig) (start_block_num : ℕ)
    (draws : ℕ → List Draw) where
  -- An answer for a block is never nil, and carries the block's number.
  pub number-stress_received :
      (b : Block Tx Withdrawals) (g : Globals) (r : Option (BlockCreationParams Tx Withdrawals))
      → (stress_received wallet cfg start_block_num draws b g).0 ≡ done r
      → (x : BlockCreationParams Tx Withdrawals) × (r ≡ some x) × (x.number ≡ b.number)
  unfolding stress_received stress_params
  number-stress_received b g r h =
      received (modify_transactions wallet cfg start_block_num draws b b.transactions g) h
    where
      received :
          (m : Outcome (List Tx) × Globals)
          → (continue m.0
              (λ txns. pure (some (stress_params wallet cfg start_block_num draws b txns)))
              m.1).0
            ≡ done r
          → (x : BlockCreationParams Tx Withdrawals) × (r ≡ some x) × (x.number ≡ b.number)
      received (done txns, g') e =
          (stress_params wallet cfg start_block_num draws b txns, ground arith, refl)
      received (stopped c, g') e = cc
