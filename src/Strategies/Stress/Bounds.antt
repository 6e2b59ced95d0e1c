-- ===== src/Strategies/Stress/Bounds.antt =====
-- How much `packItUp` of packages/strategies/stress.go puts into a block.
use replayor.Prelude.{
  ℕ, ◌*◌, ◌≤◌, ◌≡◌, none, some, Option, List, arith, length, str_eq, if◌then◌else◌,
}
use replayor.Exec.{done, >>=-eq-done}
use replayor.Chain.{Block}
use replayor.Config.{ReplayorConfig}
use replayor.Strategies.Signing.{Wallet, Globals}
use replayor.Strategies.Packing.{
  Draw, erc20_gas, eth_gas, last_tx, pack_erc20_transfer, pack_eth_transfer,
}
use replayor.Strategies.Packing.Gas.{
  storage_gas, pack_erc20_transfer-bound, pack_eth_transfer-bound, pack_storage_stressor-bound,
  pack_precompile_targeter-bound,
}
use replayor.Strategies.Stress.{deref, looped, pack_it_up}

-- What one transaction of a test uses.
abbrev pub gas_each : ReplayorConfig → ℕ
gas_each cfg =
    if str_eq cfg.stress_test_type "erc20"
    then erc20_gas
    else if str_eq cfg.stress_test_type "precompile"
    then cfg.gas_target
    else if str_eq cfg.stress_test_type "storage"
    then storage_gas cfg.stress_test_function
    else eth_gas

module _ {Tx : Type 0} where
  pub looped-done :
      (r : Option (List Tx × Globals)) (g g' : Globals) (out : List Tx)
      → looped r g ≡ (done out, g')
      → r ≡ some (out, g')
  looped-done none g g' out h = cc
  looped-done (some (result, g₁)) g g' out h = ground arith

module _ {Tx Withdrawals : Type 0} (wallet : Wallet Tx) (cfg : ReplayorConfig) (start_block_num : ℕ)
    (draws : ℕ → List Draw) where
  -- Whatever can be signed and whatever is drawn, where the packing returns: the transactions of a
  -- block, at the gas that one of the test uses, use at most the gas target.
  pub pack_it_up-bound :
      (input : Block Tx Withdrawals) (g g' : Globals) (out : List Tx)
      → pack_it_up wallet cfg start_block_num draws input g ≡ (done out, g')
      → length out * gas_each cfg ≤ cfg.gas_target
  unfolding pack_it_up
  pack_it_up-bound input g g' out h =
      let (gas_info, g₁, found, packs) = >>=-eq-done (deref (last_tx input.transactions)) _ g h in
      let transfers = pack_eth_transfer wallet cfg (draws input.number) gas_info g₁ in
      ground (
        arith,
        looped-done (pack_erc20_transfer wallet cfg gas_info g₁) g₁ g' out,
        looped-done transfers g₁ g' out,
        pack_erc20_transfer-bound wallet cfg gas_info g₁ (out, g'),
        pack_eth_transfer-bound wallet cfg gas_info (draws input.number) g₁ (out, g'),
        pack_storage_stressor-bound wallet cfg gas_info g₁ g' out,
        pack_precompile_targeter-bound wallet cfg gas_info g₁ g' out,
      )
