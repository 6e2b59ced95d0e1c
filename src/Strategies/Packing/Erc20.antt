-- ===== src/Strategies/Packing/Erc20.antt =====
-- How many transfers `packErc20Transfer` of packages/strategies/stress.go makes, and their nonces.
use replayor.Prelude.{
  ℕ, zero, suc, ◌+◌, ◌-◌, ◌*◌, ◌/◌, ◌%◌, ◌^◌, ◌≤◌, ◌<◌, ◌≡◌, true, false, inl, inr, some, List, [],
  ◌∷◌, ◌++◌, map, arith, append_assoc, append-nil, count_up, u64_mod, ltb, Bool-cases,
}
use replayor.Exec.{ok}
use replayor.Config.{ReplayorConfig}
use replayor.Strategies.Signing.{DynamicFeeTx, Wallet, Globals, nonce_at}
use replayor.Strategies.Packing.{
  not_positive, erc20_gas, erc20_tx, keep_signed, erc20_loop, pack_erc20_transfer,
}

module _ {Tx : Type 0} (wallet : Wallet Tx) (cfg : ReplayorConfig) (gas_info : Tx) where
  erc20_loop_returns :
      (fuel remaining : ℕ) (made : List Tx × Globals)
      → remaining < fuel * erc20_gas
      → (r : List Tx × Globals) × (erc20_loop wallet cfg fuel gas_info remaining made ≡ some r)
  unfolding erc20_loop
  erc20_loop_returns zero remaining made enough = absurd (omega arith)
  erc20_loop_returns (suc fuel) remaining (result, g) enough =
      elim (Bool-cases (ltb remaining erc20_gas)) [
        | inl e ↦ ((result, g), ground arith)
        | inr e ↦
            let (r, k) =
              erc20_loop_returns fuel (remaining - erc20_gas)
                (keep_signed 0
                  (wallet.sign_tx
                    (erc20_tx wallet cfg gas_info g.test_contract_address (nonce_at 0 g)) 0)
                  (result, g))
                (ground arith) in
            (r, ground arith)
      ]

  -- Whatever fails to be signed, the loop ends: the fuel is enough.
  pub pack_erc20_transfer_returns :
      (g : Globals) → (r : List Tx × Globals) × (pack_erc20_transfer wallet cfg gas_info g ≡ some r)
  unfolding pack_erc20_transfer
  pack_erc20_transfer_returns g =
      let (r, k) =
        erc20_loop_returns (cfg.gas_target / erc20_gas + 1) cfg.gas_target ([], g) (omega arith) in
      elim (Bool-cases (not_positive cfg.gas_target)) [
        | inl e ↦ (([], g), ground arith)
        | inr e ↦ (r, ground arith)
      ]

  module _ (sign : DynamicFeeTx → Tx)
      (signs : (t : DynamicFeeTx) → wallet.sign_tx t 0 ≡ ok (sign t)) (contract : ℕ)
      (others : List ℕ) where
    -- The transfer of a nonce.
    abbrev pub transfer : ℕ → Tx
    transfer nonce = sign (erc20_tx wallet cfg gas_info contract nonce)

    abbrev pub from_nonce : ℕ → Globals
    from_nonce nonce = record { nonces = nonce ∷ others; test_contract_address = contract }

    erc20_loop-eq :
        (n fuel remaining nonce : ℕ) (result : List Tx)
        → n < fuel
        → n * erc20_gas ≤ remaining
        → remaining < (n + 1) * erc20_gas
        → nonce + n < u64_mod
        → erc20_loop wallet cfg fuel gas_info remaining (result, from_nonce nonce)
          ≡ some (result ++ map transfer (count_up nonce n), from_nonce (nonce + n))
    unfolding erc20_loop keep_signed
    erc20_loop-eq n zero remaining nonce result enough lo hi fits = absurd (omega arith)
    erc20_loop-eq zero (suc fuel) remaining nonce result enough lo hi fits =
        let same : nonce + 0 ≡ nonce = omega arith in
        let small : ltb remaining erc20_gas ≡ true = ground arith in
        ground (arith, append-nil result)
    erc20_loop-eq (suc n) (suc fuel) remaining nonce result enough lo hi fits =
        let large : ltb remaining erc20_gas ≡ false = ground arith in
        let shift : nonce + 1 + n ≡ nonce + suc n = omega arith in
        let next : (nonce + 1) % u64_mod ≡ nonce + 1 = omega arith in
        let ih =
          erc20_loop-eq n fuel (remaining - erc20_gas) (nonce + 1) (result ++ transfer nonce ∷ [])
            (omega arith) (omega arith) (omega arith) (omega arith) in
        ground (
          arith,
          signs (erc20_tx wallet cfg gas_info contract nonce),
          rw (shift, append_assoc) at ih,
        )

    -- Where every transfer can be signed, the gas target is positive as an `int64` and no nonce wraps,
    -- the block is filled with as many transfers as fit into the gas target, of consecutive nonces
    -- from the sender's next one on, which is then the one after them.
    pub pack_erc20_transfer_lem :
        (nonce : ℕ)
        → 0 < cfg.gas_target
        → cfg.gas_target < 2 ^ 63
        → nonce + cfg.gas_target / erc20_gas < u64_mod
        → pack_erc20_transfer wallet cfg gas_info (from_nonce nonce)
          ≡ some (
            map transfer (count_up nonce (cfg.gas_target / erc20_gas)),
            from_nonce (nonce + cfg.gas_target / erc20_gas),
          )
    unfolding pack_erc20_transfer
    pack_erc20_transfer_lem nonce positive small fits =
        let fills =
          erc20_loop-eq (cfg.gas_target / erc20_gas) (cfg.gas_target / erc20_gas + 1) cfg.gas_target
            nonce [] (omega arith) (omega arith) (omega arith) fits in
        let target : not_positive cfg.gas_target ≡ false = ground arith in ground (arith, fills)
