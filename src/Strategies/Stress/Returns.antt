-- ===== src/Strategies/Stress/Returns.antt =====
-- When `packItUp` of packages/strategies/stress.go returns, for the configurations that
-- packages/config/config.go accepts.
use replayor.Prelude.{
  ℕ, ◌≡◌, ◌≢◌, refl, ap, sym, ◌∙◌, true, false, ◌⊎◌, inl, inr, some, List, [], ◌∷◌, ◌++◌, arith,
  lookup, str_eq,
}
use replayor.Exec.{done, ok}
use replayor.Chain.{Block}
use replayor.Config.{ReplayorConfig}
use replayor.Config.Accepted.{IsStress}
use replayor.Strategies.Tables.{precompile_signatures, storage_stressor_signatures}
use replayor.Strategies.Signing.{DynamicFeeTx, Wallet, Globals, nonce_at, bump_nonce}
use replayor.Strategies.Packing.{
  Draw, last_tx, target_tx, pack_storage_stressor, pack_precompile_targeter, signed_or_panic,
  storage_calls, storage_loop,
}
use replayor.Strategies.Packing.Erc20.{pack_erc20_transfer_returns}
use replayor.Strategies.Stress.{pack_it_up}

module _ {Tx : Type 0} (wallet : Wallet Tx) (cfg : ReplayorConfig) (sign : DynamicFeeTx → Tx)
    (signs : (t : DynamicFeeTx) → wallet.sign_tx t 0 ≡ ok (sign t)) (gas_info : Tx)
    (g : Globals) where
  pack_precompile_targeter_returns :
      (s : List ℕ)
      → lookup cfg.stress_test_function precompile_signatures ≡ some s
      → (r : List Tx × Globals) × (pack_precompile_targeter wallet cfg gas_info g ≡ (done r.0, r.1))
  unfolding pack_precompile_targeter signed_or_panic
  pack_precompile_targeter_returns s e =
      let t : DynamicFeeTx =
        target_tx wallet cfg gas_info g.test_contract_address s (nonce_at 0 g) in
      ((sign t ∷ [], bump_nonce 0 g), ground (arith, e, signs t))

  pack_storage_stressor_returns :
      (s : List ℕ)
      → lookup cfg.stress_test_function storage_stressor_signatures ≡ some s
      → (r : List Tx × Globals) × (pack_storage_stressor wallet cfg gas_info g ≡ (done r.0, r.1))
  unfolding pack_storage_stressor
  pack_storage_stressor_returns s e =
      let (argument, n) = storage_calls wallet cfg cfg.stress_test_function in
      (storage_loop wallet cfg n gas_info (s ++ argument) ([], g), ground (arith, e))

module _ {Tx Withdrawals : Type 0} (wallet : Wallet Tx) (cfg : ReplayorConfig)
    (sign : DynamicFeeTx → Tx) (signs : (t : DynamicFeeTx) → wallet.sign_tx t 0 ≡ ok (sign t))
    (start_block_num : ℕ) (draws : ℕ → List Draw) (input : Block Tx Withdrawals) (gas_info : Tx)
    (g : Globals) (last : last_tx input.transactions ≡ some gas_info) where
  -- For the stress tests that a configuration may name, with a function where the test calls one,
  -- and a block that has a transaction, packing returns if every transaction can be signed.
  pub pack_it_up_returns :
      IsStress cfg.stress_test_type cfg.stress_test_function
      → (cfg.stress_test_type ≡ "erc20") ⊎ (cfg.stress_test_function ≢ "")
      → (r : List Tx × Globals) × (pack_it_up wallet cfg start_block_num draws input g
          ≡ (done r.0, r.1))
  unfolding pack_it_up
  pack_it_up_returns (inl erc20) named =
      let (r, e) = pack_erc20_transfer_returns wallet cfg gas_info g in
      (r, simp (last, erc20, e) refl)
  pack_it_up_returns (inr (inl (precompile, function))) named = elim function [
    | inr (s, e) ↦
        let (r, k) = pack_precompile_targeter_returns wallet cfg sign signs gas_info g s e in
        (r, simp (last, precompile, k) refl)
    | inl empty ↦ elim named [
      | inr nonempty ↦ absurd (nonempty empty)
      | inl other ↦
          let clash : true ≡ false = ap (λ t. str_eq t "erc20") (sym other ∙ precompile) in cc
    ]
  ]
  pack_it_up_returns (inr (inr (storage, function))) named = elim function [
    | inr (s, e) ↦
        let (r, k) = pack_storage_stressor_returns wallet cfg sign signs gas_info g s e in
        (r, simp (last, storage, k) refl)
    | inl empty ↦ elim named [
      | inr nonempty ↦ absurd (nonempty empty)
      | inl other ↦
          let clash : true ≡ false = ap (λ t. str_eq t "erc20") (sym other ∙ storage) in cc
    ]
  ]
