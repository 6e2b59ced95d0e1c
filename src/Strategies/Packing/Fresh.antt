-- ===== src/Strategies/Packing/Fresh.antt =====
-- The nonces that the packing loops of packages/strategies/stress.go use, whatever can be signed.
use mathlib.Core.Path.{subst}
use replayor.Prelude.{
  ℕ, zero, suc, ◌+◌, ◌-◌, ◌*◌, ◌/◌, ◌≤◌, ◌<◌, ◌≡◌, refl, some, inl, inr, String, List, [], ◌∷◌,
  ◌++◌, All, arith, length, u64_mod, ltb, lookup, Bool-cases, Option-cases,
}
use replayor.Exec.{done, ok, Result-cases}
use replayor.Config.{ReplayorConfig}
use replayor.Strategies.Tables.{precompile_signatures, storage_stressor_signatures}
use replayor.Strategies.Signing.{DynamicFeeTx, Wallet, Globals, num_addresses, nonce_at, bump_nonce}
use replayor.Strategies.Nonces.{
  Use, Fresh, Fresh-refl, Fresh-more, bump-Fresh, use-Fresh, Signs, signed_by, signed_by-append,
  signed_by-one,
}
use replayor.Strategies.Packing.{
  Draw, not_positive, erc20_gas, eth_gas, erc20_tx, target_tx, eth_tx, drawn, keep_signed,
  keep_result, erc20_loop, pack_erc20_transfer, eth_loop, pack_eth_transfer, storage_calls,
  storage_loop, pack_storage_stressor, signed_or_panic, pack_precompile_targeter,
}

module _ {Tx : Type 0} (wallet : Wallet Tx) (cfg : ReplayorConfig) where
  -- Every account drawn is one of the test's.
  abbrev pub AreAccounts : List Draw → Type 0
  AreAccounts draws =
      All
        (λ (draw : Draw).
          (from to : ℕ) → drawn wallet cfg draw ≡ some (from, to) → from < num_addresses)
        draws

module _ {Tx : Type 0} (wallet : Wallet Tx) (signs : Signs wallet) (g : Globals)
    (size : length g.nonces ≡ num_addresses) where
  abbrev uses_of : List Tx → List Use
  uses_of = signed_by signs.signed

  -- The account's next nonce is used by a transaction that is signed, which comes last.
  signed-Fresh :
      (k i : ℕ) (t : DynamicFeeTx) (tx : Tx) (result : List Tx) (g' : Globals)
      → i < num_addresses
      → nonce_at i g + k + 1 < u64_mod
      → t.nonce ≡ nonce_at i g'
      → wallet.sign_tx t i ≡ ok tx
      → Fresh g k (uses_of result) g'
      → Fresh g (k + 1) (uses_of (result ++ tx ∷ [])) (bump_nonce i g')
  signed-Fresh k i t tx result g' lt room e signed f =
      let one = signed_by-one signs.signed tx (i, t.nonce) (signs.sign t i tx signed) in
      rw (signed_by-append signs.signed result (tx ∷ []), one, e) (use-Fresh i f (omega arith) room)

  keep_signed-Fresh :
      (k i : ℕ) (t : DynamicFeeTx) (result : List Tx) (g' : Globals)
      → i < num_addresses
      → nonce_at i g + k + 1 < u64_mod
      → t.nonce ≡ nonce_at i g'
      → Fresh g k (uses_of result) g'
      → let kept = keep_signed i (wallet.sign_tx t i) (result, g') in
        Fresh g (k + 1) (uses_of kept.0) kept.1
  unfolding keep_signed
  keep_signed-Fresh k i t result g' lt room e f = elim (Result-cases (wallet.sign_tx t i)) [
    | inr (s, failed) ↦ rw failed (Fresh-more (omega arith) f)
    | inl (tx, signed) ↦ rw signed (signed-Fresh k i t tx result g' lt room e signed f)
  ]

  module _ (cfg : ReplayorConfig) (gas_info : Tx)
      (room : (i : ℕ) → i < num_addresses → nonce_at i g + cfg.gas_target + 1 < u64_mod) where
    erc20_loop-Fresh :
        (fuel k remaining : ℕ) (made out : List Tx × Globals)
        → k * erc20_gas + remaining ≤ cfg.gas_target
        → Fresh g k (uses_of made.0) made.1
        → erc20_loop wallet cfg fuel gas_info remaining made ≡ some out
        → Fresh g cfg.gas_target (uses_of out.0) out.1
    unfolding erc20_loop
    erc20_loop-Fresh zero k remaining made out le f h = cc
    erc20_loop-Fresh (suc fuel) k remaining (result, g') out le f h =
        elim (Bool-cases (ltb remaining erc20_gas)) [
          | inl e ↦
              let same : (result, g') ≡ out = ground arith in
              rw (← same) (Fresh-more (omega arith) f)
          | inr e ↦
              let t = erc20_tx wallet cfg gas_info g'.test_contract_address (nonce_at 0 g') in
              let enough : erc20_gas ≤ remaining = ground arith in
              erc20_loop-Fresh fuel (k + 1) (remaining - erc20_gas)
                (keep_signed 0 (wallet.sign_tx t 0) (result, g')) out (omega arith)
                (keep_signed-Fresh k 0 t result g' (omega arith)
                  (omega (arith, room 0 (omega arith))) refl f)
                (ground arith)
        ]

    eth_loop-Fresh :
        (draws : List Draw) (k remaining : ℕ) (made out : List Tx × Globals)
        → AreAccounts wallet cfg draws
        → k * eth_gas + remaining ≤ cfg.gas_target
        → Fresh g k (uses_of made.0) made.1
        → eth_loop wallet cfg draws gas_info remaining made ≡ some out
        → Fresh g cfg.gas_target (uses_of out.0) out.1
    unfolding eth_loop
    eth_loop-Fresh [] k remaining (result, g') out accounts le f h =
        let same : (result, g') ≡ out = ground arith in rw (← same) (Fresh-more (omega arith) f)
    eth_loop-Fresh (draw ∷ draws) k remaining (result, g') out accounts le f h =
        elim (Bool-cases (ltb remaining eth_gas)) [
          | inl e ↦
              let same : (result, g') ≡ out = ground arith in
              rw (← same) (Fresh-more (omega arith) f)
          | inr e ↦ elim (Option-cases (drawn wallet cfg draw)) [
            | inl wasted ↦
                eth_loop-Fresh draws k remaining (result, g') out accounts.1 le f (ground arith)
            | inr ((from, to), used) ↦
                let t = eth_tx wallet cfg gas_info (wallet.addresses to) (nonce_at from g') in
                let enough : eth_gas ≤ remaining = ground arith in
                let lt = accounts.0 from to used in
                eth_loop-Fresh draws (k + 1) (remaining - eth_gas)
                  (keep_signed from (wallet.sign_tx t from) (result, g')) out accounts.1
                  (omega arith)
                  (keep_signed-Fresh k from t result g' lt (omega (arith, room from lt)) refl f)
                  (ground arith)
          ]
        ]

    keep_result-Fresh :
        (k : ℕ) (t : DynamicFeeTx) (result : List Tx) (g' : Globals)
        → k + 1 ≤ cfg.gas_target + 1
        → t.nonce ≡ nonce_at 0 g'
        → Fresh g k (uses_of result) g'
        → Fresh g
            (k + 1)
            (uses_of (keep_result wallet cfg (wallet.sign_tx t 0) result))
            (bump_nonce 0 g')
    unfolding keep_result
    keep_result-Fresh k t result g' le e f =
        let free : nonce_at 0 g + k + 1 < u64_mod = omega (arith, room 0 (omega arith)) in
        elim (Result-cases (wallet.sign_tx t 0)) [
          | inr (s, failed) ↦ rw failed (bump-Fresh 0 f (omega arith) free)
          | inl (tx, signed) ↦
              rw signed (signed-Fresh k 0 t tx result g' (omega arith) free e signed f)
        ]

    storage_loop-Fresh :
        (n k : ℕ) (call : List ℕ) (result : List Tx) (g' : Globals)
        → k + n ≤ cfg.gas_target
        → Fresh g k (uses_of result) g'
        → let made = storage_loop wallet cfg n gas_info call (result, g') in
          Fresh g cfg.gas_target (uses_of made.0) made.1
    unfolding storage_loop
    storage_loop-Fresh zero k call result g' le f = Fresh-more (omega arith) f
    storage_loop-Fresh (suc n) k call result g' le f =
        let t = target_tx wallet cfg gas_info g'.test_contract_address call (nonce_at 0 g') in
        storage_loop-Fresh n (k + 1) call (keep_result wallet cfg (wallet.sign_tx t 0) result)
          (bump_nonce 0 g') (omega arith) (keep_result-Fresh k t result g' (omega arith) refl f)

    -- What a call that packs a block leaves.
    abbrev pub Packs : List Tx → Globals → Type 0
    Packs out g' = Fresh g (cfg.gas_target + 1) (uses_of out) g'

    packed :
        {k : ℕ} (made : List Tx × Globals) (out : List Tx) (g' : Globals)
        → k ≤ cfg.gas_target + 1
        → made ≡ (out, g')
        → Fresh g k (uses_of made.0) made.1
        → Packs out g'
    packed {k} made out g' le e f =
        Fresh-more le (subst (λ (p : List Tx × Globals). Fresh g k (uses_of p.0) p.1) e f)

    started : Fresh g 0 (uses_of []) g
    unfolding signed_by
    started = Fresh-refl g

    pub pack_erc20_transfer-Fresh :
        (out : List Tx) (g' : Globals)
        → pack_erc20_transfer wallet cfg gas_info g ≡ some (out, g')
        → Packs out g'
    unfolding pack_erc20_transfer signed_by
    pack_erc20_transfer-Fresh out g' h = elim (Bool-cases (not_positive cfg.gas_target)) [
      | inl e ↦ packed ([], g) out g' (omega arith) (ground arith) started
      | inr e ↦ Fresh-more (omega arith) (
          erc20_loop-Fresh (cfg.gas_target / erc20_gas + 1) 0 cfg.gas_target ([], g) (out, g')
            (omega arith) started (ground arith))
    ]

    pub pack_eth_transfer-Fresh :
        (draws : List Draw) (out : List Tx) (g' : Globals)
        → AreAccounts wallet cfg draws
        → pack_eth_transfer wallet cfg draws gas_info g ≡ some (out, g')
        → Packs out g'
    unfolding pack_eth_transfer signed_by
    pack_eth_transfer-Fresh draws out g' accounts h =
        elim (Bool-cases (not_positive cfg.gas_target)) [
          | inl e ↦ packed ([], g) out g' (omega arith) (ground arith) started
          | inr e ↦ Fresh-more (omega arith) (
              eth_loop-Fresh draws 0 cfg.gas_target ([], g) (out, g') accounts (omega arith) started
                (ground arith))
        ]

    storage_calls-le : (function : String) → (storage_calls wallet cfg function).1 ≤ cfg.gas_target
    unfolding storage_calls
    storage_calls-le function = ground arith

    pub pack_storage_stressor-Fresh :
        (out : List Tx) (g' : Globals)
        → pack_storage_stressor wallet cfg gas_info g ≡ (done out, g')
        → Packs out g'
    unfolding pack_storage_stressor
    pack_storage_stressor-Fresh out g' h =
        let calls = storage_calls wallet cfg cfg.stress_test_function in
        elim (Option-cases (lookup cfg.stress_test_function storage_stressor_signatures)) [
          | inl missing ↦ ground arith
          | inr (signature, found) ↦
              let made = storage_loop wallet cfg calls.1 gas_info (signature ++ calls.0) ([], g) in
              packed made out g' (omega arith) (ground arith) (
                storage_loop-Fresh calls.1 0 (signature ++ calls.0) [] g
                  (omega (arith, storage_calls-le cfg.stress_test_function)) started)
        ]

    pub pack_precompile_targeter-Fresh :
        (out : List Tx) (g' : Globals)
        → pack_precompile_targeter wallet cfg gas_info g ≡ (done out, g')
        → Packs out g'
    unfolding pack_precompile_targeter signed_or_panic
    pack_precompile_targeter-Fresh out g' h =
        elim (Option-cases (lookup cfg.stress_test_function precompile_signatures)) [
          | inl missing ↦ ground arith
          | inr (signature, found) ↦
              let t =
                target_tx wallet cfg gas_info g.test_contract_address signature (nonce_at 0 g) in
              elim (Result-cases (wallet.sign_tx t 0)) [
                | inr (e, failed) ↦ ground arith
                | inl (tx, signed) ↦
                    packed (tx ∷ [], bump_nonce 0 g) out g' (omega arith) (ground arith)
                      (signed-Fresh 0 0 t tx [] g (omega arith)
                        (omega (arith, room 0 (omega arith))) refl signed started)
              ]
        ]
