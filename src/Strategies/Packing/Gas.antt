-- ===== src/Strategies/Packing/Gas.antt =====
-- The gas target bounds what packages/strategies/stress.go packs, whatever can be signed.
use replayor.Prelude.{
  ℕ, zero, suc, ◌+◌, ◌-◌, ◌*◌, ◌/◌, ◌≤◌, ◌≡◌, some, inl, inr, String, List, [], ◌∷◌, ◌++◌, arith,
  length, length-append, ltb, str_eq, if◌then◌else◌, lookup, Bool-cases, Option-cases,
}
use replayor.Exec.{done, Result, ok, err, Result-cases}
use replayor.Config.{ReplayorConfig}
use replayor.Strategies.Tables.{precompile_signatures, storage_stressor_signatures}
use replayor.Strategies.Signing.{Wallet, Globals, nonce_at, bump_nonce}
use replayor.Strategies.Packing.{
  Draw, not_positive, erc20_gas, eth_gas, erc20_tx, target_tx, eth_tx, drawn, keep_signed,
  keep_result, erc20_loop, pack_erc20_transfer, eth_loop, pack_eth_transfer, storage_calls,
  storage_loop, pack_storage_stressor, signed_or_panic, pack_precompile_targeter,
}

module _ {Tx : Type 0} where
  keep_signed-length :
      (i : ℕ) (r : Result Tx) (result : List Tx) (g : Globals)
      → length (keep_signed i r (result, g)).0 ≤ length result + 1
  unfolding keep_signed
  keep_signed-length i (err e) result g = omega arith
  keep_signed-length i (ok tx) result g = omega (arith, length-append result (tx ∷ []))

-- What a call of a function of the storage stressor uses.
abbrev pub storage_gas : String → ℕ
storage_gas function =
    if str_eq function "writeStorage"
    then 4_849_870
    else if str_eq function "writeStorage2"
    then 4_963_747
    else if str_eq function "deployContracts"
    then 4_816_325
    else 0

module _ {Tx : Type 0} (wallet : Wallet Tx) (cfg : ReplayorConfig) (gas_info : Tx) where
  erc20_loop-bound :
      (fuel remaining : ℕ) (made out : List Tx × Globals)
      → erc20_loop wallet cfg fuel gas_info remaining made ≡ some out
      → length out.0 * erc20_gas ≤ length made.0 * erc20_gas + remaining
  unfolding erc20_loop
  erc20_loop-bound zero remaining made out h = cc
  erc20_loop-bound (suc fuel) remaining (result, g) out h =
      let signed =
        wallet.sign_tx (erc20_tx wallet cfg gas_info g.test_contract_address (nonce_at 0 g)) 0 in
      elim (Bool-cases (ltb remaining erc20_gas)) [
        | inl e ↦ let same : (result, g) ≡ out = ground arith in rw (← same) (omega arith)
        | inr e ↦
            let rest =
              erc20_loop-bound fuel (remaining - erc20_gas) (keep_signed 0 signed (result, g)) out
                (ground arith) in
            let one = keep_signed-length 0 signed result g in
            let enough : erc20_gas ≤ remaining = ground arith in omega (arith, rest, one)
      ]

  eth_loop-bound :
      (draws : List Draw) (remaining : ℕ) (made out : List Tx × Globals)
      → eth_loop wallet cfg draws gas_info remaining made ≡ some out
      → length out.0 * eth_gas ≤ length made.0 * eth_gas + remaining
  unfolding eth_loop
  eth_loop-bound [] remaining (result, g) out h =
      let same : (result, g) ≡ out = ground arith in rw (← same) (omega arith)
  eth_loop-bound (draw ∷ draws) remaining (result, g) out h =
      elim (Bool-cases (ltb remaining eth_gas)) [
        | inl e ↦ let same : (result, g) ≡ out = ground arith in rw (← same) (omega arith)
        | inr e ↦
            let enough : eth_gas ≤ remaining = ground arith in
            elim (Option-cases (drawn wallet cfg draw)) [
              | inl wasted ↦ eth_loop-bound draws remaining (result, g) out (ground arith)
              | inr ((from, to), used) ↦
                  let signed =
                    wallet.sign_tx
                      (eth_tx wallet cfg gas_info (wallet.addresses to) (nonce_at from g)) from in
                  let rest =
                    eth_loop-bound draws (remaining - eth_gas) (keep_signed from signed (result, g))
                      out (ground arith) in
                  let one = keep_signed-length from signed result g in omega (arith, rest, one)
            ]
      ]

  keep_result-length :
      (r : Result Tx) (result : List Tx)
      → length (keep_result wallet cfg r result) ≤ length result + 1
  unfolding keep_result
  keep_result-length (err e) result = omega arith
  keep_result-length (ok tx) result = omega (arith, length-append result (tx ∷ []))

  storage_loop-bound :
      (n : ℕ) (call : List ℕ) (result : List Tx) (g : Globals)
      → length (storage_loop wallet cfg n gas_info call (result, g)).0 ≤ length result + n
  unfolding storage_loop
  storage_loop-bound zero call result g = omega arith
  storage_loop-bound (suc n) call result g =
      let signed =
        wallet.sign_tx (target_tx wallet cfg gas_info g.test_contract_address call (nonce_at 0 g))
          0 in
      omega (
        arith,
        keep_result-length signed result,
        storage_loop-bound n call (keep_result wallet cfg signed result) (bump_nonce 0 g),
      )

  storage_calls-bound :
      (function : String)
      → (storage_calls wallet cfg function).1 * storage_gas function ≤ cfg.gas_target
  unfolding storage_calls
  storage_calls-bound function = ground arith

  pub pack_erc20_transfer-bound :
      (g : Globals) (out : List Tx × Globals)
      → pack_erc20_transfer wallet cfg gas_info g ≡ some out
      → length out.0 * erc20_gas ≤ cfg.gas_target
  unfolding pack_erc20_transfer
  pack_erc20_transfer-bound g out h = elim (Bool-cases (not_positive cfg.gas_target)) [
    | inl e ↦ let same : ([], g) ≡ out = ground arith in rw (← same) (omega arith)
    | inr e ↦ omega (
      arith,
      erc20_loop-bound (cfg.gas_target / erc20_gas + 1) cfg.gas_target ([], g) out (ground arith),
    )
  ]

  pub pack_eth_transfer-bound :
      (draws : List Draw) (g : Globals) (out : List Tx × Globals)
      → pack_eth_transfer wallet cfg draws gas_info g ≡ some out
      → length out.0 * eth_gas ≤ cfg.gas_target
  unfolding pack_eth_transfer
  pack_eth_transfer-bound draws g out h = elim (Bool-cases (not_positive cfg.gas_target)) [
    | inl e ↦ let same : ([], g) ≡ out = ground arith in rw (← same) (omega arith)
    | inr e ↦ omega (arith, eth_loop-bound draws cfg.gas_target ([], g) out (ground arith))
  ]

  pub pack_storage_stressor-bound :
      (g g' : Globals) (out : List Tx)
      → pack_storage_stressor wallet cfg gas_info g ≡ (done out, g')
      → length out * storage_gas cfg.stress_test_function ≤ cfg.gas_target
  unfolding pack_storage_stressor
  pack_storage_stressor-bound g g' out h =
      let function = cfg.stress_test_function in
      let calls = storage_calls wallet cfg function in
      elim (Option-cases (lookup function storage_stressor_signatures)) [
        | inl missing ↦ ground arith
        | inr (signature, found) ↦
            let packed = storage_loop wallet cfg calls.1 gas_info (signature ++ calls.0) ([], g) in
            let same : packed.0 ≡ out = ground arith in
            let few = storage_loop-bound calls.1 (signature ++ calls.0) [] g in
            let fits = storage_calls-bound function in rw (← same) (grind arith)
      ]

  pub pack_precompile_targeter-bound :
      (g g' : Globals) (out : List Tx)
      → pack_precompile_targeter wallet cfg gas_info g ≡ (done out, g')
      → length out * cfg.gas_target ≤ cfg.gas_target
  unfolding pack_precompile_targeter signed_or_panic
  pack_precompile_targeter-bound g g' out h =
      elim (Option-cases (lookup cfg.stress_test_function precompile_signatures)) [
        | inl missing ↦ ground arith
        | inr (signature, found) ↦
            elim (Result-cases (
              wallet.sign_tx
                (target_tx wallet cfg gas_info g.test_contract_address signature (nonce_at 0 g))
                0)) [
                  | inl (tx, signed) ↦
                      let same : tx ∷ [] ≡ out = ground arith in rw (← same) (omega arith)
                  | inr (e, failed) ↦ ground arith
                ]
      ]
