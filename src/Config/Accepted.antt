-- ===== src/Config/Accepted.antt =====
-- What holds of every configuration that `LoadReplayorConfig` of packages/config/config.go accepts.
use mathlib.Core.Path.{subst}
use replayor.Prelude.{
  Dict, ℕ, ◌≤◌, ◌≡◌, ◌⊎◌, inl, inr, String, none, some, List, arith, eq_iff, lookup, Option-cases,
}
use replayor.Exec.{Result, ok, err, Result-cases}
use replayor.Strategies.Tables.{precompile_signatures, storage_stressor_signatures}
use replayor.Config.{
  ReplayorConfig, Flags, check_function, check_stress, test_name_of, make_config, config_named,
  config_on_rollup, load_replayor_config,
}

-- What a stress test may be: an ERC20 test, or a precompile or storage test whose function is in the
-- table that its packer looks in, or empty.
abbrev pub IsStress : String → String → Type 0
IsStress type function =
    (type ≡ "erc20")
    ⊎ ((type ≡ "precompile")
        × ((function ≡ "") ⊎ ((s : List ℕ) × (lookup function precompile_signatures ≡ some s))))
    ⊎ ((type ≡ "storage")
        × ((function ≡ "")
            ⊎ ((s : List ℕ) × (lookup function storage_stressor_signatures ≡ some s))))

abbrev pub IsAccepted : ReplayorConfig → Type 0
IsAccepted cfg =
    (cfg.gas_target ≤ cfg.gas_limit)
    × (((cfg.strategy ≡ "stress") × IsStress cfg.stress_test_type cfg.stress_test_function)
        ⊎ ((cfg.stress_test_type ≡ "") × (cfg.stress_test_function ≡ "")))

check_function-none :
    (signatures : Dict (List ℕ)) (invalid function : String)
    → check_function signatures invalid function ≡ none
    → (function ≡ "") ⊎ ((s : List ℕ) × (lookup function signatures ≡ some s))
unfolding check_function
check_function-none signatures invalid function h =
    elim (Option-cases (lookup function signatures)) [
      | inl missing ↦ inl (ground (arith, eq_iff function ""))
      | inr (s, found) ↦ inr (s, found)
    ]

check_stress-IsStress :
    (strategy type function : String)
    → check_stress strategy type function ≡ none
    → ((strategy ≡ "stress") × IsStress type function) ⊎ ((type ≡ "") × (function ≡ ""))
unfolding check_stress
check_stress-IsStress strategy type function h = ground (
  arith,
  eq_iff strategy "stress",
  eq_iff type "",
  eq_iff function "",
  eq_iff type "precompile",
  eq_iff type "storage",
  eq_iff type "erc20",
  check_function-none precompile_signatures "invalid precompile function" function,
  check_function-none storage_stressor_signatures "invalid storage stressor function" function,
)

config_named-IsAccepted :
    (flags : Flags) (chain_id : ℕ) (name : Result String) (cfg : ReplayorConfig)
    → config_named flags chain_id name ≡ ok cfg
    → IsAccepted cfg
unfolding config_named make_config
config_named-IsAccepted flags chain_id (err e) cfg h = cc
config_named-IsAccepted flags chain_id (ok name) cfg h =
    elim (Option-cases
      (check_stress flags.strategy flags.stress_test_type flags.stress_test_function)) [
        | inr (e, refused) ↦ ground arith
        | inl checked ↦
            let stress =
              check_stress-IsStress flags.strategy flags.stress_test_type flags.stress_test_function
                checked in
            let made : make_config flags chain_id name ≡ cfg = ground arith in
            let within : flags.gas_target ≤ flags.gas_limit = ground arith in
            subst IsAccepted made (within, stress)
      ]

-- A configuration that is accepted has a gas target within the gas limit; its strategy is stress and
-- its test is an ERC20 test or a precompile or storage test, whose function is empty or in the
-- table that the packer looks in; or it names no stress test.
pub load_replayor_config-IsAccepted :
    (flags : Flags) (cfg : ReplayorConfig) → load_replayor_config flags ≡ ok cfg → IsAccepted cfg
unfolding load_replayor_config config_on_rollup
load_replayor_config-IsAccepted flags cfg h = elim (Result-cases flags.rollup_chain_id) [
  | inl (chain_id, e) ↦
      config_named-IsAccepted flags chain_id (test_name_of flags) cfg (ground arith)
  | inr (e, failed) ↦ ground arith
]
