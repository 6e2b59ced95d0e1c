-- ===== src/Strategies/Tables.antt =====
-- packages/precompiles/precompiles.go and packages/storage_stressor/storage_stressor.go: the first four
-- bytes of the calls that the stress tests make.
pub mod Names
use replayor.Prelude.{ℕ, List, [], ◌∷◌, Dict}

abbrev pub precompile_signatures : Dict (List ℕ)
precompile_signatures =
    ("modexp", 7 ∷ 94 ∷ 134 ∷ 245 ∷ [])
    ∷ ("ecadd", 9 ∷ 215 ∷ 240 ∷ 73 ∷ [])
    ∷ ("ecmul", 36 ∷ 75 ∷ 194 ∷ 9 ∷ [])
    ∷ ("ecpairing", 112 ∷ 161 ∷ 87 ∷ 83 ∷ [])
    ∷ ("sha256", 73 ∷ 110 ∷ 188 ∷ 133 ∷ [])
    ∷ ("ripemd160", 212 ∷ 219 ∷ 249 ∷ 243 ∷ [])
    ∷ ("identity", 117 ∷ 94 ∷ 249 ∷ 65 ∷ [])
    ∷ ("ecrecover", 69 ∷ 121 ∷ 78 ∷ 128 ∷ [])
    ∷ ("blake2f", 85 ∷ 109 ∷ 42 ∷ 119 ∷ [])
    ∷ []

abbrev pub storage_stressor_signatures : Dict (List ℕ)
storage_stressor_signatures =
    ("writeStorage", 65 ∷ 114 ∷ 12 ∷ 62 ∷ [])
    ∷ ("writeStorage2", 202 ∷ 59 ∷ 233 ∷ 104 ∷ [])
    ∷ ("deployContracts", 48 ∷ 51 ∷ 226 ∷ 201 ∷ [])
    ∷ []
