-- ===== src/Config.antt =====
-- packages/config/config.go: the configuration, and what `LoadReplayorConfig` accepts.
pub mod Accepted
pub mod Declared
pub mod Listed
pub mod Read
mod Tests
use replayor.Prelude.{
  ℕ, ◌++◌, String, Bool, Option, none, some, List, ltb, str_eq, if◌then◌else◌, lookup, Dict,
  str_append,
}
use replayor.Exec.{Result, ok, err}
use replayor.Strategies.Tables.Names.{get_valid_names}
use replayor.Strategies.Tables.{precompile_signatures, storage_stressor_signatures}

-- The fields that the program's other parts read, apart from the secret and the rollup's parameters.
pub record ReplayorConfig : Type 0 where
  pub source_node_url : String
  pub chain_id : ℕ
  pub engine_api_url : String
  pub execution_url : String
  pub strategy : String
  pub block_count : ℕ
  pub gas_target : ℕ
  pub gas_limit : ℕ
  pub benchmark_start_block : ℕ
  pub benchmark_opcodes : Bool
  pub compute_storage_diffs : Bool
  pub test_name : String
  pub bucket : String
  pub storage_type : String
  pub disk_path : String
  pub stress_test_type : String
  pub stress_test_function : String

-- The values of the flags, and what `NewRollupConfig` and `os.Hostname` answer.
pub record Flags : Type 0 where
  pub engine_api_secret : String
  pub source_node_url : String
  pub engine_api_url : String
  pub execution_url : String
  pub chain_id : String
  pub rollup_config_path : String
  pub rollup_chain_id : Result ℕ
  pub hostname : Result String
  pub test_name : String
  pub strategy : String
  pub block_count : ℕ
  pub gas_target : ℕ
  pub gas_limit : ℕ
  pub benchmark_start_block : ℕ
  pub benchmark_opcodes : Bool
  pub compute_storage_diffs : Bool
  pub bucket : String
  pub storage_type : String
  pub disk_path : String
  pub stress_test_type : String
  pub stress_test_function : String

pub check_function : Dict (List ℕ) → String → String → Option String
check_function signatures invalid function =
    if str_eq function "" then none else elim (lookup function signatures) [
      | none ↦ some (
          str_append invalid (
            str_append ": " (
              str_append function (str_append ". Valid functions: " (get_valid_names signatures)))))
      | some signature ↦ none
    ]

-- The validation of the stress test's type and function: an error or nil.
unfoldable pub check_stress : String → String → String → Option String
unfolding check_function
check_stress strategy type function =
    if str_eq strategy "stress"
    then (if str_eq type ""
        then some "must provide stress test type when strategy is 'stress'"
        else if str_eq type "precompile"
        then check_function precompile_signatures "invalid precompile function" function
        else if str_eq type "storage"
        then check_function storage_stressor_signatures "invalid storage stressor function" function
        else if str_eq type "erc20"
        then none
        else some (
            str_append "invalid stress test type: "
              (str_append type ". Valid types: precompile, storage, erc20")))
    else if str_eq type ""
    then (if str_eq function ""
        then none
        else some "stress test type and function can only be set when strategy is 'stress'")
    else some "stress test type and function can only be set when strategy is 'stress'"

-- The test's name, or else the host's.
unfoldable pub test_name_of : Flags → Result String
test_name_of flags = if str_eq flags.test_name "" then flags.hostname else ok flags.test_name

unfoldable pub make_config : Flags → ℕ → String → ReplayorConfig
make_config flags chain_id test_name = record {
  source_node_url = flags.source_node_url;
  engine_api_url = flags.engine_api_url;
  execution_url = flags.execution_url;
  chain_id = chain_id;
  strategy = flags.strategy;
  block_count = flags.block_count;
  gas_target = flags.gas_target;
  gas_limit = flags.gas_limit;
  benchmark_start_block = flags.benchmark_start_block;
  benchmark_opcodes = flags.benchmark_opcodes;
  compute_storage_diffs = flags.compute_storage_diffs;
  test_name = str_append test_name "_";
  bucket = flags.bucket;
  storage_type = flags.storage_type;
  disk_path = flags.disk_path;
  stress_test_type = flags.stress_test_type;
  stress_test_function = flags.stress_test_function;
}

config_named : Flags → ℕ → Result String → Result ReplayorConfig
unfolding make_config
config_named flags chain_id (err e) = err e
config_named flags chain_id (ok test_name) =
    if ltb flags.gas_limit flags.gas_target
    then err "cannot set gasTarget greater than gasLimit"
    else elim (check_stress flags.strategy flags.stress_test_type flags.stress_test_function) [
      | some e ↦ err e
      | none ↦ ok (make_config flags chain_id test_name)
    ]

config_on_rollup : Flags → Result ℕ → Result ReplayorConfig
unfolding config_named
config_on_rollup flags (err e) = err e
config_on_rollup flags (ok chain_id) = config_named flags chain_id (test_name_of flags)

unfoldable pub load_replayor_config : Flags → Result ReplayorConfig
unfolding config_on_rollup
load_replayor_config flags =
    if str_eq flags.engine_api_secret ""
    then err "must provide REPLAYOR_ENGINE_API_SECRET env var"
    else if str_eq flags.chain_id ""
    then (if str_eq flags.rollup_config_path ""
        then err "must provide either chain id or rollup config path"
        else config_on_rollup flags flags.rollup_chain_id)
    else config_on_rollup flags flags.rollup_chain_id

-- `TestDescription`; `format_int` is `%d`.
unfoldable pub test_description : (ℕ → String) → ReplayorConfig → String
test_description format_int cfg =
    str_append cfg.strategy (str_append "-" (format_int cfg.block_count))
