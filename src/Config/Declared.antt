-- ===== src/Config/Declared.antt =====
-- packages/config/flags.go: the flags that the program declares.
use replayor.Prelude.{Bool, true, false, String, Option, none, some, List, [], ◌∷◌}

pub data FlagKind : Type 0 where
  string_flag : FlagKind
  int_flag : FlagKind
  uint64_flag : FlagKind
  bool_flag : FlagKind

-- A flag of the command line library; `value` is its default, where it has one, and `env_var` the name
-- that `opservice.PrefixEnvVar` is given.
pub record Flag : Type 0 where
  pub kind : FlagKind
  pub name : String
  pub required : Bool
  pub value : Option String
  pub env_var : String

abbrev pub engine_api_secret_flag : Flag
engine_api_secret_flag = record {
  kind = string_flag;
  name = "engine-api-secret";
  required = true;
  value = none;
  env_var = "ENGINE_API_SECRET";
}

abbrev pub source_node_url_flag : Flag
source_node_url_flag = record {
  kind = string_flag;
  name = "source-node-url";
  required = true;
  value = none;
  env_var = "SOURCE_NODE_URL";
}

abbrev pub chain_id_flag : Flag
chain_id_flag = record {
  kind = string_flag;
  name = "chain-id";
  required = false;
  value = none;
  env_var = "CHAIN_ID";
}

abbrev pub rollup_config_path_flag : Flag
rollup_config_path_flag = record {
  kind = string_flag;
  name = "rollup-config-path";
  required = false;
  value = none;
  env_var = "ROLLUP_CFG_PATH";
}

abbrev pub engine_api_url_flag : Flag
engine_api_url_flag = record {
  kind = string_flag;
  name = "engine-api-url";
  required = false;
  value = some "ws://0.0.0.0:8551";
  env_var = "ENGINE_API_URL";
}

abbrev pub execution_url_flag : Flag
execution_url_flag = record {
  kind = string_flag;
  name = "execution-url";
  required = false;
  value = some "http://0.0.0.0:8545";
  env_var = "EXECUTION_URL";
}

abbrev pub strategy_flag : Flag
strategy_flag = record {
  kind = string_flag;
  name = "strategy";
  required = true;
  value = none;
  env_var = "STRATEGY";
}

abbrev pub block_count_flag : Flag
block_count_flag = record {
  kind = int_flag;
  name = "block-count";
  required = true;
  value = none;
  env_var = "BLOCK_COUNT";
}

abbrev pub gas_target_flag : Flag
gas_target_flag = record {
  kind = int_flag;
  name = "gas-target";
  required = false;
  value = none;
  env_var = "GAS_TARGET";
}

abbrev pub gas_limit_flag : Flag
gas_limit_flag = record {
  kind = int_flag;
  name = "gas-limit";
  required = false;
  value = none;
  env_var = "GAS_LIMIT";
}

abbrev pub benchmark_start_block_flag : Flag
benchmark_start_block_flag = record {
  kind = uint64_flag;
  name = "benchmark-start-block";
  required = false;
  value = none;
  env_var = "BENCHMARK_START_BLOCK";
}

abbrev pub benchmark_opcodes_flag : Flag
benchmark_opcodes_flag = record {
  kind = bool_flag;
  name = "benchmark-opcodes";
  required = false;
  value = none;
  env_var = "BENCHMARK_OPCODES";
}

abbrev pub compute_storage_diffs_flag : Flag
compute_storage_diffs_flag = record {
  kind = bool_flag;
  name = "compute-storage-diffs";
  required = false;
  value = none;
  env_var = "COMPUTE_STORAGE_DIFFS";
}

abbrev pub test_name_flag : Flag
test_name_flag = record {
  kind = string_flag;
  name = "test-name";
  required = false;
  value = none;
  env_var = "TEST_NAME";
}

abbrev pub s3_bucket_flag : Flag
s3_bucket_flag = record {
  kind = string_flag;
  name = "s3-bucket";
  required = false;
  value = none;
  env_var = "S3_BUCKET";
}

abbrev pub storage_type_flag : Flag
storage_type_flag = record {
  kind = string_flag;
  name = "storage-type";
  required = true;
  value = none;
  env_var = "STORAGE_TYPE";
}

abbrev pub disk_path_flag : Flag
disk_path_flag = record {
  kind = string_flag;
  name = "disk-path";
  required = false;
  value = none;
  env_var = "DISK_PATH";
}

abbrev pub stress_test_type_flag : Flag
stress_test_type_flag = record {
  kind = string_flag;
  name = "stress-test-type";
  required = false;
  value = none;
  env_var = "STRESS_TEST_TYPE";
}

abbrev pub stress_test_function_flag : Flag
stress_test_function_flag = record {
  kind = string_flag;
  name = "stress-test-function";
  required = false;
  value = none;
  env_var = "STRESS_TEST_FUNCTION";
}

-- The flags that `init` appends to those of the logger.
abbrev pub declared_flags : List Flag
declared_flags =
    engine_api_secret_flag ∷ source_node_url_flag ∷ chain_id_flag ∷ engine_api_url_flag
    ∷ execution_url_flag ∷ strategy_flag ∷ block_count_flag ∷ gas_target_flag ∷ gas_limit_flag
    ∷ s3_bucket_flag ∷ storage_type_flag ∷ disk_path_flag ∷ benchmark_start_block_flag
    ∷ benchmark_opcodes_flag ∷ compute_storage_diffs_flag ∷ test_name_flag ∷ rollup_config_path_flag
    ∷ stress_test_type_flag ∷ stress_test_function_flag ∷ []
