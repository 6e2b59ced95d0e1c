-- ===== src/Config/Tests.antt =====
-- packages/config/config.go on the flags of a storage stress test.
use mathlib.Core.List.{Mem, Perm}
use mathlib.Core.List.Perm
use replayor.Prelude.{
  ℕ, String, ◌≡◌, ◌≢◌, ◌↔◌, refl, false, List, [], ◌∷◌, none, some, lookup, str_eq, eq_iff, arith,
  if◌then◌else◌,
}
use replayor.Prelude.Ascending.{sort_strings, IsAscending}
use replayor.Strategies.Tables.{precompile_signatures, storage_stressor_signatures}
use replayor.Strategies.Tables.Names.{keys, valid_names, get_valid_names}
use replayor.Config.Listed.{valid_names_lem}
use replayor.Exec.{Result, ok}
use replayor.Config.{
  ReplayorConfig, Flags, load_replayor_config, make_config, test_name_of, check_stress,
  check_function,
}
use replayor.Config.Read.{
  CliContext, read_flags, Asks, IsOnRollup, IsNamed, load_replayor_config-Asks,
}
use replayor.Config.Accepted.{IsAccepted, load_replayor_config-IsAccepted}

abbrev flags : Flags
flags = record {
  engine_api_secret = "secret";
  source_node_url = "";
  engine_api_url = "";
  execution_url = "";
  chain_id = "8453";
  rollup_config_path = "";
  rollup_chain_id = ok 8453;
  hostname = ok "host";
  test_name = "";
  strategy = "stress";
  block_count = 20;
  gas_target = 100_000;
  gas_limit = 200_000;
  benchmark_start_block = 0;
  benchmark_opcodes = false;
  compute_storage_diffs = false;
  bucket = "";
  storage_type = "disk";
  disk_path = "/tmp";
  stress_test_type = "storage";
  stress_test_function = "writeStorage";
}

flags_load : load_replayor_config flags ≡ ok (make_config flags 8453 "host")
unfolding load_replayor_config test_name_of check_stress lookup
flags_load = refl

load_replayor_config-IsAccepted_example : IsAccepted (make_config flags 8453 "host")
load_replayor_config-IsAccepted_example =
    load_replayor_config-IsAccepted flags (make_config flags 8453 "host") flags_load

-- An order that is not the map's.
abbrev ranged : List String
ranged = "deployContracts" ∷ "writeStorage" ∷ "writeStorage2" ∷ []

ranged-Perm : Perm ranged (keys storage_stressor_signatures)
unfolding keys
ranged-Perm =
    Perm.trans (Perm.swap "writeStorage" "deployContracts" ("writeStorage2" ∷ []))
      (Perm.cons "writeStorage" (Perm.swap "writeStorage2" "deployContracts" []))

precompile_named : ◌≢◌ {A = String} "modexp" ""
precompile_named = ground (arith, eq_iff "modexp" "")

valid_names_lem_example :
    (valid_names ranged ≡ get_valid_names storage_stressor_signatures)
    × IsAscending (sort_strings ranged)
    × (Mem "modexp" (sort_strings ranged) ↔ (
        check_function storage_stressor_signatures "invalid storage stressor function" "modexp"
        ≡ none))
valid_names_lem_example =
    valid_names_lem storage_stressor_signatures ranged "invalid storage stressor function" "modexp"
      ranged-Perm precompile_named

refused_with_names :
    check_stress "stress" "storage" "modexp"
    ≡ some
        "invalid storage stressor function: modexp. Valid functions: deployContracts, writeStorage, writeStorage2"
unfolding check_stress check_function lookup get_valid_names
refused_with_names = refl

precompiles_listed :
    get_valid_names precompile_signatures
    ≡ "blake2f, ecadd, ecmul, ecpairing, ecrecover, identity, modexp, ripemd160, sha256"
unfolding get_valid_names
precompiles_listed = refl

-- A command line without a name for the test.
abbrev command_line : CliContext
command_line = record {
  string = λ name.
      if str_eq name "test-name"
      then ""
      else if str_eq name "strategy"
      then "replay"
      else if str_eq name "stress-test-type"
      then ""
      else if str_eq name "stress-test-function"
      then ""
      else name;
  int = λ name. 20;
  uint64 = λ name. if str_eq name "gas-target" then 5 else 6;
  bool = λ name. str_eq name "benchmark-opcodes";
}

abbrev rollup : String → String → Result ℕ
rollup id path = ok 8453

accepted_line :
    (cfg : ReplayorConfig) × (load_replayor_config (read_flags rollup (ok "host") command_line)
      ≡ ok cfg)
unfolding load_replayor_config read_flags make_config check_stress test_name_of
accepted_line = (_, refl)

load_replayor_config-Asks_example :
    (◌≢◌ {A = String} "engine-api-secret" "")
    × Asks rollup (ok "host") command_line accepted_line.0
    × IsOnRollup rollup (ok "host") command_line accepted_line.0
    × IsNamed rollup (ok "host") command_line accepted_line.0
load_replayor_config-Asks_example =
    load_replayor_config-Asks rollup (ok "host") command_line accepted_line.0 accepted_line.1
