-- ===== src/Config/Read.antt =====
-- What `LoadReplayorConfig` of packages/config/config.go reads of the flags of flags.go.
use mathlib.Core.Path.{subst}
use replayor.Prelude.{ℕ, Bool, String, ◌≡◌, ◌≢◌, ◌⊎◌, inl, inr, refl, arith, str_append, eq_iff}
use replayor.Exec.{Result, ok, err, Result-cases}
use replayor.Config.{
  ReplayorConfig, Flags, test_name_of, make_config, config_named, config_on_rollup,
  load_replayor_config,
}
use replayor.Config.Declared.{
  engine_api_secret_flag, source_node_url_flag, chain_id_flag, rollup_config_path_flag,
  engine_api_url_flag, execution_url_flag, strategy_flag, block_count_flag, gas_target_flag,
  gas_limit_flag, benchmark_start_block_flag, benchmark_opcodes_flag, compute_storage_diffs_flag,
  test_name_flag, s3_bucket_flag, storage_type_flag, disk_path_flag, stress_test_type_flag,
  stress_test_function_flag,
}

-- `cli.Context`: what it answers for the name of a flag.
pub record CliContext : Type 0 where
  pub string : String → String
  pub int : String → ℕ
  pub uint64 : String → ℕ
  pub bool : String → Bool

-- `new_rollup_config` is op-node's, of a chain's id and a path, as the id of the chain that it finds.
module _ (new_rollup_config : String → String → Result ℕ) (hostname : Result String) where
  unfoldable pub read_flags : CliContext → Flags
  read_flags cli = record {
    engine_api_secret = cli.string engine_api_secret_flag.name;
    source_node_url = cli.string source_node_url_flag.name;
    engine_api_url = cli.string engine_api_url_flag.name;
    execution_url = cli.string execution_url_flag.name;
    chain_id = cli.string chain_id_flag.name;
    rollup_config_path = cli.string rollup_config_path_flag.name;
    rollup_chain_id =
        new_rollup_config (cli.string chain_id_flag.name) (cli.string rollup_config_path_flag.name);
    hostname = hostname;
    test_name = cli.string test_name_flag.name;
    strategy = cli.string strategy_flag.name;
    block_count = cli.int block_count_flag.name;
    gas_target = cli.uint64 gas_target_flag.name;
    gas_limit = cli.uint64 gas_limit_flag.name;
    benchmark_start_block = cli.uint64 benchmark_start_block_flag.name;
    benchmark_opcodes = cli.bool benchmark_opcodes_flag.name;
    compute_storage_diffs = cli.bool compute_storage_diffs_flag.name;
    bucket = cli.string s3_bucket_flag.name;
    storage_type = cli.string storage_type_flag.name;
    disk_path = cli.string disk_path_flag.name;
    stress_test_type = cli.string stress_test_type_flag.name;
    stress_test_function = cli.string stress_test_function_flag.name;
  }

  -- What a command line asks for, by the names of the flags.
  abbrev pub Asks : CliContext → ReplayorConfig → Type 0
  Asks c cfg =
      ((cfg.source_node_url ≡ c.string "source-node-url")
        × (cfg.engine_api_url ≡ c.string "engine-api-url")
        × (cfg.execution_url ≡ c.string "execution-url")
        × (cfg.strategy ≡ c.string "strategy"))
      × ((cfg.block_count ≡ c.int "block-count")
          × (cfg.gas_target ≡ c.uint64 "gas-target")
          × (cfg.gas_limit ≡ c.uint64 "gas-limit")
          × (cfg.benchmark_start_block ≡ c.uint64 "benchmark-start-block"))
      × ((cfg.benchmark_opcodes ≡ c.bool "benchmark-opcodes")
          × (cfg.compute_storage_diffs ≡ c.bool "compute-storage-diffs"))
      × ((cfg.bucket ≡ c.string "s3-bucket")
          × (cfg.storage_type ≡ c.string "storage-type")
          × (cfg.disk_path ≡ c.string "disk-path")
          × (cfg.stress_test_type ≡ c.string "stress-test-type")
          × (cfg.stress_test_function ≡ c.string "stress-test-function"))

  -- The rollup's chain is the one that the id and the path name, of which one is given.
  abbrev pub IsOnRollup : CliContext → ReplayorConfig → Type 0
  IsOnRollup c cfg =
      (new_rollup_config (c.string "chain-id") (c.string "rollup-config-path") ≡ ok cfg.chain_id)
      × ((c.string "chain-id" ≢ "") ⊎ (c.string "rollup-config-path" ≢ ""))

  -- The test is named by its flag, or else by the host.
  abbrev pub IsNamed : CliContext → ReplayorConfig → Type 0
  IsNamed c cfg =
      (name : String) × (cfg.test_name ≡ str_append name "_")
      × ((name ≡ c.string "test-name") ⊎ ((c.string "test-name" ≡ "") × (hostname ≡ ok name)))

  -- Flags that are accepted name a rollup and a test, of which the configuration is made.
  config_named-made :
      (flags : Flags) (chain_id : ℕ) (r : Result String) (cfg : ReplayorConfig)
      → config_named flags chain_id r ≡ ok cfg
      → (name : String) × (r ≡ ok name) × (make_config flags chain_id name ≡ cfg)
  unfolding config_named make_config
  config_named-made flags chain_id (err e) cfg h = cc
  config_named-made flags chain_id (ok name) cfg h = (name, refl, ground arith)

  rollup-made :
      (flags : Flags) (cfg : ReplayorConfig)
      → load_replayor_config flags ≡ ok cfg
      → (chain_id : ℕ) × (flags.rollup_chain_id ≡ ok chain_id)
        × (config_named flags chain_id (test_name_of flags) ≡ ok cfg)
        × ((flags.engine_api_secret ≢ "")
            × ((flags.chain_id ≢ "") ⊎ (flags.rollup_config_path ≢ "")))
  unfolding load_replayor_config config_on_rollup
  rollup-made flags cfg h = elim (Result-cases flags.rollup_chain_id) [
    | inr (e, failed) ↦ ground arith
    | inl (chain_id, e) ↦ (
      chain_id,
      e,
      ground arith,
      ground (
        arith,
        eq_iff flags.engine_api_secret "",
        eq_iff flags.chain_id "",
        eq_iff flags.rollup_config_path "",
      ),
    )
  ]

  named :
      (flags : Flags) (name : String)
      → test_name_of flags ≡ ok name
      → (name ≡ flags.test_name) ⊎ ((flags.test_name ≡ "") × (flags.hostname ≡ ok name))
  unfolding test_name_of
  named flags name h = ground (arith, eq_iff flags.test_name "")

  -- When a command line is accepted, it gives a secret for the engine API and a chain id or the path of
  -- a rollup's configuration; every entry of the configuration is what the command line answers for
  -- the flag of that entry's name; the chain is that of the rollup which the id and the path name; and
  -- the test has the name of its flag, or that of the host where this is empty, and a `_` after it.
  pub load_replayor_config-Asks :
      (c : CliContext) (cfg : ReplayorConfig)
      → load_replayor_config (read_flags c) ≡ ok cfg
      → (c.string "engine-api-secret" ≢ "") × Asks c cfg × IsOnRollup c cfg × IsNamed c cfg
  unfolding read_flags make_config
  load_replayor_config-Asks c cfg h =
      let (chain_id, on_rollup, loaded, (secret, given)) = rollup-made (read_flags c) cfg h in
      let (name, tested, made) =
        config_named-made (read_flags c) chain_id (test_name_of (read_flags c)) cfg loaded in
      subst (λ x. (c.string "engine-api-secret" ≢ "") × Asks c x × IsOnRollup c x × IsNamed c x)
        made
        (
          secret,
          (
            (refl, refl, refl, refl),
            (refl, refl, refl, refl),
            (refl, refl),
            (refl, refl, refl, refl, refl),
          ),
          (on_rollup, given),
          (name, refl, named (read_flags c) name tested),
        )
