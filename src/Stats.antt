-- ===== src/Stats.antt =====
-- packages/stats/storage.go: what is recorded of a block, and the recorders.
pub mod Storage
pub mod Create
pub mod Dependable
pub mod Recorder
pub mod Written
pub mod Tests
use replayor.Prelude.{ℕ, String, List, []}

pub record OpCodeStats : Type 0 where
  pub count : ℕ
  pub gas : ℕ

-- A `float64` is kept as the expression that computes it.
pub data Float : Type 0 where
  zero_float : Float
  quotient : ℕ → ℕ → Float

-- Durations are the bits of an `int64`.
pub record BlockCreationStats : Type 0 where
  pub total_time : ℕ
  pub fcu_time : ℕ
  pub get_time : ℕ
  pub new_time : ℕ
  pub fcu_no_attrs_time : ℕ
  pub block_number : ℕ
  pub block_hash : ℕ
  pub txn_count : ℕ
  pub success : Float
  pub gas_used : ℕ
  pub gas_limit : ℕ
  pub op_codes : List (String × OpCodeStats)
  pub accounts_changed : ℕ
  pub storage_tries_changed : ℕ
  pub slots_changed : ℕ

-- `stats.BlockCreationStats{}`
abbrev pub no_stats : BlockCreationStats
no_stats = record {
  total_time = 0;
  fcu_time = 0;
  get_time = 0;
  new_time = 0;
  fcu_no_attrs_time = 0;
  block_number = 0;
  block_hash = 0;
  txn_count = 0;
  success = zero_float;
  gas_used = 0;
  gas_limit = 0;
  op_codes = [];
  accounts_changed = 0;
  storage_tries_changed = 0;
  slots_changed = 0;
}
