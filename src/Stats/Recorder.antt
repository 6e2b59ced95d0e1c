-- ===== src/Stats/Recorder.antt =====
-- packages/stats/storage.go: the recorders of statistics.
use replayor.Prelude.{ℕ, List, [], ◌∷◌, ◌++◌}
use replayor.Exec.{Result}
use replayor.Stats.{BlockCreationStats}
use replayor.Stats.Storage.{Storage}

-- `stats.Stats`, for a recorder of type `Recorder`.
pub record Stats (Recorder World : Type 0) : Type 0 where
  pub record_block_stats : BlockCreationStats → Recorder → Recorder
  pub write : Recorder → World → Recorder × World
  pub get_last_block_written : Recorder → ℕ

abbrev pub no_op_stats : {World : Type 0} → Stats (Unit {0}) World
no_op_stats = record {
  record_block_stats = λ bcs r. r;
  write = λ r w. (r, w);
  get_last_block_written = λ r. 0;
}

pub record StoredStats : Type 0 where
  pub stats : List BlockCreationStats
  pub last_block_written : ℕ

abbrev pub new_stored_stats : ℕ → StoredStats
new_stored_stats start_block = record { stats = []; last_block_written = start_block }

unfoldable pub record_block_stats : BlockCreationStats → StoredStats → StoredStats
record_block_stats bcs s = record s { stats = s.stats ++ bcs ∷ [] }

-- `s.stats[len(s.stats)-1].BlockNumber`, or what was written before where there are no records.
unfoldable pub last_number : ℕ → List BlockCreationStats → ℕ
last_number before [] = before
last_number before (bcs ∷ rest) = last_number bcs.block_number rest

-- `retry_do` is op-service's `retry.Do` at the type of the write. An error that is left after the
-- attempts is logged.
module _ {World : Type 0} (storage : Storage World)
    (retry_do : ℕ → (World → Result (Unit {0}) × World) → World → Result (Unit {0}) × World) where
  unfoldable pub write_stats : StoredStats → World → StoredStats × World
  write_stats s w =
      let (outcome, w') = retry_do 3 (storage.write s.stats) w in
      (record s { last_block_written = last_number s.last_block_written s.stats }, w')

  abbrev pub stored_stats : Stats StoredStats World
  stored_stats = record {
    record_block_stats = record_block_stats;
    write = write_stats;
    get_last_block_written = λ s. s.last_block_written;
  }
