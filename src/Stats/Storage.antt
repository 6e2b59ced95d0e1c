-- ===== src/Stats/Storage.antt =====
-- packages/stats/disk.go and s3.go, and `NewStorage` of storage.go: where the records are written.
use replayor.Prelude.{String, Option, List}
use replayor.Exec.{Result, ok, err}
use replayor.Stats.{BlockCreationStats}

-- `stats.Storage`, over the state `World` of the disk or of the object store.
pub record Storage (World : Type 0) : Type 0 where
  pub write : List BlockCreationStats → World → Result (Unit {0}) × World
  pub read : World → Result (List BlockCreationStats) × World

-- `encoding/json`. A decoder that fails has filled in a part of the data.
pub record Json (Bytes : Type 0) : Type 0 where
  pub marshal : List BlockCreationStats → Result Bytes
  pub decode : Bytes → List BlockCreationStats × Option String

-- `os.WriteFile` and `os.ReadFile`.
pub record Files (Bytes World : Type 0) : Type 0 where
  pub mkdir_all : String → World → Result (Unit {0}) × World
  pub write_file : String → Bytes → World → Result (Unit {0}) × World
  pub read_file : String → World → Result Bytes

-- The client of the object store, `PutObject` and `GetObject`, by bucket and name.
pub record Objects (Bytes World : Type 0) : Type 0 where
  pub connect : World → Result (Unit {0}) × World
  pub put_object : String → String → Bytes → World → Result (Unit {0}) × World
  pub get_object : String → String → World → Result Bytes

module _ {Bytes World : Type 0} (json : Json Bytes) where
  unfoldable pub file_written : Result (Unit {0}) × World → Result (Unit {0}) × World
  file_written (ok tt, w) = (ok tt, w)
  file_written (err e, w) = (err "error writing data", w)

  unfoldable pub disk_write :
      Files Bytes World → String → List BlockCreationStats → World → Result (Unit {0}) × World
  unfolding file_written
  disk_write files path stats w = elim (json.marshal stats) [
    | err e ↦ (err "error encoding data", w)
    | ok b ↦ file_written (files.write_file path b w)
  ]

  -- A decoding error is logged and not returned.
  unfoldable pub disk_read :
      Files Bytes World → String → World → Result (List BlockCreationStats) × World
  disk_read files path w = elim (files.read_file path w) [
    | err e ↦ (err "error reading data", w)
    | ok b ↦ (ok ((json.decode b).0), w)
  ]

  unfoldable pub s3_write :
      Objects Bytes World
      → String
      → String
      → List BlockCreationStats
      → World
      → Result (Unit {0}) × World
  s3_write s3 bucket file_name stats w = elim (json.marshal stats) [
    | err e ↦ (err "error encoding data", w)
    | ok b ↦ s3.put_object bucket file_name b w
  ]

  unfoldable pub s3_read :
      Objects Bytes World → String → String → World → Result (List BlockCreationStats) × World
  s3_read s3 bucket file_name w = elim (s3.get_object bucket file_name w) [
    | err e ↦ (err e, w)
    | ok b ↦ (ok ((json.decode b).0), w)
  ]

  abbrev pub disk_storage : Files Bytes World → String → Storage World
  disk_storage files path = record { write = disk_write files path; read = disk_read files path }

  abbrev pub s3_storage : Objects Bytes World → String → String → Storage World
  s3_storage s3 bucket file_name = record {
    write = s3_write s3 bucket file_name;
    read = s3_read s3 bucket file_name;
  }
