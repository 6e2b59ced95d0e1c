-- ===== src/Stats/Create.antt =====
-- `NewStorage` of packages/stats/storage.go, with `NewDiskStorage` of disk.go and `NewS3Storage` of
-- s3.go: which storage a configuration asks for, and under which name it writes.
use replayor.Prelude.{ℕ, String, str_append, str_eq, if◌then◌else◌}
use replayor.Exec.{Result, ok, err}
use replayor.Config.{ReplayorConfig, test_description}
use replayor.Stats.Storage.{Storage, Json, Files, Objects, disk_storage, s3_storage}

-- What the constructors call: the clock, in seconds, `%d`, the disk and the object store.
pub record Places (Bytes World : Type 0) : Type 0 where
  pub unix : World → ℕ
  pub format_int : ℕ → String
  pub files : Files Bytes World
  pub objects : Objects Bytes World

module _ {Bytes World : Type 0} (json : Json Bytes) (places : Places Bytes World)
    (cfg : ReplayorConfig) where
  unfoldable pub disk_dir : String
  disk_dir = str_append cfg.disk_path (str_append "/" (test_description places.format_int cfg))

  unfoldable pub disk_path : World → String
  unfolding disk_dir
  disk_path w =
      str_append disk_dir
        (str_append "/" (str_append cfg.test_name (places.format_int (places.unix w))))

  unfoldable pub new_disk_storage : World → Result (Storage World) × World
  unfolding disk_path
  new_disk_storage w =
      let (made, w') = places.files.mkdir_all disk_dir w in
      (elim made [ err e ↦ err e | ok u ↦ ok (disk_storage json places.files (disk_path w)) ], w')

  unfoldable pub s3_file_name : World → String
  s3_file_name w = str_append cfg.test_name (
      str_append "/" (
        str_append (test_description places.format_int cfg)
          (str_append "/" (places.format_int (places.unix w)))))

  unfoldable pub new_s3_storage : World → Result (Storage World) × World
  unfolding s3_file_name
  new_s3_storage w =
      let (connected, w') = places.objects.connect w in
      (
        elim connected [
          | err e ↦ err e
          | ok u ↦ ok (s3_storage json places.objects cfg.bucket (s3_file_name w'))
        ],
        w',
      )

  unfoldable pub new_storage : World → Result (Storage World) × World
  new_storage w =
      if str_eq cfg.storage_type "s3"
      then new_s3_storage w
      else if str_eq cfg.storage_type "disk"
      then new_disk_storage w
      else (err (str_append "unknown storage type " cfg.storage_type), w)
