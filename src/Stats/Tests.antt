-- ===== src/Stats/Tests.antt =====
-- packages/stats against a disk and an object store that hold one file.
use replayor.Prelude.{◌≡◌, refl, none, some, List, [], ◌∷◌, Option, arith}
use replayor.Exec.{Result, ok, err}
use replayor.Stats.{BlockCreationStats, no_stats}
use replayor.Stats.Storage.{Json, Files, Objects, disk_read, disk_write, s3_read, s3_write}
use replayor.Stats.Written.{disk_read-disk_write, s3_read-s3_write}

-- The records themselves as the bytes.
abbrev pub plain : Json (List BlockCreationStats)
plain = record { marshal = λ stats. ok stats; decode = λ stats. (stats, none) }

abbrev pub One : Type 0
One = Option (List BlockCreationStats)

abbrev found : One → Result (List BlockCreationStats)
found none = err "missing"
found (some stats) = ok stats

abbrev pub one_file : Files (List BlockCreationStats) One
one_file = record {
  mkdir_all = λ path w. (ok tt, w);
  write_file = λ path bytes w. (ok tt, some bytes);
  read_file = λ path w. found w;
}

abbrev pub one_object : Objects (List BlockCreationStats) One
one_object = record {
  connect = λ w. (ok tt, w);
  put_object = λ bucket name bytes w. (ok tt, some bytes);
  get_object = λ bucket name w. found w;
}

abbrev two_records : List BlockCreationStats
two_records = record no_stats { block_number = 7 } ∷ record no_stats { block_number = 8 } ∷ []

decoded :
    (stats b : List BlockCreationStats)
    → plain.marshal stats ≡ ok b
    → plain.decode b ≡ (stats, none)
decoded stats b h = ground arith

disk_read-disk_write_example :
    disk_read plain one_file "results" (some two_records) ≡ (ok two_records, some two_records)
unfolding disk_write
disk_read-disk_write_example =
    disk_read-disk_write plain decoded one_file "results" (λ b w h. refl) two_records none
      (some two_records) refl

s3_read-s3_write_example :
    s3_read plain one_object "bucket" "results" (some two_records)
    ≡ (ok two_records, some two_records)
unfolding s3_write
s3_read-s3_write_example =
    s3_read-s3_write plain decoded one_object "bucket" "results" (λ b w h. refl) two_records none
      (some two_records) refl
