-- ===== src/Stats/Written.antt =====
-- What packages/stats/disk.go, s3.go and storage.go read back of what they wrote.
use replayor.Prelude.{◌≡◌, refl, String, none, List, arith, inl, inr}
use replayor.Exec.{ok, Result-cases}
use replayor.Stats.{BlockCreationStats}
use replayor.Stats.Storage.{Json, Files, Objects, disk_write, disk_read, s3_write, s3_read}

module _ {Bytes World : Type 0} (json : Json Bytes)
    (decoded : (stats : List BlockCreationStats) (b : Bytes)
      → json.marshal stats ≡ ok b
      → json.decode b ≡ (stats, none)) where
  -- Where decoding undoes encoding and a file that was written without an error holds what was
  -- written, the records that a disk storage wrote without an error are those that it reads.
  pub disk_read-disk_write :
      (files : Files Bytes World) (path : String)
      → ((b : Bytes) (w : World)
          → (files.write_file path b w).0 ≡ ok tt
          → files.read_file path (files.write_file path b w).1 ≡ ok b)
      → (stats : List BlockCreationStats) (w w' : World)
      → disk_write json files path stats w ≡ (ok tt, w')
      → disk_read json files path w' ≡ (ok stats, w')
  unfolding disk_write disk_read
  disk_read-disk_write files path kept stats w w' h = elim (Result-cases (json.marshal stats)) [
    | inr (e, failed) ↦ ground arith
    | inl (b, encoded) ↦ elim (Result-cases (files.write_file path b w).0) [
      | inr (e, failed) ↦ ground arith
      | inl (u, written) ↦
          let there = kept b w written in let read = decoded stats b encoded in ground arith
    ]
  ]

  -- Where decoding undoes encoding and the object store hands out what was put without an error
  -- under a bucket and a name, the records that an S3 storage wrote without an error are those that
  -- it reads.
  pub s3_read-s3_write :
      (s3 : Objects Bytes World) (bucket file_name : String)
      → ((b : Bytes) (w : World)
          → (s3.put_object bucket file_name b w).0 ≡ ok tt
          → s3.get_object bucket file_name (s3.put_object bucket file_name b w).1 ≡ ok b)
      → (stats : List BlockCreationStats) (w w' : World)
      → s3_write json s3 bucket file_name stats w ≡ (ok tt, w')
      → s3_read json s3 bucket file_name w' ≡ (ok stats, w')
  unfolding s3_write s3_read
  s3_read-s3_write s3 bucket file_name kept stats w w' h =
      elim (Result-cases (json.marshal stats)) [
        | inr (e, failed) ↦ ground arith
        | inl (b, encoded) ↦
            let put : s3.put_object bucket file_name b w ≡ (ok tt, w') = ground arith in
            let there : s3.get_object bucket file_name w' ≡ ok b =
              rw put at (kept b w (rw put refl)) in
            let read = decoded stats b encoded in ground arith
      ]
