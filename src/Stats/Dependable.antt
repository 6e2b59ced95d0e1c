-- ===== src/Stats/Dependable.antt =====
-- The storages of packages/stats under the recorder of storage.go: what a write leaves, also where the
-- encoder, the disk or the object store fail.
use mathlib.Core.Path.{subst}
use replayor.Prelude.{ℕ, ◌+◌, ◌≡◌, ap, ◌⊎◌, arith, Bool-cases, str_eq, String, none, List, inl, inr}
use replayor.Exec.{Result, ok, err, Result-cases}
use replayor.Config.{ReplayorConfig}
use replayor.Stats.{BlockCreationStats}
use replayor.Stats.Storage.{
  file_written, Storage, Json, disk_write, s3_write, disk_storage, s3_storage,
}
use replayor.Stats.Recorder.{StoredStats, write_stats}
use replayor.Stats.Create.{
  Places, disk_dir, disk_path, s3_file_name, new_disk_storage, new_s3_storage, new_storage,
}
use replayor.Stats.Written.{disk_read-disk_write, s3_read-s3_write}

-- What is asked of the code that is called, for a context that is not cancelled: decoding undoes
-- encoding, where the encoder accepts the records; a file or an object that was written without an error
-- is read as it was written; and a retried call succeeds with an attempt that succeeds, and fails, where
-- it is given attempts, after one that fails.
pub record IsReliable {Bytes World : Type 0} (json : Json Bytes) (places : Places Bytes World)
    (retry_do : ℕ → (World → Result (Unit {0}) × World) → World → Result (Unit {0}) × World)
    : Type 0 where
  pub decoded :
      (stats : List BlockCreationStats) (b : Bytes)
      → json.marshal stats ≡ ok b
      → json.decode b ≡ (stats, none)
  pub written :
      (path : String) (b : Bytes) (w : World)
      → (places.files.write_file path b w).0 ≡ ok tt
      → places.files.read_file path (places.files.write_file path b w).1 ≡ ok b
  pub put :
      (bucket name : String) (b : Bytes) (w : World)
      → (places.objects.put_object bucket name b w).0 ≡ ok tt
      → places.objects.get_object bucket name (places.objects.put_object bucket name b w).1 ≡ ok b
  pub succeeded :
      (n : ℕ) (op : World → Result (Unit {0}) × World) (w w' : World)
      → retry_do n op w ≡ (ok tt, w')
      → (w₀ : World) × (op w₀ ≡ (ok tt, w'))
  pub failed :
      (n : ℕ) (op : World → Result (Unit {0}) × World) (w w' : World) (e : String)
      → retry_do (n + 1) op w ≡ (err e, w')
      → (w₀ : World) × (e' : String) × (op w₀ ≡ (err e', w'))

module _ {Bytes World : Type 0} (json : Json Bytes) (places : Places Bytes World) where
  -- Records could not be stored: the encoder refuses them, or the last thing that happened is that the
  -- file could not be written, or the object not be put.
  abbrev pub IsRefused : List BlockCreationStats → World → Type 0
  IsRefused stats w =
      ((e : String) × (json.marshal stats ≡ err e))
      ⊎ (b : Bytes) × (json.marshal stats ≡ ok b)
        × (((path : String) × (w₀ : World) × (e : String) × (places.files.write_file path b w₀
                ≡ (err e, w)))
            ⊎ ((bucket : String) × (name : String) × (w₀ : World) × (e : String)
                × (places.objects.put_object bucket name b w₀ ≡ (err e, w))))

  -- The storage reads the records, or they could not be stored.
  abbrev pub IsStored : Storage World → List BlockCreationStats → World → Type 0
  IsStored storage stats w = ((storage.read w).0 ≡ ok stats) ⊎ IsRefused stats w

  -- What a write of a storage leaves.
  pub record IsDependable (storage : Storage World) : Type 0 where
    pub stored :
        (stats : List BlockCreationStats) (w w' : World)
        → storage.write stats w ≡ (ok tt, w')
        → (storage.read w').0 ≡ ok stats
    pub refused :
        (stats : List BlockCreationStats) (w w' : World) (e : String)
        → storage.write stats w ≡ (err e, w')
        → IsRefused stats w'

  module _ (retry_do : ℕ → (World → Result (Unit {0}) × World) → World → Result (Unit {0}) × World)
      (reliable : IsReliable json places retry_do) where
    -- A write of the recorder stores its records, or they could not be stored.
    pub write_stats-IsStored :
        (storage : Storage World)
        → IsDependable storage
        → (r : StoredStats) (w : World)
        → IsStored storage r.stats (write_stats storage retry_do r w).1
    unfolding write_stats
    write_stats-IsStored storage writes r w =
        let left = (retry_do 3 (storage.write r.stats) w).1 in
        elim (Result-cases (retry_do 3 (storage.write r.stats) w).0) [
          | inl (u, accepted) ↦
              let (w₀, wrote) =
                reliable.succeeded 3 (storage.write r.stats) w left
                  (ap (λ (x : Result (Unit {0})). (x, left)) accepted) in
              inl (writes.stored r.stats w₀ left wrote)
          | inr (e, refused) ↦
              let (w₀, e', failed) =
                reliable.failed 2 (storage.write r.stats) w left e
                  (ap (λ (x : Result (Unit {0})). (x, left)) refused) in
              inr (writes.refused r.stats w₀ left e' failed)
        ]

    disk_write-IsRefused :
        (path : String) (stats : List BlockCreationStats) (w w' : World) (e : String)
        → disk_write json places.files path stats w ≡ (err e, w')
        → IsRefused stats w'
    unfolding disk_write file_written
    disk_write-IsRefused path stats w w' e h = elim (Result-cases (json.marshal stats)) [
      | inr (e', unencoded) ↦ inl (e', unencoded)
      | inl (b, encoded) ↦ elim (Result-cases (places.files.write_file path b w).0) [
        | inl (u, written) ↦ ground arith
        | inr (e', failed) ↦
            let left : (places.files.write_file path b w).1 ≡ w' = ground arith in
            inr (b, encoded, inl (path, w, e', cc))
      ]
    ]

    s3_write-IsRefused :
        (bucket name : String) (stats : List BlockCreationStats) (w w' : World) (e : String)
        → s3_write json places.objects bucket name stats w ≡ (err e, w')
        → IsRefused stats w'
    unfolding s3_write
    s3_write-IsRefused bucket name stats w w' e h = elim (Result-cases (json.marshal stats)) [
      | inr (e', unencoded) ↦ inl (e', unencoded)
      | inl (b, encoded) ↦ inr (b, encoded, inr (bucket, name, w, e, ground arith))
    ]

    disk_storage-IsDependable : (path : String) → IsDependable (disk_storage json places.files path)
    disk_storage-IsDependable path = record {
      stored = λ stats w w' h.
          ap (λ (x : Result (List BlockCreationStats) × World). x.0)
            (disk_read-disk_write json reliable.decoded places.files path (reliable.written path)
              stats w w' h);
      refused = disk_write-IsRefused path;
    }

    s3_storage-IsDependable :
        (bucket name : String) → IsDependable (s3_storage json places.objects bucket name)
    s3_storage-IsDependable bucket name = record {
      stored = λ stats w w' h.
          ap (λ (x : Result (List BlockCreationStats) × World). x.0)
            (s3_read-s3_write json reliable.decoded places.objects bucket name
              (reliable.put bucket name) stats w w' h);
      refused = s3_write-IsRefused bucket name;
    }

    disk_created-IsDependable :
        (cfg : ReplayorConfig) (w w' : World) (s : Storage World)
        → new_disk_storage json places cfg w ≡ (ok s, w')
        → IsDependable s
    unfolding new_disk_storage
    disk_created-IsDependable cfg w w' s h =
        elim (Result-cases (places.files.mkdir_all (disk_dir json places cfg) w).0) [
          | inr (e, failed) ↦ let k = simp failed at h in cc
          | inl (u, made) ↦
              let k = simp made at h in
              let path = disk_path json places cfg w in
              let same : disk_storage json places.files path ≡ s = cc in
              subst IsDependable same (disk_storage-IsDependable path)
        ]

    s3_created-IsDependable :
        (cfg : ReplayorConfig) (w w' : World) (s : Storage World)
        → new_s3_storage json places cfg w ≡ (ok s, w')
        → IsDependable s
    unfolding new_s3_storage
    s3_created-IsDependable cfg w w' s h = elim (Result-cases (places.objects.connect w).0) [
      | inr (e, failed) ↦ let k = simp failed at h in cc
      | inl (u, connected) ↦
          let k = simp connected at h in
          let name = s3_file_name json places cfg (places.objects.connect w).1 in
          let same : s3_storage json places.objects cfg.bucket name ≡ s = cc in
          subst IsDependable same (s3_storage-IsDependable cfg.bucket name)
    ]

    -- Whichever storage a configuration asks for, a write to it stores the records, or says that they
    -- could not be stored.
    pub new_storage-IsDependable :
        (cfg : ReplayorConfig) (w w' : World) (s : Storage World)
        → new_storage json places cfg w ≡ (ok s, w')
        → IsDependable s
    unfolding new_storage
    new_storage-IsDependable cfg w w' s h = elim (Bool-cases (str_eq cfg.storage_type "s3")) [
      | inl s3 ↦ s3_created-IsDependable cfg w w' s (simp s3 at h)
      | inr other ↦ elim (Bool-cases (str_eq cfg.storage_type "disk")) [
        | inl disk ↦ disk_created-IsDependable cfg w w' s (simp (other, disk) at h)
        | inr unknown ↦ let k = simp (other, unknown) at h in cc
      ]
    ]
