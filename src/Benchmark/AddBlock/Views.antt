-- ===== src/Benchmark/AddBlock/Views.antt =====
-- `addBlock` of packages/replayor/benchmark.go over a recorder and over a view of it.
use replayor.Prelude.{ℕ, ◌≡◌, refl, ap, ◌∙◌, arith}
use replayor.Exec.{Exec, Outcome, continue, ◌>>=◌, done, stopped}
use replayor.Chain.{Envelope}
use replayor.Strategies.{BlockCreationParams, Strategy}
use replayor.Stats.{BlockCreationStats}
use replayor.Benchmark.Enrich.{Options, enrich}
use replayor.Benchmark.AddBlock.{
  Engine, Submission, block_stats, attributes, finish, request_payload, fetch_payload,
  import_payload, add_block,
}

module _ {Recorder View World : Type 0} (view : Recorder → View) where
  abbrev pub submission_view : Submission Recorder World → Submission View World
  submission_view s = record {
    previous_replayed_block_hash = s.previous_replayed_block_hash;
    recorder = view s.recorder;
    world = s.world;
  }

module _ {Tx Withdrawals Recorder View World Kept : Type 0} (engine : Engine Tx Withdrawals World)
    (record_block_stats : BlockCreationStats → Recorder → Recorder)
    (record_view : BlockCreationStats → View → View) (view : Recorder → View)
    (strategy : Strategy Tx Withdrawals Kept) (options : Options)
    (records : (x : BlockCreationStats) (r : Recorder)
      → view (record_block_stats x r) ≡ record_view x (view r)) where
  abbrev viewed :
      {A : Type 0} → Outcome A × Submission Recorder World → Outcome A × Submission View World
  viewed r = (r.0, submission_view view r.1)

  request_payload-view :
      (b : BlockCreationParams Tx Withdrawals) (s : Submission Recorder World)
      → request_payload engine record_view strategy options b (submission_view view s)
        ≡ viewed (request_payload engine record_block_stats strategy options b s)
  unfolding request_payload attributes
  request_payload-view b s = ground arith

  fetch_payload-view :
      (b : BlockCreationParams Tx Withdrawals) (id : ℕ) (s : Submission Recorder World)
      → fetch_payload engine record_view strategy options b id (submission_view view s)
        ≡ viewed (fetch_payload engine record_block_stats strategy options b id s)
  unfolding fetch_payload
  fetch_payload-view b id s = ground arith

  import_payload-view :
      (b : BlockCreationParams Tx Withdrawals) (e : Envelope) (s : Submission Recorder World)
      → import_payload engine record_view strategy options b e (submission_view view s)
        ≡ viewed (import_payload engine record_block_stats strategy options b e s)
  unfolding import_payload
  import_payload-view b e s = ground arith

  finish-view :
      (stats : BlockCreationStats) (s : Submission Recorder World)
      → finish engine record_view strategy options stats (submission_view view s)
        ≡ viewed (finish engine record_block_stats strategy options stats s)
  unfolding finish
  finish-view stats s =
      ground (arith, records (enrich (engine.dest_node s.world) options stats) s.recorder)

  bind-view :
      {A B : Type 0} (m : Exec (Submission Recorder World) A) (m' : Exec (Submission View World) A)
      (f : A → Exec (Submission Recorder World) B) (f' : A → Exec (Submission View World) B)
      → ((s : Submission Recorder World) → m' (submission_view view s) ≡ viewed (m s))
      → ((a : A) (s : Submission Recorder World) → f' a (submission_view view s) ≡ viewed (f a s))
      → (s : Submission Recorder World)
      → (m' >>= f') (submission_view view s) ≡ viewed ((m >>= f) s)
  bind-view {A} {B} m m' f f' first next s =
      ap (λ (r : Outcome A × Submission View World). continue r.0 f' r.1) (first s) ∙ after (m s)
    where
      after :
          (r : Outcome A × Submission Recorder World)
          → continue r.0 f' (submission_view view r.1) ≡ viewed (continue r.0 f r.1)
      after (done a, t) = next a t
      after (stopped c, t) = refl

  -- Seeing the recorder through a view that records alike changes nothing else.
  pub add_block-view :
      (b : BlockCreationParams Tx Withdrawals) (s : Submission Recorder World)
      → add_block engine record_view strategy options b (submission_view view s)
        ≡ viewed (add_block engine record_block_stats strategy options b s)
  unfolding add_block block_stats
  add_block-view b =
      bind-view (request_payload engine record_block_stats strategy options b)
        (request_payload engine record_view strategy options b) _ _ (request_payload-view b)
        λ r.
          bind-view (fetch_payload engine record_block_stats strategy options b r.payload_id)
            (fetch_payload engine record_view strategy options b r.payload_id) _ _
            (fetch_payload-view b r.payload_id)
            λ f.
              bind-view (import_payload engine record_block_stats strategy options b f.envelope)
                (import_payload engine record_view strategy options b f.envelope) _ _
                (import_payload-view b f.envelope)
                λ i. finish-view (block_stats engine record_block_stats strategy options b r f i)
