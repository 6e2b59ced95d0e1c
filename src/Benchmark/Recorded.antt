-- ===== src/Benchmark/Recorded.antt =====
-- What the recorder of packages/stats/storage.go holds after a run of packages/replayor/benchmark.go
-- with the replay strategy.
use replayor.Prelude.{
  ℕ, zero, suc, ◌+◌, ◌<◌, ◌≤◌, ◌-◌, u64_mod, false, ◌≡◌, refl, ◌∙◌, ap, some, List, [], ◌∷◌, ◌++◌,
  map, arith, count_up, append_assoc, append-nil, sym,
}
use mathlib.Core.List.{map-append}
use replayor.Exec.{Outcome, done, each, >>=-eq-done}
use replayor.Chain.{Block}
use replayor.Strategies.{BlockCreationParams}
use replayor.Strategies.Replay.{block_to_creation_params, one_for_one}
use replayor.Stats.{BlockCreationStats}
use replayor.Stats.Recorder.{StoredStats, record_block_stats}
use replayor.Benchmark.Batch.{SourceNode, concurrency, fetch}
use replayor.Benchmark.Enrich.{Options, enrich}
use replayor.Benchmark.Enrich.Kept.{enrich-IsOf}
use replayor.Benchmark.AddBlock.{Engine, Submission, block_stats}
use replayor.Benchmark.AddBlock.Accepted.{add_block-IsAccepted, block_hash-block_stats}
use replayor.Benchmark.Pipeline.Flow.{map_one}
use replayor.Benchmark.Pipeline.{Limits, Parts, Actor, submit_done}
use replayor.Benchmark.Pipeline.Delivery.{final, complete_run}
use replayor.Benchmark.Replayed.{
  replay-KeepsNumber, replay_block, replay_parts, validate_execution-none,
}

module _ {Tx Withdrawals World : Type 0} (engine : Engine Tx Withdrawals World) (options : Options)
    (node : SourceNode (Block Tx Withdrawals)) where
  abbrev pub recorded_hashes : Submission StoredStats World → List ℕ
  recorded_hashes s = map (λ (x : BlockCreationStats). x.block_hash) s.recorder.stats

  abbrev pub parts :
      Parts
        (Block Tx Withdrawals)
        (BlockCreationParams Tx Withdrawals)
        (Unit {0})
        (Submission StoredStats World)
  parts = replay_parts engine record_block_stats options node

  -- One block adds one record, with the hash of the source's block.
  recorded_hash :
      (b : Block Tx Withdrawals) (s s' : Submission StoredStats World)
      → replay_block engine record_block_stats options b s ≡ (done tt, s')
      → recorded_hashes s' ≡ recorded_hashes s ++ b.hash ∷ []
  unfolding one_for_one record_block_stats
  recorded_hash b s s' h =
      let (r, f, i, accepted) =
        add_block-IsAccepted engine record_block_stats one_for_one options
          (block_to_creation_params b) s s' h in
      let made : BlockCreationStats =
        block_stats engine record_block_stats one_for_one options (block_to_creation_params b) r f
          i in
      let e : (enrich (engine.dest_node s'.world) options made).block_hash ≡ b.hash =
        (enrich-IsOf (engine.dest_node s'.world) options made).0
        ∙ block_hash-block_stats engine record_block_stats one_for_one options
            (block_to_creation_params b) r f i
        ∙ validate_execution-none f.envelope b accepted.1 in
      ap (λ (t : StoredStats). map (λ (x : BlockCreationStats). x.block_hash) t.stats) accepted.5
      ∙ map-append (λ (x : BlockCreationStats). x.block_hash) s.recorder.stats _
      ∙ ap (λ hash. recorded_hashes s ++ hash ∷ []) e

  recorded_blocks :
      (bs : List (Block Tx Withdrawals)) (s s' : Submission StoredStats World)
      → each parts.add_block (map block_to_creation_params bs) s ≡ (done tt, s')
      → recorded_hashes s' ≡ recorded_hashes s ++ map (λ b. b.hash) bs
  unfolding each replay_parts
  recorded_blocks [] s s' h =
      let e : s ≡ s' = ap (λ (r : Outcome (Unit {0}) × Submission StoredStats World). r.1) h in
      ap recorded_hashes (sym e) ∙ sym (append-nil (recorded_hashes s))
  recorded_blocks (b ∷ bs) s s' h =
      let (_, t, first, rest) =
        >>=-eq-done (replay_block engine record_block_stats options b) _ s h in
      recorded_blocks bs t s' rest ∙ (rw (recorded_hash b s t first, append_assoc) refl)

  -- Where all blocks of a range are served, the mapper makes the parameters of these blocks.
  mapped_blocks :
      (first n : ℕ) (out out' : List (BlockCreationParams Tx Withdrawals)) (st st' : Unit {0})
      → ((i : ℕ) → i < n → (b : Block Tx Withdrawals) × (fetch node (first + i) ≡ some b))
      → each (map_one parts) (map (fetch node) (count_up first n)) (out, st)
        ≡ (done tt, (out', st'))
      → (bs : List (Block Tx Withdrawals)) × (map (fetch node) (count_up first n) ≡ map some bs)
        × (out' ≡ out ++ map block_to_creation_params bs)
  unfolding each map_one replay_parts one_for_one
  mapped_blocks first zero out out' st st' served h = (
    [],
    refl,
    ap (λ (r : Outcome (Unit {0}) × (List (BlockCreationParams Tx Withdrawals) × Unit {0})). r.1.0)
          (sym h)
        ∙ sym (append-nil out),
  )
  mapped_blocks first (suc n) out out' st st' served h =
      let (b, got) = served 0 (omega arith) in
      let start : first + 0 ≡ first = omega arith in
      let here : fetch node first ≡ some b = rw start at got in
      let (bs, fetched, made) =
        mapped_blocks (first + 1) n (out ++ block_to_creation_params b ∷ []) out' st st'
          (λ i lt.
            let shift : first + 1 + i ≡ first + suc i = omega arith in
            rw shift (served (suc i) (omega arith)))
          (rw here at h) in
      (
        b ∷ bs,
        rw (here, fetched) refl,
        made ∙ append_assoc out (block_to_creation_params b ∷ []) (map block_to_creation_params bs),
      )

  -- For a source that serves under a number the block of that number, a start block at most one
  -- past the end block and an end block 25 below 2 ^ 64: a run of the replay strategy that started
  -- with an empty recorder, and in which `submitBlocks` has returned without a cancellation, leaves
  -- one record for every block from the start block to the end block, in the order of the chain,
  -- each with the hash of the block that the source serves under its number.
  pub recorded_in_order :
      (limits : Limits) (s : Submission StoredStats World) (schedule : List Actor)
      → ((n : ℕ) (b : Block Tx Withdrawals) → fetch node n ≡ some b → b.number ≡ n)
      → limits.start_block_num ≤ limits.end_block_num + 1
      → limits.end_block_num + concurrency < u64_mod
      → s.recorder.stats ≡ []
      → (final parts limits tt s schedule).submitter ≡ submit_done
      → (final parts limits tt s schedule).cancelled ≡ false
      → (bs : List (Block Tx Withdrawals)) × (map
            (fetch node)
            (count_up limits.start_block_num (limits.end_block_num + 1 - limits.start_block_num))
          ≡ map some bs)
        × (recorded_hashes (final parts limits tt s schedule).world ≡ map (λ b. b.hash) bs)
  unfolding replay_parts
  recorded_in_order limits s schedule sourced ordered room empty returned running =
      let (numbers, (st, made), added, served) =
        complete_run parts limits tt s schedule ordered room (λ b. b.number)
          (replay-KeepsNumber engine record_block_stats options node sourced) returned running in
      let (bs, fetched, e) =
        mapped_blocks limits.start_block_num (limits.end_block_num + 1 - limits.start_block_num) []
          _ tt st served made in
      (bs, fetched, recorded_blocks bs s _ (rw e at added) ∙ (rw empty refl))
