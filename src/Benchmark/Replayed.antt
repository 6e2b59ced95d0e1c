-- ===== src/Benchmark/Replayed.antt =====
-- The replay strategy of packages/strategies/replay.go under `addBlock` of
-- packages/replayor/benchmark.go: the node ends on the source's own blocks.
use replayor.Prelude.{
  ℕ, ◌+◌, ◌≤◌, ◌<◌, ◌-◌, u64_mod, map-count_up-append, ◌≡◌, refl, ◌∙◌, false, none, some, List, [],
  ◌∷◌, ◌++◌, arith,
}
use replayor.Exec.{Exec, done, each, each-one, each-append-inv}
use replayor.Chain.{Block, Envelope}
use replayor.Strategies.{BlockCreationParams}
use replayor.Strategies.Replay.{block_to_creation_params, validate_execution, one_for_one}
use replayor.Stats.{BlockCreationStats}
use replayor.Benchmark.Batch.{SourceNode, concurrency, fetch}
use replayor.Benchmark.Pipeline.{Limits, Parts, Actor, submit_done}
use replayor.Benchmark.Pipeline.Flow.{map_one, blocks}
use replayor.Benchmark.Pipeline.Numbers.{KeepsNumber}
use replayor.Benchmark.Pipeline.Delivery.{final, complete_run}
use replayor.Benchmark.Enrich.{Options}
use replayor.Benchmark.AddBlock.{Engine, Submission, add_block}
use replayor.Benchmark.AddBlock.Accepted.{IsHead, add_block-IsAccepted}

-- The check passes exactly on the source block's own hash.
pub validate_execution-none :
    {Tx Withdrawals : Type 0} (e : Envelope) (b : Block Tx Withdrawals)
    → validate_execution e (block_to_creation_params b) ≡ done none
    → e.execution_payload.block_hash ≡ b.hash
unfolding validate_execution block_to_creation_params
validate_execution-none e b h = ground arith

module _ {Tx Withdrawals Recorder World : Type 0} (engine : Engine Tx Withdrawals World)
    (record_block_stats : BlockCreationStats → Recorder → Recorder) (options : Options) where
  abbrev pub replay_block : Block Tx Withdrawals → Exec (Submission Recorder World) (Unit {0})
  replay_block b =
      add_block engine record_block_stats one_for_one options (block_to_creation_params b)

  -- A block that `addBlock` returns for under the replay strategy has the hash of the source block.
  pub replayed_hash :
      (b : Block Tx Withdrawals) (s s' : Submission Recorder World)
      → replay_block b s ≡ (done tt, s')
      → s'.previous_replayed_block_hash ≡ b.hash
  unfolding one_for_one
  replayed_hash b s s' h =
      let (r, f, i, accepted) =
        add_block-IsAccepted engine record_block_stats one_for_one options
          (block_to_creation_params b) s s' h in
      accepted.4 ∙ validate_execution-none f.envelope b accepted.1

  -- That hash is the one that was made the head of the node last.
  replayed-IsHead :
      (b : Block Tx Withdrawals) (s s' : Submission Recorder World)
      → replay_block b s ≡ (done tt, s')
      → IsHead engine record_block_stats one_for_one options b.hash s'.world
  unfolding one_for_one
  replayed-IsHead b s s' h =
      let (r, f, i, accepted) =
        add_block-IsAccepted engine record_block_stats one_for_one options
          (block_to_creation_params b) s s' h in
      rw (validate_execution-none f.envelope b accepted.1) at accepted.3

  abbrev pub IsReplayed : Block Tx Withdrawals → Submission Recorder World → Type 0
  IsReplayed b s =
      (s.previous_replayed_block_hash ≡ b.hash)
      × IsHead engine record_block_stats one_for_one options b.hash s.world

  module _ (node : SourceNode (Block Tx Withdrawals)) where
    -- The pipeline of a benchmark that walks the chain with the replay strategy.
    unfoldable pub replay_parts :
        Parts
          (Block Tx Withdrawals)
          (BlockCreationParams Tx Withdrawals)
          (Unit {0})
          (Submission Recorder World)
    replay_parts = record {
      source = node;
      number = λ x. x.number;
      block_received = one_for_one.block_received;
      add_block = add_block engine record_block_stats one_for_one options;
    }

    pub replay-KeepsNumber :
        ((n : ℕ) (b : Block Tx Withdrawals) → fetch node n ≡ some b → b.number ≡ n)
        → KeepsNumber replay_parts (λ b. b.number)
    unfolding replay_parts one_for_one block_to_creation_params
    replay-KeepsNumber sourced = record {
      sourced = sourced;
      kept = λ b st r h. (block_to_creation_params b, ground arith, refl);
    }

    mapped_last :
        (b : Block Tx Withdrawals) (n : ℕ) (mid out : List (BlockCreationParams Tx Withdrawals))
        (st st' : Unit {0})
        → fetch node n ≡ some b
        → each (map_one replay_parts) (fetch node n ∷ []) (mid, st) ≡ (done tt, (out, st'))
        → out ≡ mid ++ block_to_creation_params b ∷ []
    unfolding map_one replay_parts one_for_one
    mapped_last b n mid out st st' e h =
        let one : map_one replay_parts (some b) (mid, st) ≡ (done tt, (out, st')) =
          rw e at (each-one (map_one replay_parts) (fetch node n) (mid, st) (out, st') h) in
        ground arith

    last_hash :
        (first n : ℕ) (b : Block Tx Withdrawals) (out : List (BlockCreationParams Tx Withdrawals))
        (s s' : Submission Recorder World) (st : Unit {0})
        → fetch node (first + n) ≡ some b
        → each (map_one replay_parts) (blocks replay_parts first (n + 1)) ([], tt)
          ≡ (done tt, (out, st))
        → each replay_parts.add_block out s ≡ (done tt, s')
        → IsReplayed b s'
    unfolding replay_parts
    last_hash first n b out s s' st e made added =
        let ((mid, st₁), before, last) =
          each-append-inv (map_one replay_parts) (blocks replay_parts first n)
            (fetch node (first + n) ∷ []) ([], tt) (out, st)
            (rw (map-count_up-append (fetch node) first n 1) at made) in
        let grown = mapped_last b (first + n) mid out st₁ st e last in
        let (t, first_adds, last_add) =
          each-append-inv replay_parts.add_block mid (block_to_creation_params b ∷ []) s s'
            (rw grown at added) in
        let adds = each-one replay_parts.add_block (block_to_creation_params b) t s' last_add in
        (replayed_hash b t s' adds, replayed-IsHead b t s' adds)

    end_hash :
        (first last : ℕ) (b : Block Tx Withdrawals)
        (out : List (BlockCreationParams Tx Withdrawals)) (s s' : Submission Recorder World)
        (st : Unit {0})
        → first ≤ last
        → fetch replay_parts.source (first + (last - first)) ≡ some b
        → each (map_one replay_parts) (blocks replay_parts first (last + 1 - first)) ([], tt)
          ≡ (done tt, (out, st))
        → each replay_parts.add_block out s ≡ (done tt, s')
        → (fetch node last ≡ some b) × IsReplayed b s'
    unfolding replay_parts
    end_hash first last b out s s' st le got made added =
        let whole : last + 1 - first ≡ (last - first) + 1 = omega arith in
        let end : first + (last - first) ≡ last = omega arith in
        (rw end at got, last_hash first (last - first) b out s s' st got (rw whole at made) added)

    -- For a source that serves under a number the block of that number, an end block not before the
    -- start block and 25 below 2 ^ 64: whatever the schedule, a run of the replay strategy in which
    -- `submitBlocks` has returned without a cancellation has fetched the end block of the source chain
    -- and keeps its hash as the one that the next block would build on; and it leaves the node where a
    -- forkchoice update that named this hash for all heads, and that the engine answered as valid, left
    -- it, with one reading of the clock since.
    pub walk_up_hash :
        (limits : Limits) (s : Submission Recorder World) (schedule : List Actor)
        → ((n : ℕ) (b : Block Tx Withdrawals) → fetch node n ≡ some b → b.number ≡ n)
        → limits.start_block_num ≤ limits.end_block_num
        → limits.end_block_num + concurrency < u64_mod
        → (final replay_parts limits tt s schedule).submitter ≡ submit_done
        → (final replay_parts limits tt s schedule).cancelled ≡ false
        → (b : Block Tx Withdrawals) × (fetch node limits.end_block_num ≡ some b)
          × IsReplayed b (final replay_parts limits tt s schedule).world
    walk_up_hash limits s schedule sourced ordered room returned running =
        let (numbers, (st, made), added, served) =
          complete_run replay_parts limits tt s schedule (omega arith) room (λ b. b.number)
            (replay-KeepsNumber sourced) returned running in
        let (b, got) = served (limits.end_block_num - limits.start_block_num) (omega arith) in
        let (fetched, hash) =
          end_hash limits.start_block_num limits.end_block_num b
            (final replay_parts limits tt s schedule).submitted s
            (final replay_parts limits tt s schedule).world st ordered got made added in
        (b, fetched, hash)
