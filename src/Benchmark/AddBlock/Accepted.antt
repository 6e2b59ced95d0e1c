-- ===== src/Benchmark/AddBlock/Accepted.antt =====
-- What holds of a block for which `addBlock` of packages/replayor/benchmark.go returns.
use replayor.Prelude.{ℕ, ◌≡◌, refl, ◌∙◌, inl, inr, none, some, List, arith}
use replayor.Exec.{done, ok, Result-cases, >>=-eq-done}
use replayor.Chain.{Envelope, execution_valid, ForkchoiceUpdatedResult}
use replayor.Strategies.{BlockCreationParams, Strategy}
use replayor.Stats.{BlockCreationStats}
use replayor.Benchmark.Enrich.{Options, enrich}
use replayor.Benchmark.AddBlock.{
  Engine, Submission, all_heads, marshal_all, Requested, Fetched, Imported, attributes, block_stats,
  finish, request_payload, fetch_payload, import_payload, add_block,
}

module _ {Tx Withdrawals Recorder World Kept : Type 0} (engine : Engine Tx Withdrawals World)
    (record_block_stats : BlockCreationStats → Recorder → Recorder)
    (strategy : Strategy Tx Withdrawals Kept) (options : Options) where
  abbrev pub State : Type 0
  State = Submission Recorder World

  request_payload-keeps :
      (b : BlockCreationParams Tx Withdrawals) (s s' : State) (r : Requested)
      → request_payload engine record_block_stats strategy options b s ≡ (done r, s')
      → (s'.previous_replayed_block_hash ≡ s.previous_replayed_block_hash)
        × (s'.recorder ≡ s.recorder)
  unfolding request_payload
  request_payload-keeps b s s' r h = ground arith

  fetch_payload-keeps :
      (b : BlockCreationParams Tx Withdrawals) (id : ℕ) (s s' : State) (f : Fetched)
      → fetch_payload engine record_block_stats strategy options b id s ≡ (done f, s')
      → (s'.previous_replayed_block_hash ≡ s.previous_replayed_block_hash)
        × (s'.recorder ≡ s.recorder)
        × (strategy.validate_execution f.envelope b ≡ done none)
  unfolding fetch_payload
  fetch_payload-keeps b id s s' f h = ground arith

  -- The last call of a block's import made its hash the head, and the node said that it is valid.
  abbrev pub IsHead : ℕ → World → Type 0
  IsHead hash w =
      (w₀ : World) × (result : ForkchoiceUpdatedResult) × ((engine.forkchoice_update
          (all_heads hash) none w₀).0
        ≡ ok result)
      × (result.payload_status ≡ execution_valid)
      × ((engine.now (engine.forkchoice_update (all_heads hash) none w₀).1).1 ≡ w)

  import_payload-keeps :
      (b : BlockCreationParams Tx Withdrawals) (e : Envelope) (s s' : State) (i : Imported)
      → import_payload engine record_block_stats strategy options b e s ≡ (done i, s')
      → (s'.previous_replayed_block_hash ≡ s.previous_replayed_block_hash)
        × (s'.recorder ≡ s.recorder)
        × (strategy.validate_block e b ≡ done none)
  unfolding import_payload
  import_payload-keeps b e s s' i h = ground arith

  import_payload-IsHead :
      (b : BlockCreationParams Tx Withdrawals) (e : Envelope) (s s' : State) (i : Imported)
      → import_payload engine record_block_stats strategy options b e s ≡ (done i, s')
      → IsHead e.execution_payload.block_hash s'.world
  unfolding import_payload
  import_payload-IsHead b e s s' i h =
      let w : World =
        (engine.now
          (engine.new_payload e.execution_payload e.parent_beacon_block_root
            (engine.now s.world).1).1).1 in
      elim (Result-cases
        (engine.forkchoice_update (all_heads e.execution_payload.block_hash) none w).0) [
          | inl (result, answered) ↦ (w, result, answered, ground arith, ground arith)
          | inr (e', failed) ↦ ground arith
        ]

  -- The first call asks the node to build on the hash of the block replayed before, with the
  -- attributes of this one, and the node said that this is valid and named the payload.
  abbrev pub IsRequested : BlockCreationParams Tx Withdrawals → State → Requested → Type 0
  IsRequested b s r =
      (txn_data : List (List ℕ)) × (result : ForkchoiceUpdatedResult) × (marshal_all
          engine.marshal_binary b.transactions
        ≡ ok txn_data)
      × ((engine.forkchoice_update (all_heads s.previous_replayed_block_hash)
            (some (attributes engine record_block_stats strategy options b txn_data))
            (engine.now s.world).1).0
          ≡ ok result)
      × (result.payload_status ≡ execution_valid)
      × (result.payload_id ≡ some r.payload_id)

  request_payload-IsRequested :
      (b : BlockCreationParams Tx Withdrawals) (s s' : State) (r : Requested)
      → request_payload engine record_block_stats strategy options b s ≡ (done r, s')
      → IsRequested b s r
  unfolding request_payload
  request_payload-IsRequested b s s' r h =
      elim (Result-cases (marshal_all engine.marshal_binary b.transactions)) [
        | inr (e, failed) ↦ ground arith
        | inl (txn_data, encoded) ↦
            elim (Result-cases
              (engine.forkchoice_update (all_heads s.previous_replayed_block_hash)
                (some (attributes engine record_block_stats strategy options b txn_data))
                (engine.now s.world).1).0) [
                  | inl (result, answered) ↦
                      (txn_data, result, encoded, answered, ground arith, ground arith)
                  | inr (e, failed) ↦ ground arith
                ]
      ]

  abbrev pub IsAccepted :
      BlockCreationParams Tx Withdrawals → State → State → Requested → Fetched → Imported → Type 0
  IsAccepted b s s' r f i =
      IsRequested b s r
      × (strategy.validate_execution f.envelope b ≡ done none)
      × (strategy.validate_block f.envelope b ≡ done none)
      × IsHead f.envelope.execution_payload.block_hash s'.world
      × (s'.previous_replayed_block_hash ≡ f.envelope.execution_payload.block_hash)
      × (s'.recorder
          ≡ record_block_stats
              (enrich (engine.dest_node s'.world) options
                (block_stats engine record_block_stats strategy options b r f i))
              s.recorder)

  finish-eq :
      (stats : BlockCreationStats) (s s' : State)
      → finish engine record_block_stats strategy options stats s ≡ (done tt, s')
      → (s'.world ≡ s.world)
        × (s'.previous_replayed_block_hash ≡ stats.block_hash)
        × (s'.recorder
            ≡ record_block_stats (enrich (engine.dest_node s'.world) options stats) s.recorder)
  unfolding finish
  finish-eq stats s s' h = ground arith

  pub block_hash-block_stats :
      (b : BlockCreationParams Tx Withdrawals) (r : Requested) (f : Fetched) (i : Imported)
      → (block_stats engine record_block_stats strategy options b r f i).block_hash
        ≡ f.envelope.execution_payload.block_hash
  unfolding block_stats
  block_hash-block_stats b r f i = refl

  parts-IsAccepted :
      (b : BlockCreationParams Tx Withdrawals) (s s₁ s₂ s₃ s' : State) (r : Requested) (f : Fetched)
      (i : Imported)
      → request_payload engine record_block_stats strategy options b s ≡ (done r, s₁)
      → fetch_payload engine record_block_stats strategy options b r.payload_id s₁ ≡ (done f, s₂)
      → import_payload engine record_block_stats strategy options b f.envelope s₂ ≡ (done i, s₃)
      → finish engine record_block_stats strategy options
          (block_stats engine record_block_stats strategy options b r f i)
          s₃
        ≡ (done tt, s')
      → IsAccepted b s s' r f i
  parts-IsAccepted b s s₁ s₂ s₃ s' r f i p q t h =
      let (same_world, hash, recorded) = finish-eq _ s₃ s' h in
      let (prev₁, rec₁) = request_payload-keeps b s s₁ r p in
      let (prev₂, rec₂, valid) = fetch_payload-keeps b r.payload_id s₁ s₂ f q in
      let (prev₃, rec₃, valid') = import_payload-keeps b f.envelope s₂ s₃ i t in
      (
        request_payload-IsRequested b s s₁ r p,
        valid,
        valid',
        (rw same_world (import_payload-IsHead b f.envelope s₂ s₃ i t)),
        hash ∙ block_hash-block_stats b r f i,
        cc (recorded, rec₁, rec₂, rec₃),
      )

  -- When `addBlock` returns, the payload passed both validations, the node was asked to build on the
  -- hash replayed before and answered that its last head, the payload's hash, is valid; that hash is
  -- the one the next block builds on; and one record was added, the enriched one of this block.
  pub add_block-IsAccepted :
      (b : BlockCreationParams Tx Withdrawals) (s s' : Submission Recorder World)
      → add_block engine record_block_stats strategy options b s ≡ (done tt, s')
      → (r : Requested) × (f : Fetched) × (i : Imported) × IsAccepted b s s' r f i
  unfolding add_block
  add_block-IsAccepted b s s' h =
      let (r, s₁, p, h₁) =
        >>=-eq-done (request_payload engine record_block_stats strategy options b) _ s h in
      let (f, s₂, q, h₂) =
        >>=-eq-done (fetch_payload engine record_block_stats strategy options b r.payload_id) _ s₁
          h₁ in
      let (i, s₃, t, h₃) =
        >>=-eq-done (import_payload engine record_block_stats strategy options b f.envelope) _ s₂
          h₂ in
      (r, f, i, parts-IsAccepted b s s₁ s₂ s₃ s' r f i p q t h₃)
