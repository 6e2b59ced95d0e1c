-- ===== src/Benchmark/Pipeline/Ends.antt =====
-- Why the goroutines of packages/replayor/benchmark.go end, how full the channels get, and what
-- `remainingBlockCount` counts.
use replayor.Prelude.{
  ℕ, ◌+◌, ◌%◌, ◌≤◌, ◌<◌, ◌≡◌, refl, ◌⊎◌, true, false, Option, none, some, List, [], ◌∷◌, arith,
  length, length-append, u64_mod, All, All-append,
}
use replayor.Benchmark.Pipeline.{
  capacity, Parts, Loader, ranging, pushing, load_done, Mapper, mapping, emitting, map_done,
  Submitter, submitting, submit_done, Pipeline, Actor, load, map_next, map_cancel, submit_next,
  submit_cancel, cancel, crash, batch_loaded, load_step, block_mapped, receive_incoming, map_step,
  map_cancel_step, block_added, receive_process, submit_step, submit_cancel_step, act,
}

module _ {Block Params Strategy World : Type 0} (parts : Parts Block Params Strategy World)
    (last count : ℕ) where
  abbrev State : Type 0
  State = Pipeline Block Params Strategy World

  pub record Ends (p : State) : Type 0 where
    -- `incomingBlocks` is closed by the loader when it returns
    pub closing : p.incoming_closed ≡ true → p.loader ≡ load_done
    -- `processBlocks` is closed by the mapper when it has seen the end of `incomingBlocks`
    pub closed :
        p.process_closed ≡ true → (p.mapper ≡ map_done) × (p.loader ≡ load_done) × (p.incoming ≡ [])
    -- without a cancellation the submitter returns for one of two reasons
    pub reason :
        p.submitter ≡ submit_done
        → p.cancelled ≡ false
        → ((p.process_closed ≡ true) × (p.process ≡ []) × (p.rejected ≡ []))
          ⊎ ((x : Params) × (p.rejected ≡ x ∷ []))
    pub unrejected : p.submitter ≡ submitting → p.rejected ≡ []
    pub within : All (λ x. parts.number x ≤ last) p.submitted
    pub beyond : All (λ x. last < parts.number x) p.rejected
    pub incoming_fits : length p.incoming ≤ capacity
    pub process_fits : length p.process ≤ capacity
    pub small : count < u64_mod → p.remaining_block_count < u64_mod
    pub counted : (p.remaining_block_count + length p.submitted) % u64_mod ≡ count % u64_mod

  load-Ends :
      (order : List ℕ) (loader : Loader Block) (p : State)
      → p.loader ≡ loader
      → Ends p
      → Ends (load_step parts last order loader p)
  unfolding load_step batch_loaded crash
  load-Ends order (ranging s) p e h = ground arith
  load-Ends order (pushing [] s) p e h = ground arith
  load-Ends order (pushing (b ∷ bs) s) p e h = ground (arith, length-append p.incoming (b ∷ []))
  load-Ends order load_done p e h = h

  received-Ends :
      (incoming : List (Option Block)) (p : State)
      → p.incoming ≡ incoming
      → p.mapper ≡ mapping
      → Ends p
      → Ends (receive_incoming parts last incoming p)
  unfolding receive_incoming block_mapped crash
  received-Ends [] p i m h = ground arith
  received-Ends (none ∷ rest) p i m h = ground arith
  received-Ends (some b ∷ rest) p i m h = ground arith

  map-Ends :
      (mapper : Mapper Params) (p : State)
      → p.mapper ≡ mapper
      → Ends p
      → Ends (map_step parts last mapper p)
  unfolding map_step
  map-Ends mapping p e h = received-Ends p.incoming p refl e h
  map-Ends (emitting x) p e h = ground (arith, length-append p.process (x ∷ []))
  map-Ends map_done p e h = h

  taken-Ends :
      (process : List Params) (p : State)
      → p.process ≡ process
      → p.submitter ≡ submitting
      → Ends p
      → Ends (receive_process parts last process p)
  unfolding receive_process block_added crash
  taken-Ends [] p i m h = ground arith
  taken-Ends (x ∷ rest) p i m h = ground (
    arith,
    length-append p.submitted (x ∷ []),
    λ (le : parts.number x ≤ last).
        All-append (λ x. parts.number x ≤ last) p.submitted (x ∷ []) h.within (le, tt),
  )

  submit-Ends :
      (submitter : Submitter) (p : State)
      → p.submitter ≡ submitter
      → Ends p
      → Ends (submit_step parts last submitter p)
  unfolding submit_step
  submit-Ends submitting p e h = taken-Ends p.process p refl e h
  submit-Ends submit_done p e h = h

  map_cancel-Ends :
      (mapper : Mapper Params) (p : State)
      → p.mapper ≡ mapper
      → Ends p
      → Ends (map_cancel_step parts last mapper p)
  unfolding map_cancel_step
  map_cancel-Ends mapping p e h = ground arith
  map_cancel-Ends (emitting x) p e h = h
  map_cancel-Ends map_done p e h = h

  submit_cancel-Ends :
      (submitter : Submitter) (p : State)
      → p.submitter ≡ submitter
      → Ends p
      → Ends (submit_cancel_step parts last submitter p)
  unfolding submit_cancel_step
  submit_cancel-Ends submitting p e h = ground arith
  submit_cancel-Ends submit_done p e h = h

  pub act-Ends :
      (a : Actor) (p : Pipeline Block Params Strategy World) → Ends p → Ends (act parts last a p)
  unfolding act
  act-Ends (load order) p h = load-Ends order p.loader p refl h
  act-Ends map_next p h = map-Ends p.mapper p refl h
  act-Ends map_cancel p h = map_cancel-Ends p.mapper p refl h
  act-Ends submit_next p h = submit-Ends p.submitter p refl h
  act-Ends submit_cancel p h = submit_cancel-Ends p.submitter p refl h
  act-Ends cancel p h = ground arith
