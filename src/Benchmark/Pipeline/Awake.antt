-- ===== src/Benchmark/Pipeline/Awake.antt =====
-- A goroutine of packages/replayor/benchmark.go that has returned has closed its channel.
use replayor.Prelude.{ℕ, ◌≡◌, refl, ◌⊎◌, true, Option, none, some, List, [], ◌∷◌, arith}
use replayor.Benchmark.Pipeline.{
  Parts, Loader, ranging, pushing, load_done, Mapper, mapping, emitting, map_done, Submitter,
  submitting, submit_done, Pipeline, Actor, load, map_next, map_cancel, submit_next, submit_cancel,
  cancel, crash, batch_loaded, load_step, block_mapped, receive_incoming, map_step, map_cancel_step,
  block_added, receive_process, submit_step, submit_cancel_step, act,
}

module _ {Block Params Strategy World : Type 0} (parts : Parts Block Params Strategy World)
    (last : ℕ) where
  abbrev State : Type 0
  State = Pipeline Block Params Strategy World

  -- A goroutine that has returned has closed its channel; the mapper also returns when cancelled.
  pub record Awake (p : State) : Type 0 where
    pub loaded : p.loader ≡ load_done → p.incoming_closed ≡ true
    pub mapped : p.mapper ≡ map_done → (p.process_closed ≡ true) ⊎ (p.cancelled ≡ true)

  load-Awake :
      (order : List ℕ) (loader : Loader Block) (p : State)
      → p.loader ≡ loader
      → Awake p
      → Awake (load_step parts last order loader p)
  unfolding load_step batch_loaded crash
  load-Awake order (ranging s) p e h = ground arith
  load-Awake order (pushing [] s) p e h = ground arith
  load-Awake order (pushing (b ∷ bs) s) p e h = ground arith
  load-Awake order load_done p e h = h

  received-Awake :
      (incoming : List (Option Block)) (p : State)
      → Awake p
      → Awake (receive_incoming parts last incoming p)
  unfolding receive_incoming block_mapped crash
  received-Awake [] p h = ground arith
  received-Awake (none ∷ rest) p h = ground arith
  received-Awake (some b ∷ rest) p h = ground arith

  map-Awake : (mapper : Mapper Params) (p : State) → Awake p → Awake (map_step parts last mapper p)
  unfolding map_step
  map-Awake mapping p h = received-Awake p.incoming p h
  map-Awake (emitting x) p h = ground arith
  map-Awake map_done p h = h

  submit-Awake :
      (submitter : Submitter) (process : List Params) (p : State)
      → p.process ≡ process
      → Awake p
      → Awake (submit_step parts last submitter p)
  unfolding submit_step receive_process block_added crash
  submit-Awake submitting [] p e h = ground arith
  submit-Awake submitting (x ∷ xs) p e h = ground arith
  submit-Awake submit_done process p e h = h

  pub act-Awake : (a : Actor) (p : State) → Awake p → Awake (act parts last a p)
  unfolding act map_cancel_step submit_cancel_step
  act-Awake (load order) p h = load-Awake order p.loader p refl h
  act-Awake map_next p h = map-Awake p.mapper p h
  act-Awake map_cancel p h = ground arith
  act-Awake submit_next p h = submit-Awake p.submitter p.process p refl h
  act-Awake submit_cancel p h = ground arith
  act-Awake cancel p h = ground arith
