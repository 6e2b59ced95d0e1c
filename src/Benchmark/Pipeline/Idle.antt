-- ===== src/Benchmark/Pipeline/Idle.antt =====
-- The goroutines of packages/replayor/benchmark.go after `submitBlocks` has returned.
use replayor.Prelude.{ℕ, ◌≡◌, refl, arith, Option, none, some, List, [], ◌∷◌}
use replayor.Benchmark.Pipeline.{
  Parts, Loader, ranging, pushing, load_done, Mapper, mapping, emitting, map_done, Pipeline,
  submit_done, Actor, load, map_next, map_cancel, submit_next, submit_cancel, cancel, crash,
  batch_loaded, load_step, block_mapped, receive_incoming, map_step, map_cancel_step, submit_step,
  submit_cancel_step, act,
}

module _ {Block Params Strategy World : Type 0} (parts : Parts Block Params Strategy World)
    (last : ℕ) where
  -- Only `submitBlocks` changes the world, and it has returned.
  abbrev pub IsIdle :
      Pipeline Block Params Strategy World → Pipeline Block Params Strategy World → Type 0
  IsIdle p q = (q.submitter ≡ submit_done) × (q.world ≡ p.world)

  load-IsIdle :
      (order : List ℕ) (loader : Loader Block) (p : Pipeline Block Params Strategy World)
      → p.submitter ≡ submit_done
      → IsIdle p (load_step parts last order loader p)
  unfolding load_step batch_loaded crash
  load-IsIdle order (ranging s) p h = ground arith
  load-IsIdle order (pushing [] s) p h = ground arith
  load-IsIdle order (pushing (b ∷ bs) s) p h = ground arith
  load-IsIdle order load_done p h = (h, refl)

  received-IsIdle :
      (incoming : List (Option Block)) (p : Pipeline Block Params Strategy World)
      → p.submitter ≡ submit_done
      → IsIdle p (receive_incoming parts last incoming p)
  unfolding receive_incoming block_mapped crash
  received-IsIdle [] p h = ground arith
  received-IsIdle (none ∷ rest) p h = ground arith
  received-IsIdle (some b ∷ rest) p h = ground arith

  map-IsIdle :
      (mapper : Mapper Params) (p : Pipeline Block Params Strategy World)
      → p.submitter ≡ submit_done
      → IsIdle p (map_step parts last mapper p)
  unfolding map_step
  map-IsIdle mapping p h = received-IsIdle p.incoming p h
  map-IsIdle (emitting x) p h = ground arith
  map-IsIdle map_done p h = (h, refl)

  pub act-IsIdle :
      (a : Actor) (p : Pipeline Block Params Strategy World)
      → p.submitter ≡ submit_done
      → IsIdle p (act parts last a p)
  unfolding act map_cancel_step submit_cancel_step submit_step
  act-IsIdle (load order) p h = load-IsIdle order p.loader p h
  act-IsIdle map_next p h = map-IsIdle p.mapper p h
  act-IsIdle map_cancel p h = ground arith
  act-IsIdle submit_next p h = ground arith
  act-IsIdle submit_cancel p h = ground arith
  act-IsIdle cancel p h = (h, refl)
