-- ===== src/Benchmark/Pipeline/Cancelled.antt =====
-- The context of the goroutines of packages/replayor/benchmark.go, once cancelled.
use replayor.Prelude.{ℕ, ◌≡◌, arith, true, Option, none, some, List, [], ◌∷◌}
use replayor.Benchmark.Pipeline.{
  Parts, Pipeline, Loader, ranging, pushing, load_done, Mapper, mapping, emitting, map_done, Actor,
  load, map_next, map_cancel, submit_next, submit_cancel, cancel, crash, batch_loaded, load_step,
  block_mapped, receive_incoming, map_step, map_cancel_step, block_added, receive_process,
  submit_step, submit_cancel_step, act, step,
}

module _ {Block Params Strategy World : Type 0} (parts : Parts Block Params Strategy World)
    (last : ℕ) where
  -- A cancelled context stays cancelled.
  unfoldable pub Stays :
      Pipeline Block Params Strategy World → Pipeline Block Params Strategy World → Type 0
  Stays p q = p.cancelled ≡ true → q.cancelled ≡ true

  load-Stays :
      (order : List ℕ) (loader : Loader Block) (p : Pipeline Block Params Strategy World)
      → Stays p (load_step parts last order loader p)
  unfolding Stays load_step batch_loaded crash
  load-Stays order (ranging s) p h = ground arith
  load-Stays order (pushing [] s) p h = ground arith
  load-Stays order (pushing (b ∷ bs) s) p h = ground arith
  load-Stays order load_done p h = h

  received-Stays :
      (incoming : List (Option Block)) (p : Pipeline Block Params Strategy World)
      → Stays p (receive_incoming parts last incoming p)
  unfolding Stays receive_incoming block_mapped crash
  received-Stays [] p h = ground arith
  received-Stays (none ∷ rest) p h = ground arith
  received-Stays (some b ∷ rest) p h = ground arith

  map-Stays :
      (mapper : Mapper Params) (p : Pipeline Block Params Strategy World)
      → Stays p (map_step parts last mapper p)
  unfolding Stays map_step
  map-Stays mapping p h = received-Stays p.incoming p h
  map-Stays (emitting x) p h = ground arith
  map-Stays map_done p h = h

  processed-Stays :
      (process : List Params) (p : Pipeline Block Params Strategy World)
      → Stays p (receive_process parts last process p)
  unfolding Stays receive_process block_added crash
  processed-Stays [] p h = ground arith
  processed-Stays (x ∷ rest) p h = ground arith

  pub step-Stays :
      (a : Actor) (p : Pipeline Block Params Strategy World) → Stays p (step parts last a p)
  unfolding Stays step act map_cancel_step submit_cancel_step submit_step
  step-Stays (load order) p h = ground (arith, load-Stays order p.loader p h)
  step-Stays map_next p h = ground (arith, map-Stays p.mapper p h)
  step-Stays map_cancel p h = ground arith
  step-Stays submit_next p h = ground (arith, processed-Stays p.process p h)
  step-Stays submit_cancel p h = ground arith
  step-Stays cancel p h = ground arith
