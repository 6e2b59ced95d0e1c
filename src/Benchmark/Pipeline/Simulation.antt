-- ===== src/Benchmark/Pipeline/Simulation.antt =====
-- The goroutines of packages/replayor/benchmark.go over two worlds of which one is a view of the other.
use replayor.Prelude.{ℕ, ◌≡◌, refl, arith, Option, none, some, List, [], ◌∷◌}
use replayor.Exec.{Exec, Outcome, done, stopped}
use replayor.Benchmark.Pipeline.{
  Parts, Loader, ranging, pushing, load_done, Mapper, mapping, emitting, map_done, Submitter,
  submitting, submit_done, Pipeline, Actor, load, map_next, map_cancel, submit_next, submit_cancel,
  cancel, crash, batch_loaded, load_step, block_mapped, receive_incoming, map_step, map_cancel_step,
  block_added, receive_process, submit_step, submit_cancel_step, act,
}

module _ {Block Params Strategy World View : Type 0} where
  -- The same source, strategy and numbers over the view.
  abbrev pub parts_view :
      Parts Block Params Strategy World
      → (Params → Exec View (Unit {0}))
      → Parts Block Params Strategy View
  parts_view parts add_view = record {
    source = parts.source;
    number = parts.number;
    block_received = parts.block_received;
    add_block = add_view;
  }

  abbrev pub pipeline_view :
      (World → View) → Pipeline Block Params Strategy World → Pipeline Block Params Strategy View
  pipeline_view view p = record {
    loader = p.loader;
    incoming = p.incoming;
    incoming_closed = p.incoming_closed;
    mapper = p.mapper;
    strategy = p.strategy;
    process = p.process;
    process_closed = p.process_closed;
    submitter = p.submitter;
    submitted = p.submitted;
    rejected = p.rejected;
    remaining_block_count = p.remaining_block_count;
    world = view p.world;
    cancelled = p.cancelled;
    crashed = p.crashed;
  }

module _ {Block Params Strategy World View : Type 0} (parts : Parts Block Params Strategy World)
    (view : World → View) (add_view : Params → Exec View (Unit {0}))
    (adds : (x : Params) (w : World)
      → add_view x (view w) ≡ ((parts.add_block x w).0, view (parts.add_block x w).1))
    (last : ℕ) where
  load-view :
      (order : List ℕ) (loader : Loader Block) (p : Pipeline Block Params Strategy World)
      → pipeline_view view (load_step parts last order loader p)
        ≡ load_step (parts_view parts add_view) last order loader (pipeline_view view p)
  unfolding load_step batch_loaded crash
  load-view order (ranging s) p = ground arith
  load-view order (pushing [] s) p = refl
  load-view order (pushing (b ∷ bs) s) p = ground arith
  load-view order load_done p = refl

  received-view :
      (incoming : List (Option Block)) (p : Pipeline Block Params Strategy World)
      → pipeline_view view (receive_incoming parts last incoming p)
        ≡ receive_incoming (parts_view parts add_view) last incoming (pipeline_view view p)
  unfolding receive_incoming block_mapped crash
  received-view [] p = ground arith
  received-view (none ∷ rest) p = refl
  received-view (some b ∷ rest) p = ground arith

  map-view :
      (mapper : Mapper Params) (p : Pipeline Block Params Strategy World)
      → pipeline_view view (map_step parts last mapper p)
        ≡ map_step (parts_view parts add_view) last mapper (pipeline_view view p)
  unfolding map_step
  map-view mapping p = received-view p.incoming p
  map-view (emitting x) p = ground arith
  map-view map_done p = refl

  added-view :
      (r : Outcome (Unit {0})) (w : World) (x : Params) (rest : List Params)
      (p : Pipeline Block Params Strategy World)
      → pipeline_view view (block_added parts last r w x rest p)
        ≡ block_added (parts_view parts add_view) last r (view w) x rest (pipeline_view view p)
  unfolding block_added crash
  added-view (stopped c) w x rest p = refl
  added-view (done _) w x rest p = refl

  process-view :
      (process : List Params) (p : Pipeline Block Params Strategy World)
      → pipeline_view view (receive_process parts last process p)
        ≡ receive_process (parts_view parts add_view) last process (pipeline_view view p)
  unfolding receive_process
  process-view [] p = ground arith
  process-view (x ∷ rest) p = ground (
    arith,
    adds x p.world,
    added-view (parts.add_block x p.world).0 (parts.add_block x p.world).1 x rest p,
  )

  submit-view :
      (submitter : Submitter) (p : Pipeline Block Params Strategy World)
      → pipeline_view view (submit_step parts last submitter p)
        ≡ submit_step (parts_view parts add_view) last submitter (pipeline_view view p)
  unfolding submit_step
  submit-view submitting p = process-view p.process p
  submit-view submit_done p = refl

  -- A step of the machine is a step of its view.
  pub act-view :
      (a : Actor) (p : Pipeline Block Params Strategy World)
      → pipeline_view view (act parts last a p)
        ≡ act (parts_view parts add_view) last a (pipeline_view view p)
  unfolding act map_cancel_step submit_cancel_step
  act-view (load order) p = load-view order p.loader p
  act-view map_next p = map-view p.mapper p
  act-view map_cancel p = ground arith
  act-view submit_next p = submit-view p.submitter p
  act-view submit_cancel p = ground arith
  act-view cancel p = refl
