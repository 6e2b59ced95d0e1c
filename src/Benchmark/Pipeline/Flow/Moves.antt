-- ===== src/Benchmark/Pipeline/Flow/Moves.antt =====
-- The steps of `mapBlocks` and of the context keep the flow, and so do all. (packages/replayor/benchmark.go)
use replayor.Prelude.{
  ℕ, ◌+◌, ◌<◌, ◌≡◌, refl, Option, none, some, List, [], ◌∷◌, ◌++◌, append_assoc, append-nil, arith,
  ltb, length, u64_mod, Bool-cases, inl, inr,
}
use replayor.Exec.{Outcome, done, stopped, each-snoc}
use replayor.Benchmark.Batch.{concurrency}
use replayor.Benchmark.Pipeline.{
  capacity, Parts, Mapper, mapping, emitting, map_done, Pipeline, receive_incoming, block_mapped,
  Actor, load, map_next, map_cancel, submit_next, submit_cancel, cancel, map_step, map_cancel_step,
  act,
}
use replayor.Benchmark.Pipeline.Flow.Load.{load-Flow}
use replayor.Benchmark.Pipeline.Flow.Defs.{map_one, Flow}
use replayor.Benchmark.Pipeline.Flow.Submit.{submitted-Flow, submit_cancelled-Flow}

module _ {Block Params Strategy World : Type 0} (parts : Parts Block Params Strategy World)
    (first last : ℕ) (strategy₀ : Strategy) (world₀ : World) where
  abbrev State : Type 0
  State = Pipeline Block Params Strategy World

  abbrev IsKept : State → Type 0
  IsKept = Flow parts first last strategy₀ world₀

  block_mapped-Flow :
      (b : Block) (rest : List (Option Block)) (p : State)
      → p.incoming ≡ some b ∷ rest
      → p.mapper ≡ mapping
      → IsKept p
      → (r : Outcome (Option Params)) (st : Strategy) → parts.block_received b p.strategy ≡ (r, st)
      → IsKept (block_mapped parts last r st rest p)
  unfolding block_mapped map_one
  block_mapped-Flow b rest p e m f (stopped c) st got = record {
    fetched = f.fetched;
    consumed = f.consumed;
    position = f.position;
    near = f.near;
    served = f.served;
    split = f.split;
    outs = f.outs;
    added = f.added;
    unrejected = f.unrejected;
  }
  block_mapped-Flow b rest p e m f (done none) st got = record {
    fetched = f.fetched;
    consumed = f.consumed ++ some b ∷ [];
    position = f.position;
    near = f.near;
    served = f.served;
    split = rw append_assoc (cc (e, f.split));
    outs = each-snoc (map_one parts) f.consumed (some b) _ _ _ f.outs (rw got refl);
    added = f.added;
    unrejected = f.unrejected;
  }
  block_mapped-Flow b rest p e m f (done (some x)) st got = record {
    fetched = f.fetched;
    consumed = f.consumed ++ some b ∷ [];
    position = f.position;
    near = f.near;
    served = f.served;
    split = rw append_assoc (cc (e, f.split));
    outs =
        each-snoc (map_one parts) f.consumed (some b) _ _ _ f.outs
          (simp (got, m, append-nil, append_assoc));
    added = f.added;
    unrejected = f.unrejected;
  }

  received-Flow :
      (incoming : List (Option Block)) (p : State)
      → p.incoming ≡ incoming
      → p.mapper ≡ mapping
      → IsKept p
      → IsKept (receive_incoming parts last incoming p)
  unfolding receive_incoming map_one
  received-Flow [] p e m f = elim (Bool-cases p.incoming_closed) [
    | inr opened ↦ simp opened f
    | inl closed ↦ simp closed (record {
      fetched = f.fetched;
      consumed = f.consumed;
      position = f.position;
      near = f.near;
      served = f.served;
      split = f.split;
      outs = ground arith;
      added = f.added;
      unrejected = f.unrejected;
    })
  ]
  received-Flow (none ∷ rest) p e m f = record {
    fetched = f.fetched;
    consumed = f.consumed ++ none ∷ [];
    position = f.position;
    near = f.near;
    served = f.served;
    split = rw append_assoc (cc (e, f.split));
    outs = each-snoc (map_one parts) f.consumed none _ _ _ f.outs refl;
    added = f.added;
    unrejected = f.unrejected;
  }
  received-Flow (some b ∷ rest) p e m f =
      block_mapped-Flow b rest p e m f (parts.block_received b p.strategy).0
        (parts.block_received b p.strategy).1 refl

  mapped-Flow :
      (mapper : Mapper Params) (p : State)
      → p.mapper ≡ mapper
      → IsKept p
      → IsKept (map_step parts last mapper p)
  unfolding map_step
  mapped-Flow mapping p e f = received-Flow p.incoming p refl e f
  mapped-Flow (emitting x) p e f = elim (Bool-cases (ltb (length p.process) capacity)) [
    | inr full ↦ simp full f
    | inl free ↦ simp free (record {
      fetched = f.fetched;
      consumed = f.consumed;
      position = f.position;
      near = f.near;
      served = f.served;
      split = f.split;
      outs = simp append-nil (cc (e, f.outs));
      added = f.added;
      unrejected = f.unrejected;
    })
  ]
  mapped-Flow map_done p e f = f

  map_cancelled-Flow :
      (mapper : Mapper Params) (p : State)
      → p.mapper ≡ mapper
      → IsKept p
      → IsKept (map_cancel_step parts last mapper p)
  unfolding map_cancel_step
  map_cancelled-Flow mapping p e f = elim (Bool-cases p.cancelled) [
    | inr full ↦ simp full f
    | inl free ↦ simp free (record {
      fetched = f.fetched;
      consumed = f.consumed;
      position = f.position;
      near = f.near;
      served = f.served;
      split = f.split;
      outs = cc (e, f.outs);
      added = f.added;
      unrejected = f.unrejected;
    })
  ]
  map_cancelled-Flow (emitting x) p e f = f
  map_cancelled-Flow map_done p e f = f

  module _ (room : last + concurrency < u64_mod) where
    pub act-Flow :
        (a : Actor) (p : Pipeline Block Params Strategy World)
        → Flow parts first last strategy₀ world₀ p
        → Flow parts first last strategy₀ world₀ (act parts last a p)
    unfolding act
    act-Flow (load order) p f =
        load-Flow parts first last strategy₀ world₀ room order p.loader p refl f
    act-Flow map_next p f = mapped-Flow p.mapper p refl f
    act-Flow map_cancel p f = map_cancelled-Flow p.mapper p refl f
    act-Flow submit_next p f = submitted-Flow parts first last strategy₀ world₀ p.submitter p refl f
    act-Flow submit_cancel p f =
        submit_cancelled-Flow parts first last strategy₀ world₀ p.submitter p f
    act-Flow cancel p f = record {
      fetched = f.fetched;
      consumed = f.consumed;
      position = f.position;
      near = f.near;
      served = f.served;
      split = f.split;
      outs = f.outs;
      added = f.added;
      unrejected = f.unrejected;
    }
