-- ===== src/Benchmark/Pipeline/Returns.antt =====
-- Where one loop after the other returns, `loadBlocks` and `mapBlocks` of packages/replayor/benchmark.go
-- do not end the process.
use native.Mathlib.Decide.{dec_le}
use replayor.Prelude.{
  ℕ, ◌+◌, ◌-◌, ◌≤◌, ◌<◌, ◌≡◌, refl, inl, inr, true, false, Option, none, some, List, [], ◌∷◌, ◌++◌,
  arith, length, u64_mod, set, add64, replicate, Bool-cases, map-count_up_prefix,
  map-count_up-append, append_assoc, sym, ap, ◌∙◌,
}
use replayor.Exec.{Outcome, done, stopped, each, each-append-inv, each-one}
use replayor.Benchmark.Batch.{concurrency, fetch, run_workers, load_batch, all_below, all_finished}
use replayor.Benchmark.Pipeline.{
  Parts, Loader, ranging, pushing, load_done, Mapper, mapping, emitting, map_done, Pipeline, crash,
  batch_loaded, load_step, block_mapped, receive_incoming, map_step,
}
use replayor.Benchmark.Pipeline.Flow.{blocks, held, pending, mapped_to, map_one, Flow}

-- A step of the mapper or the submitter that a sequential loop takes does not end the process.
mapped_to-returns :
    {Block Params Strategy World : Type 0} (parts : Parts Block Params Strategy World) (b : Block)
    (out out' : List Params) (st st' : Strategy)
    → map_one parts (some b) (out, st) ≡ (done tt, (out', st'))
    → (r : Option Params) × ((parts.block_received b st).0 ≡ done r)
unfolding map_one
mapped_to-returns {Params = Params} parts b out out' st st' h =
    go (parts.block_received b st).0 refl h
  where
    go :
        (r : Outcome (Option Params))
        → (parts.block_received b st).0 ≡ r
        → mapped_to parts out r (parts.block_received b st).1 ≡ (done tt, (out', st'))
        → (x : Option Params) × ((parts.block_received b st).0 ≡ done x)
    go (stopped c) e k = cc
    go (done x) e k = (x, e)

module _ {Block Params Strategy World : Type 0} (parts : Parts Block Params Strategy World)
    (first last : ℕ) (strategy₀ : Strategy) (world₀ : World) where
  abbrev State : Type 0
  State = Pipeline Block Params Strategy World

  -- One loop after the other returns: the source serves the blocks from the first one to the last one
  -- of the last batch, the strategy answers for each of them in turn, and `addBlock` returns for all
  -- that the strategy makes of the blocks up to the end block.
  pub record Returns : Type 0 where
    pub served :
        (n : ℕ) → first ≤ n → n < last + concurrency → (b : Block) × (fetch parts.source n ≡ some b)
    pub answered :
        (out : List Params) × (st : Strategy) × (each
            (map_one parts)
            (blocks parts first (last + concurrency - first))
            ([], strategy₀)
          ≡ (done tt, (out, st)))
    pub added :
        (out : List Params) × (st : Strategy) × (w : World) × (each
            (map_one parts)
            (blocks parts first (last + 1 - first))
            ([], strategy₀)
          ≡ (done tt, (out, st)))
        × (each parts.add_block out world₀ ≡ (done tt, w))

  -- What has flowed is right, and the process goes on.
  abbrev pub IsSound : State → Type 0
  IsSound p = Flow parts first last strategy₀ world₀ p × (p.crashed ≡ false)

  -- A loop over blocks has gone through the first of them.
  pub prefix_mapped :
      (m n : ℕ) (x : List Params × Strategy)
      → m ≤ n
      → each (map_one parts) (blocks parts first n) ([], strategy₀) ≡ (done tt, x)
      → (mid : List Params × Strategy) × (each
            (map_one parts)
            (blocks parts first m)
            ([], strategy₀)
          ≡ (done tt, mid))
        × (each (map_one parts) (blocks parts (first + m) (n - m)) mid ≡ (done tt, x))
  prefix_mapped m n x le h =
      let whole : n ≡ m + (n - m) = omega arith in
      let split : blocks parts first n ≡ blocks parts first m ++ blocks parts (first + m) (n - m) =
        ap (blocks parts first) whole ∙ map-count_up-append (fetch parts.source) first m (n - m) in
      each-append-inv (map_one parts) (blocks parts first m) (blocks parts (first + m) (n - m))
        ([], strategy₀) x (rw split at h)

  module _ (room : last + concurrency < u64_mod) (returns : Returns) where
    run_workers_served :
        (s : ℕ) (order : List ℕ) (results : List (Option Block))
        → first ≤ s
        → s ≤ last
        → all_below concurrency order ≡ true
        → (rs : List (Option Block)) × (run_workers parts.source s order results ≡ some rs)
    unfolding run_workers
    run_workers_served s [] results after before below = (results, refl)
    run_workers_served s (i ∷ order) results after before below =
        let (b, e) = returns.served (add64 s i) (ground arith) (ground arith) in
        let (rs, k) =
          run_workers_served s order (set results i (some b)) after before (ground arith) in
        (rs, ground arith)

    pub load-alive :
        (order : List ℕ) (loader : Loader Block) (p : State)
        → p.loader ≡ loader
        → IsSound p
        → (load_step parts last order loader p).crashed ≡ false
    unfolding load_step batch_loaded crash load_batch all_finished
    load-alive order (ranging s) p e (f, h) =
        let at : s ≡ first + f.fetched = rw e at f.position in
        elim (dec_le s last) [
          | no past ↦ ground arith
          | yes within ↦ elim (Bool-cases (all_below concurrency order)) [
            | inr other ↦ ground arith
            | inl below ↦
                let (rs, loaded) =
                  run_workers_served s order (replicate concurrency none) (omega arith) within
                    below in
                ground arith
          ]
        ]
    load-alive order (pushing [] s) p e (f, h) = ground arith
    load-alive order (pushing (b ∷ bs) s) p e (f, h) = ground arith
    load-alive order load_done p e (f, h) = h

    -- What the mapper takes next is the next block, for which the strategy answers.
    next_mapped :
        (b : Option Block) (rest : List (Option Block)) (p : State)
        → p.incoming ≡ b ∷ rest
        → Flow parts first last strategy₀ world₀ p
        → (out : List Params) × (x : List Params × Strategy) × (map_one parts b (out, p.strategy)
            ≡ (done tt, x))
    next_mapped b rest p e f =
        let taken : (f.consumed ++ b ∷ []) ++ (rest ++ pending p.loader)
            ≡ blocks parts first f.fetched =
          append_assoc f.consumed (b ∷ []) (rest ++ pending p.loader) ∙ (rw e at f.split) in
        let (cut, le) =
          map-count_up_prefix (fetch parts.source) first f.fetched (f.consumed ++ b ∷ [])
            (rest ++ pending p.loader) taken in
        let (out, st, all) = returns.answered in
        let (mid, head, tail) =
          prefix_mapped (length (f.consumed ++ b ∷ [])) (last + concurrency - first) (out, st)
            (omega (arith, le, f.near)) all in
        let (x, before, here) =
          each-append-inv (map_one parts) f.consumed (b ∷ []) ([], strategy₀) mid
            (ap (λ bs. each (map_one parts) bs ([], strategy₀)) cut ∙ head) in
        let same : x ≡ (p.submitted ++ (p.rejected ++ (p.process ++ held p.mapper)), p.strategy) =
          ap (λ (r : Outcome (Unit {0}) × (List Params × Strategy)). r.1) (sym before ∙ f.outs) in
        (
          p.submitted ++ (p.rejected ++ (p.process ++ held p.mapper)),
          mid,
          ap (map_one parts b) (sym same) ∙ each-one (map_one parts) b x mid here,
        )

    received-alive :
        (incoming : List (Option Block)) (p : State)
        → p.incoming ≡ incoming
        → IsSound p
        → (receive_incoming parts last incoming p).crashed ≡ false
    unfolding receive_incoming block_mapped crash
    received-alive [] p e (f, h) = ground arith
    received-alive (none ∷ rest) p e (f, h) = ground arith
    received-alive (some b ∷ rest) p e (f, h) =
        let (out, (out', st'), mapped) = next_mapped (some b) rest p e f in
        let (r, answer) = mapped_to-returns parts b out out' p.strategy st' mapped in ground arith

    pub map-alive :
        (mapper : Mapper Params) (p : State)
        → IsSound p
        → (map_step parts last mapper p).crashed ≡ false
    unfolding map_step
    map-alive mapping p h = received-alive p.incoming p refl h
    map-alive (emitting x) p (f, h) = ground arith
    map-alive map_done p (f, h) = h
