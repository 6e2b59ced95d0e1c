-- ===== src/Benchmark/Pipeline/Flow/Load.antt =====
-- The steps of `loadBlocks` keep the flow.
use native.Mathlib.Decide.{dec_lt}
use replayor.Prelude.{
  ◌-◌, zero, suc, leb→le, ℕ, ◌+◌, ◌≤◌, ◌<◌, ◌≡◌, refl, true, Option, some, List, [], ◌∷◌, ◌++◌, map,
  append_assoc, append-nil, arith, ltb, leb, length, count_up, add64, u64_mod, map-count_up-append,
  Bool-cases, Option-cases, inl, inr, ap,
}
use replayor.Benchmark.Batch.{concurrency, fetch, load_batch, all_finished}
use replayor.Benchmark.Batch.Order.{load_batch_lem}
use replayor.Benchmark.Pipeline.{
  capacity, Parts, Loader, ranging, pushing, load_done, Pipeline, batch_loaded, load_step,
}
use replayor.Benchmark.Pipeline.Flow.Defs.{blocks, Flow}

module _ {Block Params Strategy World : Type 0} (parts : Parts Block Params Strategy World)
    (first last : ℕ) (strategy₀ : Strategy) (world₀ : World) where
  abbrev State : Type 0
  State = Pipeline Block Params Strategy World

  abbrev IsKept : State → Type 0
  IsKept = Flow parts first last strategy₀ world₀

  -- The blocks that the goroutines of a batch store are those of the numbers from `s` on.
  stored-eq-blocks :
      (s k n : ℕ)
      → s + k + n < u64_mod
      → map (λ i. fetch parts.source (add64 s i)) (count_up k n) ≡ blocks parts (s + k) n
  stored-eq-blocks s k zero h = refl
  stored-eq-blocks s k (suc n) h =
      let e : add64 s k ≡ s + k = omega arith in
      let e' : s + k + 1 ≡ s + (k + 1) = omega arith in
      rw (e, e')
        (ap (λ bs. fetch parts.source (s + k) ∷ bs) (stored-eq-blocks s (k + 1) n (omega arith)))

  batch-split :
      (s n k : ℕ) (consumed incoming : List (Option Block))
      → s ≡ first + n
      → s + k < u64_mod
      → consumed ++ incoming ≡ blocks parts first n
      → consumed ++ (incoming ++ map (λ i. fetch parts.source (add64 s i)) (count_up 0 k))
        ≡ blocks parts first (n + k)
  batch-split s n k consumed incoming e fits h =
      let e' : s + 0 ≡ first + n = omega arith in
      rw (
        stored-eq-blocks s 0 k (omega arith),
        e',
        map-count_up-append (fetch parts.source) first n k,
        ← h,
        append_assoc,
      )

  module _ (room : last + concurrency < u64_mod) where
    fetched_more :
        (s n : ℕ)
        → s ≡ first + n
        → s ≤ last
        → ((i : ℕ) → i < n → (b : Block) × (fetch parts.source (first + i) ≡ some b))
        → ((i : ℕ) → i < concurrency → (b : Block) × (fetch parts.source (add64 s i) ≡ some b))
        → (i : ℕ) → i < n + concurrency
        → (b : Block) × (fetch parts.source (first + i) ≡ some b)
    fetched_more s n e le old new i lt = elim (dec_lt i n) [
      | yes before ↦ old i before
      | no after ↦
          let (b, got) = new (i - n) (omega arith) in
          let same : add64 s (i - n) ≡ first + i = omega arith in (b, rw same at got)
    ]

    batch-Flow :
        (order : List ℕ) (s : ℕ) (p : State)
        → p.loader ≡ ranging s
        → IsKept p
        → s ≤ last
        → all_finished order ≡ true
        → IsKept (batch_loaded parts last s (load_batch parts.source s order) p)
    unfolding batch_loaded
    batch-Flow order s p e f le finished = elim (Option-cases (load_batch parts.source s order)) [
      | inl panics ↦ rw panics (record {
        fetched = f.fetched;
        consumed = f.consumed;
        position = f.position;
        near = f.near;
        served = f.served;
        split = f.split;
        outs = f.outs;
        added = f.added;
        unrejected = f.unrejected;
      })
      | inr (rs, loaded) ↦ rw loaded (
          let (all, got) = load_batch_lem parts.source s order rs finished loaded in
          let here : s ≡ first + f.fetched = ground arith in
          record {
            fetched = f.fetched + concurrency;
            consumed = f.consumed;
            position = ground arith;
            near = omega arith;
            served = fetched_more s f.fetched here le f.served got;
            split = rw all (
                batch-split s f.fetched concurrency f.consumed p.incoming here (omega arith)
                  (rw append-nil at (rw e at f.split)));
            outs = f.outs;
            added = f.added;
            unrejected = f.unrejected;
          })
    ]

    pub load-Flow :
        (order : List ℕ) (loader : Loader Block) (p : Pipeline Block Params Strategy World)
        → p.loader ≡ loader
        → Flow parts first last strategy₀ world₀ p
        → Flow parts first last strategy₀ world₀ (load_step parts last order loader p)
    unfolding load_step
    load-Flow order (ranging s) p e f = elim (Bool-cases (leb s last)) [
      | inr past ↦ rw past (record {
        fetched = f.fetched;
        consumed = f.consumed;
        position = ground arith;
        near = f.near;
        served = f.served;
        split = ground arith;
        outs = f.outs;
        added = f.added;
        unrejected = f.unrejected;
      })
      | inl more ↦ rw more (elim (Bool-cases (all_finished order)) [
        | inr waiting ↦ rw waiting f
        | inl finished ↦ rw finished (batch-Flow order s p e f (leb→le s last more) finished)
      ])
    ]
    load-Flow order (pushing [] s) p e f = record {
      fetched = f.fetched;
      consumed = f.consumed;
      position = ground arith;
      near = f.near;
      served = f.served;
      split = ground arith;
      outs = f.outs;
      added = f.added;
      unrejected = f.unrejected;
    }
    load-Flow order (pushing (b ∷ bs) s) p e f =
        elim (Bool-cases (ltb (length p.incoming) capacity)) [
          | inr full ↦ rw full f
          | inl free ↦ rw free (record {
            fetched = f.fetched;
            consumed = f.consumed;
            position = ground arith;
            near = f.near;
            served = f.served;
            split = rw append_assoc (cc (e, f.split));
            outs = f.outs;
            added = f.added;
            unrejected = f.unrejected;
          })
        ]
    load-Flow order load_done p e f = f
