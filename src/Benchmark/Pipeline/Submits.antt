-- ===== src/Benchmark/Pipeline/Submits.antt =====
-- Where one loop after the other returns, `submitBlocks` of packages/replayor/benchmark.go does not end
-- the process, and so none of the goroutines does.
use native.Mathlib.Decide.{dec_le}
use replayor.Prelude.{
  ℕ, ◌+◌, ◌-◌, ◌≤◌, ◌<◌, ◌≡◌, refl, false, List, [], ◌∷◌, ◌++◌, arith, length, u64_mod, map,
  map-count_up_prefix, append_assoc, sym, ap, ◌∙◌, length-map, length-count_up, count_up_next,
  length-append, append_cut,
}
use mathlib.Core.List.{map-append}
use replayor.Exec.{Outcome, done, each, each-append-inv, each-one}
use replayor.Benchmark.Batch.{concurrency, fetch}
use replayor.Benchmark.Pipeline.{
  Parts, Submitter, submitting, submit_done, Pipeline, Actor, load, map_next, map_cancel,
  submit_next, submit_cancel, cancel, crash, map_cancel_step, block_added, receive_process,
  submit_step, submit_cancel_step, act,
}
use replayor.Benchmark.Pipeline.Flow.{blocks, held, pending, map_one, Flow, act-Flow}
use replayor.Benchmark.Pipeline.Numbers.{KeepsNumber, mapped-append, mapped_numbers}
use replayor.Benchmark.Pipeline.Returns.{Returns, IsSound, prefix_mapped, load-alive, map-alive}

module _ {Block Params Strategy World : Type 0} (parts : Parts Block Params Strategy World)
    (first last : ℕ) (strategy₀ : Strategy) (world₀ : World) where
  abbrev State : Type 0
  State = Pipeline Block Params Strategy World

  module _ (room : last + concurrency < u64_mod)
      (returns : Returns parts first last strategy₀ world₀) (block_number : Block → ℕ)
      (keeps : KeepsNumber parts block_number) where
    -- What waits for the submitter has the number after those that were submitted.
    next_number :
        (x : Params) (ys : List Params) (p : State) (m : ℕ)
        → (f : Flow parts first last strategy₀ world₀ p) → m ≤ f.fetched
        → each (map_one parts) (blocks parts first m) ([], strategy₀)
          ≡ (done tt, (p.submitted ++ x ∷ ys, p.strategy))
        → (parts.number x ≡ first + length p.submitted) × (length p.submitted + 1 ≤ m)
    next_number x ys p m f le made =
        let numbers =
          mapped_numbers parts block_number keeps first m [] (p.submitted ++ x ∷ ys) strategy₀
            p.strategy (λ i lt. f.served i (omega arith)) made in
        let size : length (p.submitted ++ x ∷ ys) ≡ m =
          sym (length-map parts.number (p.submitted ++ x ∷ ys))
          ∙ ap length numbers
          ∙ length-count_up first m in
        (
          rw (length-map) at (
              count_up_next first m (map parts.number p.submitted) (parts.number x)
                (map parts.number ys)
                (sym (map-append parts.number p.submitted (x ∷ ys)) ∙ numbers)),
          omega (arith, size, length-append p.submitted (x ∷ ys)),
        )

    -- The submitted parameters and the next one are the first that a sequential loop makes.
    next_wanted :
        (x : Params) (ys out : List Params) (st : Strategy) (p : State) (m n : ℕ)
        → (f : Flow parts first last strategy₀ world₀ p) → m ≤ f.fetched
        → each (map_one parts) (blocks parts first m) ([], strategy₀)
          ≡ (done tt, (p.submitted ++ x ∷ ys, p.strategy))
        → length p.submitted + 1 ≤ m
        → length p.submitted + 1 ≤ n
        → each (map_one parts) (blocks parts first n) ([], strategy₀) ≡ (done tt, (out, st))
        → (later : List Params) × (out ≡ (p.submitted ++ x ∷ []) ++ later)
    next_wanted x ys out st p m n f le made lt lt' wanted =
        let k = length p.submitted + 1 in
        let ((o, st₁), head, tail) =
          prefix_mapped parts first last strategy₀ world₀ k m (p.submitted ++ x ∷ ys, p.strategy) lt
            made in
        let ((o', st₂), head', tail') =
          prefix_mapped parts first last strategy₀ world₀ k n (out, st) lt' wanted in
        let same : o ≡ o' =
          ap (λ (r : Outcome (Unit {0}) × (List Params × Strategy)). r.1.0) (sym head ∙ head') in
        let (rest, e) =
          mapped-append parts (blocks parts (first + k) (m - k)) o (p.submitted ++ x ∷ ys) st₁
            p.strategy tail in
        let (later, e') =
          mapped-append parts (blocks parts (first + k) (n - k)) o' out st₂ st tail' in
        let numbers =
          mapped_numbers parts block_number keeps first k [] o strategy₀ st₁
            (λ i below. f.served i (omega arith)) head in
        let size : length o ≡ k =
          sym (length-map parts.number o) ∙ ap length numbers ∙ length-count_up first k in
        let cut : p.submitted ++ x ∷ [] ≡ o =
          append_cut (p.submitted ++ x ∷ []) ys o rest (append_assoc p.submitted (x ∷ []) ys ∙ e)
            (omega (arith, size, length-append p.submitted (x ∷ []))) in
        (later, e' ∙ ap (λ l. l ++ later) (sym same ∙ sym cut))

    -- `addBlock` returns for what the submitter takes next.
    next_added :
        (x : Params) (xs : List Params) (p : State)
        → p.process ≡ x ∷ xs
        → p.submitter ≡ submitting
        → parts.number x ≤ last
        → Flow parts first last strategy₀ world₀ p
        → (w : World) × (parts.add_block x p.world ≡ (done tt, w))
    next_added x xs p e sub within f =
        let (out, st, w, wanted, all) = returns.added in
        let (cut, le) =
          map-count_up_prefix (fetch parts.source) first f.fetched f.consumed
            (p.incoming ++ pending p.loader) f.split in
        let made : each (map_one parts) (blocks parts first (length f.consumed)) ([], strategy₀)
            ≡ (done tt, (p.submitted ++ x ∷ (xs ++ held p.mapper), p.strategy)) =
          ap (λ bs. each (map_one parts) bs ([], strategy₀)) (sym cut)
          ∙ (rw (f.unrejected sub, e) at f.outs) in
        let (next, lt) = next_number x (xs ++ held p.mapper) p (length f.consumed) f le made in
        let (later, split) =
          next_wanted x (xs ++ held p.mapper) out st p (length f.consumed) (last + 1 - first) f le
            made lt (omega (arith, next, within)) wanted in
        let (w₁, upto, after) =
          each-append-inv parts.add_block (p.submitted ++ x ∷ []) later world₀ w
            (rw split at all) in
        let (w₀, before, here) =
          each-append-inv parts.add_block p.submitted (x ∷ []) world₀ w₁ upto in
        let same : w₀ ≡ p.world =
          ap (λ (r : Outcome (Unit {0}) × World). r.1) (sym before ∙ f.added) in
        (w₁, ap (parts.add_block x) (sym same) ∙ each-one parts.add_block x w₀ w₁ here)

    process-alive :
        (process : List Params) (p : State)
        → p.process ≡ process
        → p.submitter ≡ submitting
        → IsSound parts first last strategy₀ world₀ p
        → (receive_process parts last process p).crashed ≡ false
    unfolding receive_process block_added crash
    process-alive [] p e sub (f, h) = ground arith
    process-alive (x ∷ xs) p e sub (f, h) = elim (dec_le (parts.number x) last) [
      | no past ↦ ground arith
      | yes within ↦ let (w, added) = next_added x xs p e sub within f in ground arith
    ]

    submit-alive :
        (submitter : Submitter) (p : State)
        → p.submitter ≡ submitter
        → IsSound parts first last strategy₀ world₀ p
        → (submit_step parts last submitter p).crashed ≡ false
    unfolding submit_step
    submit-alive submitting p sub h = process-alive p.process p refl sub h
    submit-alive submit_done p sub (f, h) = h

    act-alive :
        (a : Actor) (p : State)
        → IsSound parts first last strategy₀ world₀ p
        → (act parts last a p).crashed ≡ false
    unfolding act map_cancel_step submit_cancel_step
    act-alive (load order) p h =
        load-alive parts first last strategy₀ world₀ room returns order p.loader p refl h
    act-alive map_next p h = map-alive parts first last strategy₀ world₀ room returns p.mapper p h
    act-alive map_cancel p (f, h) = ground arith
    act-alive submit_next p h = submit-alive p.submitter p refl h
    act-alive submit_cancel p (f, h) = ground arith
    act-alive cancel p (f, h) = h

    pub act-IsSound :
        (a : Actor) (p : State)
        → IsSound parts first last strategy₀ world₀ p
        → IsSound parts first last strategy₀ world₀ (act parts last a p)
    act-IsSound a p (f, h) =
        (act-Flow parts first last strategy₀ world₀ room a p f, act-alive a p (f, h))
