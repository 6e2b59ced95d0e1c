-- ===== src/Benchmark/Pipeline/Flow/Submit.antt =====
-- The steps of `submitBlocks` of packages/replayor/benchmark.go keep the flow.
use replayor.Prelude.{
  ℕ, ◌≡◌, refl, List, [], ◌∷◌, ◌++◌, append_assoc, ltb, Bool-cases, inl, inr, ◌∙◌, ap,
}
use replayor.Exec.{Outcome, done, stopped, each-snoc}
use replayor.Benchmark.Pipeline.{
  Parts, Pipeline, Submitter, submitting, submit_done, receive_process, block_added, submit_step,
  submit_cancel_step,
}
use replayor.Benchmark.Pipeline.Flow.Defs.{held, Flow}

module _ {A : Type 0} (submitted rejected process rest held : List A) (x : A) where
  submit_one :
      rejected ≡ []
      → process ≡ x ∷ rest
      → submitted ++ (rejected ++ (process ++ held))
        ≡ (submitted ++ x ∷ []) ++ (rejected ++ (rest ++ held))
  submit_one r e = simp (r, e, append_assoc)

  reject_one :
      rejected ≡ []
      → process ≡ x ∷ rest
      → submitted ++ (rejected ++ (process ++ held)) ≡ submitted ++ (x ∷ [] ++ (rest ++ held))
  reject_one r e = simp (r, e)

module _ {Block Params Strategy World : Type 0} (parts : Parts Block Params Strategy World)
    (first last : ℕ) (strategy₀ : Strategy) (world₀ : World) where
  abbrev State : Type 0
  State = Pipeline Block Params Strategy World

  abbrev IsKept : State → Type 0
  IsKept = Flow parts first last strategy₀ world₀

  block_added-Flow :
      (x : Params) (rest : List Params) (p : State)
      → p.process ≡ x ∷ rest
      → p.submitter ≡ submitting
      → IsKept p
      → (r : Outcome (Unit {0})) (w : World) → parts.add_block x p.world ≡ (r, w)
      → IsKept (block_added parts last r w x rest p)
  unfolding block_added
  block_added-Flow x rest p e m f (stopped c) w got = record {
    fetched = f.fetched;
    consumed = f.consumed;
    position = f.position;
    near = f.near;
    served = f.served;
    split = f.split;
    outs = f.outs;
    added = f.added;
    unrejected = f.unrejected;
  }
  block_added-Flow x rest p e m f (done _) w got = record {
    fetched = f.fetched;
    consumed = f.consumed;
    position = f.position;
    near = f.near;
    served = f.served;
    split = f.split;
    outs =
        f.outs
        ∙ ap (λ l. (done tt, (l, p.strategy)))
            (submit_one p.submitted p.rejected p.process rest (held p.mapper) x (f.unrejected m) e);
    added = each-snoc parts.add_block p.submitted x _ _ _ f.added got;
    unrejected = f.unrejected;
  }

  submit-Flow :
      (process : List Params) (p : State)
      → p.process ≡ process
      → p.submitter ≡ submitting
      → IsKept p
      → IsKept (receive_process parts last process p)
  unfolding receive_process
  submit-Flow [] p e m f = elim (Bool-cases p.process_closed) [
    | inr opened ↦ simp opened f
    | inl closed ↦ simp closed (record {
      fetched = f.fetched;
      consumed = f.consumed;
      position = f.position;
      near = f.near;
      served = f.served;
      split = f.split;
      outs = f.outs;
      added = f.added;
      unrejected = λ q. cc;
    })
  ]
  submit-Flow (x ∷ rest) p e m f = elim (Bool-cases (ltb last (parts.number x))) [
    | inl beyond ↦ rw beyond (record {
      fetched = f.fetched;
      consumed = f.consumed;
      position = f.position;
      near = f.near;
      served = f.served;
      split = f.split;
      outs =
          f.outs
          ∙ ap (λ l. (done tt, (l, p.strategy)))
              (reject_one p.submitted p.rejected p.process rest (held p.mapper) x (f.unrejected m)
                e);
      added = f.added;
      unrejected = λ q. cc;
    })
    | inr within ↦ rw within (
        block_added-Flow x rest p e m f (parts.add_block x p.world).0 (parts.add_block x p.world).1
          refl)
  ]

  pub submitted-Flow :
      (submitter : Submitter) (p : State)
      → p.submitter ≡ submitter
      → IsKept p
      → IsKept (submit_step parts last submitter p)
  unfolding submit_step
  submitted-Flow submitting p e f = submit-Flow p.process p refl e f
  submitted-Flow submit_done p e f = f

  pub submit_cancelled-Flow :
      (submitter : Submitter) (p : State)
      → IsKept p
      → IsKept (submit_cancel_step parts last submitter p)
  unfolding submit_cancel_step
  submit_cancelled-Flow submitting p f = elim (Bool-cases p.cancelled) [
    | inr full ↦ simp full f
    | inl free ↦ simp free (record {
      fetched = f.fetched;
      consumed = f.consumed;
      position = f.position;
      near = f.near;
      served = f.served;
      split = f.split;
      outs = f.outs;
      added = f.added;
      unrejected = λ q. cc;
    })
  ]
  submit_cancelled-Flow submit_done p f = f
