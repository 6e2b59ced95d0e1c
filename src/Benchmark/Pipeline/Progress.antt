-- ===== src/Benchmark/Pipeline/Progress.antt =====
-- The goroutines of packages/replayor/benchmark.go do not block each other for ever.
use mathlib.Core.Path.{subst}
use replayor.Prelude.{
  ℕ, zero, suc, ◌+◌, ◌-◌, ◌*◌, ◌/◌, ◌≤◌, ◌<◌, ◌≡◌, ◌≢◌, refl, ◌⊎◌, inl, inr, true, false,
  Bool-cases, Option, none, some, List, [], ◌∷◌, arith, length, length-append, u64_mod, count_up,
  Option-cases, length-map-count_up, ap, sym, ◌∙◌,
}
use replayor.Benchmark.Batch.{concurrency, load_batch, all_finished}
use replayor.Benchmark.Batch.Order.{stored, load_batch_lem}
use replayor.Benchmark.Pipeline.{
  Parts, Loader, ranging, pushing, load_done, Mapper, mapping, emitting, map_done, Submitter,
  submitting, submit_done, Pipeline, Actor, load, map_next, submit_next, crash, batch_loaded,
  load_step, block_mapped, receive_incoming, map_step, block_added, receive_process, submit_step,
  act, step, run,
}
use replayor.Benchmark.Pipeline.Awake.{Awake, act-Awake}

-- An order in which the goroutines of a batch may finish.
abbrev pub in_turn : List ℕ
in_turn = count_up 0 concurrency

module _ {Block Params Strategy World : Type 0} (parts : Parts Block Params Strategy World)
    (last : ℕ) where
  abbrev State : Type 0
  State = Pipeline Block Params Strategy World

  -- What a list, a mapper and a submitter can be.
  List-cases : {A : Type 0} (xs : List A) → (xs ≡ []) ⊎ ((y : A) × (ys : List A) × (xs ≡ y ∷ ys))
  List-cases [] = inl refl
  List-cases (y ∷ ys) = inr (y, ys, refl)

  Mapper-cases :
      (m : Mapper Params) → (m ≡ mapping) ⊎ (((x : Params) × (m ≡ emitting x)) ⊎ (m ≡ map_done))
  Mapper-cases mapping = inl refl
  Mapper-cases (emitting x) = inr (inl (x, refl))
  Mapper-cases map_done = inr (inr refl)

  Submitter-cases : (s : Submitter) → (s ≡ submitting) ⊎ (s ≡ submit_done)
  Submitter-cases submitting = inl refl
  Submitter-cases submit_done = inr refl

  -- How many steps are left at most.
  abbrev pub batches : ℕ → ℕ
  batches s = (last + concurrency - s) / concurrency

  abbrev pub loader_work : Loader Block → ℕ
  loader_work (ranging s) = batches s * 102 + 1
  loader_work (pushing results s) = length results * 4 + batches s * 102 + 2
  loader_work load_done = 0

  abbrev pub mapper_work : Mapper Params → ℕ
  mapper_work mapping = 1
  mapper_work (emitting x) = 3
  mapper_work map_done = 0

  abbrev pub submitter_work : Submitter → ℕ
  submitter_work submitting = 1
  submitter_work submit_done = 0

  abbrev pub work : State → ℕ
  work p =
      loader_work p.loader
      + length p.incoming * 3
      + mapper_work p.mapper
      + length p.process
      + submitter_work p.submitter

  -- A step that is not blocked: it leaves less work, or ends the process.
  abbrev Moves : State → State → Type 0
  Moves p q = (q.cancelled ≡ p.cancelled) × ((q.crashed ≡ true) ⊎ (work q < work p))

  submit-Moves :
      (p : State) (process : List Params)
      → p.process ≡ process
      → p.submitter ≡ submitting
      → (p.process_closed ≡ true) ⊎ ((x : Params) × (xs : List Params) × (process ≡ x ∷ xs))
      → Moves p (receive_process parts last process p)
  unfolding receive_process block_added crash
  submit-Moves p [] e s ready = ground arith
  submit-Moves p (x ∷ xs) e s ready = ground arith

  emit-Moves :
      (p : State) (x : Params)
      → p.mapper ≡ emitting x
      → p.process ≡ []
      → Moves p (map_step parts last (emitting x) p)
  unfolding map_step
  emit-Moves p x e none_left = ground (arith, length-append p.process (x ∷ []))

  receive-Moves :
      (p : State) (incoming : List (Option Block))
      → p.incoming ≡ incoming
      → p.mapper ≡ mapping
      → (p.incoming_closed ≡ true)
        ⊎ ((b : Option Block) × (bs : List (Option Block)) × (incoming ≡ b ∷ bs))
      → Moves p (receive_incoming parts last incoming p)
  unfolding receive_incoming block_mapped crash
  receive-Moves p [] e m ready = ground arith
  receive-Moves p (none ∷ rest) e m ready = ground arith
  receive-Moves p (some b ∷ rest) e m ready = ground arith

  in_turn_finishes : all_finished in_turn ≡ true
  unfolding all_finished
  in_turn_finishes = refl

  module _ (room : last + concurrency < u64_mod) where
    load-Moves :
        (p : State) (loader : Loader Block)
        → p.loader ≡ loader
        → p.incoming ≡ []
        → loader ≢ load_done
        → Moves p (load_step parts last in_turn loader p)
    unfolding load_step batch_loaded crash
    load-Moves p (ranging s) e i going = elim (Option-cases (load_batch parts.source s in_turn)) [
      | inl failed ↦ ground (arith, in_turn_finishes)
      | inr (rs, loaded) ↦
          let len : length rs ≡ 25 =
            ap length (load_batch_lem parts.source s in_turn rs in_turn_finishes loaded).0
            ∙ length-map-count_up (stored parts.source s) 0 concurrency in
          ground (arith, in_turn_finishes)
    ]
    load-Moves p (pushing [] s) e i going = ground arith
    load-Moves p (pushing (b ∷ bs) s) e i going = ground (arith, length-append p.incoming (b ∷ []))
    load-Moves p load_done e i going = absurd (going refl)

    at_mapper :
        (p : State) {m : Mapper Params}
        → p.mapper ≡ m
        → Moves p (map_step parts last m p)
        → Moves p (map_step parts last p.mapper p)
    at_mapper p e = subst (λ m. Moves p (map_step parts last m p)) (sym e)

    at_submitter :
        (p : State) {m : Submitter}
        → p.submitter ≡ m
        → Moves p (submit_step parts last m p)
        → Moves p (submit_step parts last p.submitter p)
    at_submitter p e = subst (λ m. Moves p (submit_step parts last m p)) (sym e)

    -- Some goroutine is not blocked.
    unblocked :
        (p : State)
        → Awake parts last p
        → p.submitter ≡ submitting
        → p.cancelled ≡ false
        → (a : Actor) × Moves p (act parts last a p)
    unfolding act submit_step map_step
    unblocked p awake s running = elim (List-cases p.process) [
      | inr (x, xs, e) ↦
          (submit_next, at_submitter p s (submit-Moves p p.process refl s (inr (x, xs, e))))
      | inl none_left ↦ elim (Mapper-cases p.mapper) [
        | inr (inl (x, e)) ↦ (map_next, at_mapper p e (emit-Moves p x e none_left))
        | inr (inr e) ↦ elim (awake.mapped e) [
          | inl shut ↦ (submit_next, at_submitter p s (submit-Moves p p.process refl s (inl shut)))
          | inr cancelled ↦ cc
        ]
        | inl e ↦ elim (List-cases p.incoming) [
          | inr (b, bs, i) ↦
              (map_next, at_mapper p e (receive-Moves p p.incoming refl e (inr (b, bs, i))))
          | inl empty ↦ elim (Bool-cases p.incoming_closed) [
            | inl shut ↦ (map_next, at_mapper p e (receive-Moves p p.incoming refl e (inl shut)))
            | inr unclosed ↦
                (load in_turn, load-Moves p p.loader refl empty λ d. ground (arith, awake.loaded d))
          ]
        ]
      ]
    ]

    -- From every state in which the mapper and the loader have closed what they had to, some
    -- schedule makes the submitter return, or ends the process.
    pub finishes :
        (n : ℕ) (p : State)
        → work p ≤ n
        → Awake parts last p
        → p.cancelled ≡ false
        → (rest : List Actor) × (length rest ≤ n)
          × ((run parts last rest p).cancelled ≡ false)
          × (((run parts last rest p).submitter ≡ submit_done)
              ⊎ ((run parts last rest p).crashed ≡ true))
    unfolding run step
    finishes zero p le awake running = elim (Submitter-cases p.submitter) [
      | inr returned ↦ ([], omega arith, running, inl returned)
      | inl s ↦ ground arith
    ]
    finishes (suc n) p le awake running = elim (Submitter-cases p.submitter) [
      | inr returned ↦ ([], omega arith, running, inl returned)
      | inl s ↦ elim (Bool-cases p.crashed) [
        | inl crashed ↦ ([], omega arith, running, inr crashed)
        | inr alive ↦
            let (a, (kept, moved)) = unblocked p awake s running in
            let q : State = act parts last a p in
            elim moved [
              | inl crashed ↦
                  (a ∷ [], omega arith, simp alive (kept ∙ running), simp alive (inr crashed))
              | inr less ↦
                  let (rest, short, still, end) =
                    finishes n q (omega (arith, le, less)) (act-Awake parts last a p awake)
                      (kept ∙ running) in
                  (a ∷ rest, omega arith, simp alive still, simp alive end)
            ]
      ]
    ]
