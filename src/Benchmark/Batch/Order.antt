-- ===== src/Benchmark/Batch/Order.antt =====
-- The slice that a batch leaves does not depend on the order in which its goroutines finish.
use replayor.Prelude.{
  ℕ, zero, suc, ◌+◌, ◌<◌, ◌≡◌, refl, true, Option, none, some, List, [], ◌∷◌, map, arith, ◌==◌,
  if◌then◌else◌, set, get_elem?, length, replicate, count_up, add64, length-set, get_elem?-set_self,
  get_elem?-set_ne, eq_of_get_elem?, length-map-count_up, get_elem?-map-count_up, length-replicate,
  and-right, Bool-cases, Option-cases, ◌∙◌, inl, inr,
}
use replayor.Benchmark.Batch.{
  SourceNode, concurrency, fetch, run_workers, load_batch, contains, contains_below, all_below,
  all_finished,
}

contains_of_below :
    (n i : ℕ) (order : List ℕ) → contains_below n order ≡ true → i < n → contains i order ≡ true
contains_of_below zero i order h lt = elim lt [ ]
contains_of_below (suc n) i order h lt = ground (arith, contains_of_below n i order)

module _ {Block : Type 0} (node : SourceNode Block) (s : ℕ) where
  -- What the goroutine of an index stores.
  abbrev pub stored : ℕ → Option Block
  stored i = fetch node (add64 s i)

  -- A batch that goes on past its first goroutine has fetched that one's block.
  run_workers-inv :
      (i : ℕ) (order : List ℕ) (results rs : List (Option Block))
      → run_workers node s (i ∷ order) results ≡ some rs
      → (b : Block) × (stored i ≡ some b)
        × (run_workers node s order (set results i (some b)) ≡ some rs)
  unfolding run_workers
  run_workers-inv i order results rs h = elim (Option-cases (stored i)) [
    | inl e ↦ ground arith
    | inr (b, e) ↦ (b, e, ground arith)
  ]

  length-run_workers :
      (order : List ℕ) (results rs : List (Option Block))
      → run_workers node s order results ≡ some rs
      → length rs ≡ length results
  unfolding run_workers
  length-run_workers [] results rs h = ground arith
  length-run_workers (i ∷ order) results rs h =
      let (b, e, k) = run_workers-inv i order results rs h in
      length-run_workers order (set results i (some b)) rs k ∙ length-set results i (some b)

  get_elem?-run_workers :
      (order : List ℕ) (results rs : List (Option Block))
      → run_workers node s order results ≡ some rs
      → (i : ℕ) → i < length results
      → get_elem? rs i ≡ (if contains i order then some (stored i) else get_elem? results i)
  unfolding run_workers
  get_elem?-run_workers [] results rs h i lt = ground arith
  get_elem?-run_workers (j ∷ order) results rs h i lt =
      let (b, e, k) = run_workers-inv j order results rs h in
      let len : length (set results j (some b)) ≡ length results = length-set results j (some b) in
      let ih : get_elem? rs i
          ≡ (if contains i order then some (stored i) else get_elem? (set results j (some b)) i) =
        get_elem?-run_workers order (set results j (some b)) rs k i (omega arith) in
      ground (arith, get_elem?-set_self results j (some b), get_elem?-set_ne results j i (some b))

  fetched-run_workers :
      (order : List ℕ) (results rs : List (Option Block))
      → run_workers node s order results ≡ some rs
      → (i : ℕ) → contains i order ≡ true
      → (b : Block) × (stored i ≡ some b)
  fetched-run_workers [] results rs h i m = cc
  fetched-run_workers (j ∷ order) results rs h i m =
      let (b, e, k) = run_workers-inv j order results rs h in
      elim (Bool-cases (i == j)) [
        | inl same ↦ let p : i ≡ j = ground arith in (b, rw p e)
        | inr other ↦ fetched-run_workers order (set results j (some b)) rs k i (ground arith)
      ]

  run_workers_full :
      (n : ℕ) (order : List ℕ) (rs : List (Option Block))
      → contains_below n order ≡ true
      → run_workers node s order (replicate n none) ≡ some rs
      → rs ≡ map stored (count_up 0 n)
  run_workers_full n order rs h k =
      let len : length rs ≡ n =
        length-run_workers order (replicate n none) rs k ∙ length-replicate n none in
      eq_of_get_elem? rs (map stored (count_up 0 n)) (omega (arith, length-map-count_up stored 0 n))
        λ i lt.
          let lt' : i < n = omega (arith, length-map-count_up stored 0 n) in
          let e : 0 + i ≡ i = omega arith in
          get_elem?-run_workers order (replicate n none) rs k i
            (omega (arith, length-replicate {A = Option Block} n none))
          ∙ (rw (contains_of_below n i order h lt', get_elem?-map-count_up stored 0 n i lt', e)
              refl)

  -- However the goroutines of a batch were ordered, if all finish and none panics, the slice holds
  -- the blocks of the batch in the order of their numbers, and every one of them was fetched.
  pub load_batch_lem :
      (order : List ℕ) (rs : List (Option Block))
      → all_finished order ≡ true
      → load_batch node s order ≡ some rs
      → (rs ≡ map stored (count_up 0 concurrency))
        × ((i : ℕ) → i < concurrency → (b : Block) × (stored i ≡ some b))
  unfolding load_batch all_finished
  load_batch_lem order rs h k =
      let full : contains_below concurrency order ≡ true =
        and-right (all_below concurrency order) (contains_below concurrency order) h in
      (
        run_workers_full concurrency order rs full k,
        λ i lt. fetched-run_workers order _ rs k i (contains_of_below concurrency i order full lt),
      )
