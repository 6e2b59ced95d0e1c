-- ===== src/Benchmark/Pipeline/Numbers.antt =====
-- What a strategy that keeps block numbers makes of consecutive blocks: parameters of consecutive
-- numbers. (packages/replayor/benchmark.go)
use replayor.Prelude.{
  ℕ, zero, suc, ◌+◌, ◌<◌, ◌≡◌, refl, ◌∙◌, ap, Option, none, some, List, [], ◌∷◌, ◌++◌, map, arith,
  append_assoc, append-nil, count_up,
}
use mathlib.Core.List.{map-append}
use replayor.Exec.{Outcome, done, stopped, each, >>=-eq-done}
use replayor.Benchmark.Batch.{fetch}
use replayor.Benchmark.Pipeline.{Parts}
use replayor.Benchmark.Pipeline.Flow.{blocks, mapped_to, map_one}

-- The source node answers with the block that was asked for, and the strategy skips no block and
-- keeps its number.
pub record KeepsNumber {Block Params Strategy World : Type 0}
    (parts : Parts Block Params Strategy World) (block_number : Block → ℕ) : Type 0 where
  pub sourced : (n : ℕ) (b : Block) → fetch parts.source n ≡ some b → block_number b ≡ n
  pub kept :
      (b : Block) (st : Strategy) (r : Option Params)
      → (parts.block_received b st).0 ≡ done r
      → (x : Params) × (r ≡ some x) × (parts.number x ≡ block_number b)

module _ {Block Params Strategy World : Type 0} (parts : Parts Block Params Strategy World) where
  mapped_to-append :
      (r : Outcome (Option Params)) (out out' : List Params) (st st' : Strategy)
      → mapped_to parts out r st ≡ (done tt, (out', st'))
      → (more : List Params) × (out' ≡ out ++ more)
  mapped_to-append (stopped c) out out' st st' h = cc
  mapped_to-append (done none) out out' st st' h = ([], ground (arith, append-nil out))
  mapped_to-append (done (some x)) out out' st st' h = (x ∷ [], ground arith)

  -- One turn of the mapper only adds at the end.
  mapped_one-append :
      (b : Option Block) (out out' : List Params) (st st' : Strategy)
      → map_one parts b (out, st) ≡ (done tt, (out', st'))
      → (more : List Params) × (out' ≡ out ++ more)
  unfolding map_one
  mapped_one-append none out out' st st' h = ([], ground (arith, append-nil out))
  mapped_one-append (some b) out out' st st' h =
      mapped_to-append (parts.block_received b st).0 out out' (parts.block_received b st).1 st' h

  pub mapped-append :
      (bs : List (Option Block)) (out out' : List Params) (st st' : Strategy)
      → each (map_one parts) bs (out, st) ≡ (done tt, (out', st'))
      → (more : List Params) × (out' ≡ out ++ more)
  unfolding each
  mapped-append [] out out' st st' h = ([], ground (arith, append-nil out))
  mapped-append (b ∷ bs) out out' st st' h =
      let (_, (mid, st₁), one, rest) =
        >>=-eq-done (map_one parts b) (λ _. each (map_one parts) bs) (out, st) h in
      let (here, e) = mapped_one-append b out mid st st₁ one in
      let (later, e') = mapped-append bs mid out' st₁ st' rest in
      (here ++ later, e' ∙ ap (λ o. o ++ later) e ∙ append_assoc out here later)

  module _ (block_number : Block → ℕ) (keeps : KeepsNumber parts block_number) where
    mapped_to_number :
        (n : ℕ) (b : Block) (r : Outcome (Option Params)) (out out' : List Params)
        (st st' st₀ : Strategy)
        → fetch parts.source n ≡ some b
        → (parts.block_received b st₀).0 ≡ r
        → mapped_to parts out r st ≡ (done tt, (out', st'))
        → map parts.number out' ≡ map parts.number out ++ n ∷ []
    mapped_to_number n b (stopped c) out out' st st' st₀ e got h = cc
    mapped_to_number n b (done none) out out' st st' st₀ e got h =
        let (x, p, q) = keeps.kept b st₀ none got in cc
    mapped_to_number n b (done (some x)) out out' st st' st₀ e got h =
        let (y, p, q) = keeps.kept b st₀ (some x) got in
        let num : parts.number x ≡ n = cc (keeps.sourced n b e) in
        let grown : out' ≡ out ++ x ∷ [] = ground arith in rw (grown, map-append, num) refl

    mapped_one_number :
        (n : ℕ) (out out' : List Params) (st st' : Strategy)
        → ((c : Block) × (fetch parts.source n ≡ some c))
        → map_one parts (fetch parts.source n) (out, st) ≡ (done tt, (out', st'))
        → map parts.number out' ≡ map parts.number out ++ n ∷ []
    unfolding map_one
    mapped_one_number n out out' st st' (c, e) h =
        mapped_to_number n c (parts.block_received c st).0 out out' (parts.block_received c st).1
          st' st e refl (rw (e, map_one) at h)

    -- The parameters made of `n` consecutive blocks have their numbers.
    pub mapped_numbers :
        (first n : ℕ) (out out' : List Params) (st st' : Strategy)
        → ((i : ℕ) → i < n → (b : Block) × (fetch parts.source (first + i) ≡ some b))
        → each (map_one parts) (blocks parts first n) (out, st) ≡ (done tt, (out', st'))
        → map parts.number out' ≡ map parts.number out ++ count_up first n
    unfolding each
    mapped_numbers first zero out out' st st' served h =
        let same : out' ≡ out = ground arith in rw (same, append-nil) refl
    mapped_numbers first (suc n) out out' st st' served h =
        let (_, (mid, st₁), one, rest) =
          >>=-eq-done (map_one parts (fetch parts.source first))
            (λ _. each (map_one parts) (blocks parts (first + 1) n)) (out, st) h in
        let e : first + 0 ≡ first = omega arith in
        let here = mapped_one_number first out mid st st₁ (rw e at (served 0 (omega arith))) one in
        let later =
          mapped_numbers (first + 1) n mid out' st₁ st'
            (λ i lt.
              let next : first + 1 + i ≡ first + suc i = omega arith in
              rw next (served (suc i) (omega arith)))
            rest in
        later
        ∙ (rw here (append_assoc (map parts.number out) (first ∷ []) (count_up (first + 1) n)))
