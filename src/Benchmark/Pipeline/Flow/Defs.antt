-- ===== src/Benchmark/Pipeline/Flow/Defs.antt =====
-- What flows through the channels of packages/replayor/benchmark.go, and the invariant that says so.
use replayor.Prelude.{ℕ, ◌+◌, ◌≤◌, ◌<◌, ◌≡◌, Option, none, some, List, [], ◌∷◌, ◌++◌, map, count_up}
use replayor.Exec.{Exec, Outcome, done, stopped, each}
use replayor.Benchmark.Batch.{concurrency, fetch}
use replayor.Benchmark.Pipeline.{
  Parts, Loader, ranging, pushing, load_done, Mapper, mapping, emitting, map_done, Pipeline,
  submitting,
}

module _ {Block Params Strategy World : Type 0} (parts : Parts Block Params Strategy World) where
  -- The blocks of `n` numbers from `first` on.
  abbrev pub blocks : ℕ → ℕ → List (Option Block)
  blocks first n = map (fetch parts.source) (count_up first n)

  -- One turn of `mapBlocks`, with the list of parameters that it has sent so far.
  abbrev pub mapped_to :
      List Params
      → Outcome (Option Params)
      → Strategy
      → Outcome (Unit {0}) × (List Params × Strategy)
  mapped_to out (stopped c) st = (stopped c, (out, st))
  mapped_to out (done none) st = (done tt, (out, st))
  mapped_to out (done (some x)) st = (done tt, (out ++ x ∷ [], st))

  unfoldable pub map_one : Option Block → Exec (List Params × Strategy) (Unit {0})
  map_one none (out, st) = (done tt, (out, st))
  map_one (some b) (out, st) =
      mapped_to out (parts.block_received b st).0 (parts.block_received b st).1

-- The blocks of a batch that still have to be sent.
abbrev pub pending : {Block : Type 0} → Loader Block → List (Option Block)
pending (ranging s) = []
pending (pushing results s) = results
pending load_done = []

abbrev pub held : {Params : Type 0} → Mapper Params → List Params
held mapping = []
held (emitting x) = x ∷ []
held map_done = []

-- The loader stands before the block number that follows the `n` fetched ones.
abbrev pub IsAt : {Block : Type 0} → ℕ → ℕ → Loader Block → Type 0
IsAt next last (ranging s) = s ≡ next
IsAt next last (pushing _ s) = s ≡ next
IsAt next last load_done = last < next

module _ {Block Params Strategy World : Type 0} (parts : Parts Block Params Strategy World)
    (first last : ℕ) (strategy₀ : Strategy) (world₀ : World) where
  abbrev State : Type 0
  State = Pipeline Block Params Strategy World

  -- What has been fetched is what the mapper has consumed, what waits in `incoming` and what the
  -- loader still holds; the parameters made of the consumed blocks have been submitted, rejected,
  -- wait in `process` or are held by the mapper; and `world` is what the submitted ones leave.
  pub record Flow (p : State) : Type 0 where
    pub fetched : ℕ
    pub consumed : List (Option Block)
    pub position : IsAt (first + fetched) last p.loader
    pub near : first + fetched ≤ last + concurrency
    pub served : (i : ℕ) → i < fetched → (b : Block) × (fetch parts.source (first + i) ≡ some b)
    pub split : consumed ++ (p.incoming ++ pending p.loader) ≡ blocks parts first fetched
    pub outs :
        each (map_one parts) consumed ([], strategy₀)
        ≡ (done tt, (p.submitted ++ (p.rejected ++ (p.process ++ held p.mapper)), p.strategy))
    pub added : each parts.add_block p.submitted world₀ ≡ (done tt, p.world)
    pub unrejected : p.submitter ≡ submitting → p.rejected ≡ []
