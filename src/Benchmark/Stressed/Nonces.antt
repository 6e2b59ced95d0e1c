-- ===== src/Benchmark/Stressed/Nonces.antt =====
-- The nonces that a run of packages/replayor/benchmark.go uses with the strategy of
-- packages/strategies/stress.go.
use mathlib.Core.Path.{subst}
use replayor.Prelude.{
  ℕ, ◌+◌, ◌-◌, ◌*◌, ◌≤◌, ◌<◌, ◌≡◌, refl, sym, ap, ◌∙◌, Option, none, some, List, [], ◌∷◌, ◌++◌,
  arith, length, All, All-map, All-prefix, All-always, append-nil, append_assoc, count_up,
  length-append, length-map-count_up, u64_mod,
}
use replayor.Exec.{Outcome, done, stopped, each, >>=-eq-done}
use replayor.Chain.{Block}
use replayor.Config.{ReplayorConfig}
use replayor.Strategies.{BlockCreationParams}
use replayor.Strategies.Signing.{Wallet, Globals, num_addresses, nonce_at}
use replayor.Strategies.Nonces.{
  Use, IsIncreasing, Fresh, Fresh-refl, Fresh-eq, Fresh-more, Fresh-trans, Signs, signed_by,
  signed_by-append,
}
use replayor.Strategies.Packing.{Draw}
use replayor.Strategies.Packing.Fresh.{AreAccounts}
use replayor.Strategies.Stress.{stress_test, stress_received, stress_params, modify_transactions}
use replayor.Strategies.Stress.Fresh.{AreForeign, modify_transactions-Fresh}
use replayor.Stats.{BlockCreationStats}
use replayor.Benchmark.Batch.{SourceNode, concurrency, fetch}
use replayor.Benchmark.Enrich.{Options}
use replayor.Benchmark.AddBlock.{Engine, Submission}
use replayor.Benchmark.Pipeline.{Limits, Parts, Actor}
use replayor.Benchmark.Pipeline.Flow.{mapped_to, map_one, held, pending}
use replayor.Benchmark.Pipeline.Delivery.{final, final-Flow}
use replayor.Benchmark.Stressed.{stress_parts}

IsIncreasing-prefix : (us vs : List Use) → IsIncreasing (us ++ vs) → IsIncreasing us
IsIncreasing-prefix [] vs h = tt
IsIncreasing-prefix (u ∷ us) vs h = (All-prefix _ us vs h.0, IsIncreasing-prefix us vs h.1)

-- The transactions of all blocks, in order.
abbrev pub all_transactions :
    {Tx Withdrawals : Type 0} → List (BlockCreationParams Tx Withdrawals) → List Tx
all_transactions [] = []
all_transactions (x ∷ xs) = x.transactions ++ all_transactions xs

all_transactions-append :
    {Tx Withdrawals : Type 0} (xs ys : List (BlockCreationParams Tx Withdrawals))
    → all_transactions (xs ++ ys) ≡ all_transactions xs ++ all_transactions ys
all_transactions-append [] ys = refl
all_transactions-append (x ∷ xs) ys =
    ap (λ txs. x.transactions ++ txs) (all_transactions-append xs ys)
    ∙ sym (append_assoc x.transactions (all_transactions xs) (all_transactions ys))

-- What the blocks use, by account and nonce.
abbrev pub uses_of :
    {Tx Withdrawals : Type 0}
    → (Tx → Option Use)
    → List (BlockCreationParams Tx Withdrawals)
    → List Use
uses_of signed xs = signed_by signed (all_transactions xs)

-- At most so many nonces of an account for one block.
abbrev pub per_block : ReplayorConfig → ℕ
per_block cfg = cfg.gas_target + 2

module _ {Tx Withdrawals : Type 0} (wallet : Wallet Tx) (signs : Signs wallet)
    (cfg : ReplayorConfig) (start_block_num : ℕ) (draws : ℕ → List Draw)
    (accounts : (n : ℕ) → AreAccounts wallet cfg (draws n)) where
  -- Whether a block has come without transactions of the test's accounts.
  abbrev ComesForeign : Option (Block Tx Withdrawals) → Type 0
  ComesForeign got =
      (b : Block Tx Withdrawals) → got ≡ some b → AreForeign wallet signs b.transactions

  stress_received-Fresh :
      (b : Block Tx Withdrawals) (g g' : Globals) (r : Option (BlockCreationParams Tx Withdrawals))
      → AreForeign wallet signs b.transactions
      → length g.nonces ≡ num_addresses
      → ((i : ℕ) → i < num_addresses → nonce_at i g + per_block cfg < u64_mod)
      → stress_received wallet cfg start_block_num draws b g ≡ (done r, g')
      → (x : BlockCreationParams Tx Withdrawals) × (r ≡ some x)
        × Fresh g (per_block cfg) (uses_of signs.signed (x ∷ [])) g'
  unfolding stress_received stress_params
  stress_received-Fresh b g g' r foreign size room h =
      let (txns, g₁, p, h₁) =
        >>=-eq-done (modify_transactions wallet cfg start_block_num draws b b.transactions) _ g h in
      let x : BlockCreationParams Tx Withdrawals =
        stress_params wallet cfg start_block_num draws b txns in
      let made : r ≡ some x = cc in
      let end : g₁ ≡ g' = cc in
      let f =
        modify_transactions-Fresh wallet signs cfg start_block_num draws b g size room
          b.transactions foreign (accounts b.number) txns g₁ p in
      (x, made, Fresh-eq (sym (ap (signed_by signs.signed) (append-nil txns))) end f)

module _ {Block Params Strategy World : Type 0} (parts : Parts Block Params Strategy World) where
  mapped_to-inv :
      (r : Outcome (Option Params)) (out out' : List Params) (st st' : Strategy)
      → mapped_to parts out r st ≡ (done tt, (out', st'))
      → (o : Option Params) × (r ≡ done o)
        × (st ≡ st')
        × ((x : Params) → o ≡ some x → out' ≡ out ++ x ∷ [])
  mapped_to-inv (stopped c) out out' st st' h = cc
  mapped_to-inv (done none) out out' st st' h = (none, refl, cc, λ x e. cc)
  mapped_to-inv (done (some x)) out out' st st' h = (some x, refl, cc, λ y e. cc)

module _ {Tx Withdrawals Recorder World : Type 0} (engine : Engine Tx Withdrawals World)
    (record_block_stats : BlockCreationStats → Recorder → Recorder) (options : Options)
    (node : SourceNode (Block Tx Withdrawals)) (wallet : Wallet Tx) (signs : Signs wallet)
    (cfg : ReplayorConfig) (start_block_num : ℕ) (draws : ℕ → List Draw)
    (accounts : (n : ℕ) → AreAccounts wallet cfg (draws n)) where
  abbrev parts :
      Parts
        (Block Tx Withdrawals)
        (BlockCreationParams Tx Withdrawals)
        Globals
        (Submission Recorder World)
  parts = stress_parts engine record_block_stats options node wallet cfg start_block_num draws

  map_one-Fresh :
      (g : Globals) (k : ℕ) (b : Block Tx Withdrawals)
      (out out' : List (BlockCreationParams Tx Withdrawals)) (st st' : Globals)
      → AreForeign wallet signs b.transactions
      → length g.nonces ≡ num_addresses
      → ((i : ℕ) → i < num_addresses → nonce_at i g + (k + per_block cfg) < u64_mod)
      → Fresh g k (uses_of signs.signed out) st
      → map_one parts (some b) (out, st) ≡ (done tt, (out', st'))
      → Fresh g (k + per_block cfg) (uses_of signs.signed out') st'
  unfolding map_one stress_parts stress_test
  map_one-Fresh g k b out out' st st' foreign size room f h =
      let received = stress_received wallet cfg start_block_num draws b st in
      let (o, got, same, grown) = mapped_to-inv parts received.0 out out' received.1 st' h in
      let (x, e, f') =
        stress_received-Fresh wallet signs cfg start_block_num draws accounts b st received.1 o
          foreign (omega (arith, f.size, size)) (λ i lt. omega (arith, room i lt, f.few i))
          (ap (λ (r : Outcome (Option (BlockCreationParams Tx Withdrawals))). (r, received.1))
            got) in
      let all : uses_of signs.signed out ++ uses_of signs.signed (x ∷ [])
          ≡ uses_of signs.signed out' =
        rw (grown x e, all_transactions-append out (x ∷ []))
          (sym
            (signed_by-append signs.signed (all_transactions out) (all_transactions (x ∷ [])))) in
      Fresh-eq all same (Fresh-trans f f')

  mapped-Fresh :
      (g : Globals) (k : ℕ) (bs : List (Option (Block Tx Withdrawals)))
      (out out' : List (BlockCreationParams Tx Withdrawals)) (st st' : Globals)
      → All (ComesForeign wallet signs cfg start_block_num draws accounts) bs
      → length g.nonces ≡ num_addresses
      → ((i : ℕ) → i < num_addresses → nonce_at i g + (k + length bs * per_block cfg) < u64_mod)
      → Fresh g k (uses_of signs.signed out) st
      → each (map_one parts) bs (out, st) ≡ (done tt, (out', st'))
      → Fresh g (k + length bs * per_block cfg) (uses_of signs.signed out') st'
  unfolding each map_one
  mapped-Fresh g k [] out out' st st' foreign size room f h =
      let same : out ≡ out' = cc in
      let end : st ≡ st' = cc in
      Fresh-eq (ap (uses_of signs.signed) same) end (Fresh-more (omega arith) f)
  mapped-Fresh g k (none ∷ bs) out out' st st' foreign size room f h =
      Fresh-more (grind arith)
        (mapped-Fresh g k bs out out' st st' foreign.1 size (λ i lt. grind (arith, room i lt)) f h)
  mapped-Fresh g k (some b ∷ bs) out out' st st' foreign size room f h =
      let (_, (mid, st₁), one, rest) =
        >>=-eq-done (map_one parts (some b)) (λ _. each (map_one parts) bs) (out, st) h in
      let f' =
        map_one-Fresh g k b out mid st st₁ (foreign.0 b refl) size
          (λ i lt. grind (arith, room i lt)) f one in
      Fresh-more (grind arith) (
        mapped-Fresh g (k + per_block cfg) bs mid out' st₁ st' foreign.1 size
          (λ i lt. grind (arith, room i lt)) f' rest)

  -- For an end block 25 below 2 ^ 64 and a start block at most one past it, ten accounts, draws of
  -- these accounts alone, a source whose blocks hold no transaction that they signed, and nonces that
  -- cannot reach 2 ^ 64 within the blocks of the run: whatever the schedule and whatever can be
  -- signed, of the transactions of one account that the blocks handed to `addBlock` hold, a later one
  -- has a greater nonce.
  pub stress_nonces :
      (limits : Limits) (g : Globals) (s : Submission Recorder World) (schedule : List Actor)
      → limits.start_block_num ≤ limits.end_block_num + 1
      → limits.end_block_num + concurrency < u64_mod
      → length g.nonces ≡ num_addresses
      → ((i : ℕ)
          → i < num_addresses
          → nonce_at i g
              + (limits.end_block_num + concurrency - limits.start_block_num) * per_block cfg
            < u64_mod)
      → ((n : ℕ) (b : Block Tx Withdrawals)
          → fetch node n ≡ some b
          → AreForeign wallet signs b.transactions)
      → IsIncreasing (uses_of signs.signed (final parts limits g s schedule).submitted)
  unfolding stress_parts signed_by
  stress_nonces limits g s schedule ordered room size fresh foreign =
      let p = final parts limits g s schedule in
      let flow = final-Flow parts limits g s schedule ordered room in
      let Q = ComesForeign wallet signs cfg start_block_num draws accounts in
      let waiting = p.incoming ++ pending p.loader in
      let all : All Q (flow.consumed ++ waiting) = subst (All Q) (sym flow.split) (
        All-map Q (fetch node) (count_up limits.start_block_num flow.fetched)
          (All-always _ foreign (count_up limits.start_block_num flow.fetched))) in
      let count : length flow.consumed + length waiting ≡ flow.fetched =
        sym (length-append flow.consumed waiting)
        ∙ ap length flow.split
        ∙ length-map-count_up (fetch node) limits.start_block_num flow.fetched in
      let few : length flow.consumed ≤ limits.end_block_num + concurrency - limits.start_block_num =
        omega (arith, flow.near) in
      let later = p.rejected ++ (p.process ++ held p.mapper) in
      let f =
        mapped-Fresh g 0 flow.consumed [] (p.submitted ++ later) g p.strategy
          (All-prefix Q flow.consumed waiting all) size (λ i lt. grind (arith, fresh i lt))
          (Fresh-refl g) flow.outs in
      IsIncreasing-prefix (uses_of signs.signed p.submitted) (uses_of signs.signed later) (
        subst IsIncreasing
          (ap (signed_by signs.signed) (all_transactions-append p.submitted later)
            ∙ signed_by-append signs.signed (all_transactions p.submitted) (all_transactions later))
          f.increasing)
