-- ===== src/Benchmark/Tests/Nonces.antt =====
-- The nonces of a run of packages/replayor/benchmark.go that fills its blocks by the strategy of
-- packages/strategies/stress.go.
use mathlib.Core.Path.{subst}
use replayor.Prelude.{
  Bool-cases, inl, inr, ℕ, zero, suc, ◌+◌, ◌*◌, ◌/◌, ◌%◌, ◌<◌, ◌≡◌, refl, Option, none, some, List,
  [], ◌∷◌, arith, replicate, get_elem?, or_zero, ltb, if◌then◌else◌,
}
use replayor.Exec.{Result, ok, err}
use replayor.Chain.{Block}
use replayor.Strategies.{BlockCreationParams}
use replayor.Stats.{BlockCreationStats}
use replayor.Strategies.Signing.{DynamicFeeTx, Wallet, Globals, deposit_txns}
use replayor.Strategies.Nonces.{Use, IsIncreasing, Signs, signed_by}
use replayor.Strategies.Stress.Fresh.{AreForeign}
use replayor.Benchmark.Batch.{SourceNode, fetch, all_finished, load_batch}
use replayor.Benchmark.AddBlock.{
  Submission, add_block, request_payload, fetch_payload, import_payload, finish, marshal_all,
  block_stats,
}
use replayor.Benchmark.Pipeline.{Limits, Pipeline, run, init_pipeline}
use replayor.Strategies.Stress.{stress_test, stress_received, modify_transactions, fill, pack_it_up}
use replayor.Strategies.Packing.{last_tx, pack_erc20_transfer, erc20_loop}
use replayor.Benchmark.Pipeline.Delivery.{final}
use replayor.Benchmark.Stressed.{stress_parts}
use replayor.Benchmark.Stressed.Nonces.{uses_of, stress_nonces}
use replayor.Benchmark.Tests.{block_of, engine, keep_all, no_options, at_genesis, schedule}
use replayor.Benchmark.Tests.Stress.{bare_wallet, erc20_cfg}

-- A transaction is a number that tells its nonce and its signer, or 0 if none of the accounts signed
-- it.
abbrev sign : DynamicFeeTx → ℕ → Result ℕ
sign t i = if ltb i 10 then ok (suc (t.nonce * 10 + i)) else err "unknown key"

abbrev signer : ℕ → Option Use
signer zero = none
signer (suc m) = some (m % 10, m / 10)

abbrev telling_wallet : Wallet ℕ
telling_wallet = record bare_wallet { sign_tx = sign; new_deposit = λ d. 0 }

sign_tells : (t : DynamicFeeTx) (i tx : ℕ) → sign t i ≡ ok tx → signer tx ≡ some (i, t.nonce)
sign_tells t i tx h = elim (Bool-cases (ltb i 10)) [
  | inr other ↦ ground arith
  | inl account ↦
      let same : suc (t.nonce * 10 + i) ≡ tx = ground arith in
      let index : (t.nonce * 10 + i) % 10 ≡ i = ground arith in
      let nonce : (t.nonce * 10 + i) / 10 ≡ t.nonce = ground arith in rw (← same, index, nonce) refl
]

abbrev telling : Signs telling_wallet
telling = record { signed = signer; sign = sign_tells; deposit = λ d. refl }

abbrev foreign_chain : SourceNode (Block ℕ ℕ)
foreign_chain = record {
  block_by_number = λ n attempt. ok (some (record (block_of n) { transactions = 0 ∷ 0 ∷ [] }));
  retry_do = λ attempts op. op 0;
}

chain_foreign :
    (n : ℕ) (b : Block ℕ ℕ)
    → fetch foreign_chain n ≡ some b
    → AreForeign telling_wallet telling b.transactions
unfolding fetch
chain_foreign n b h =
    let served : record (block_of n) { transactions = 0 ∷ 0 ∷ [] } ≡ b = ground arith in
    subst (λ (c : Block ℕ ℕ). AreForeign telling_wallet telling c.transactions) served
      (refl, (refl, tt))

abbrev late_blocks : Limits
late_blocks = record { start_block_num = 11; end_block_num = 12; remaining_block_count = 2 }

abbrev unused : Globals
unused = record { nonces = replicate 10 5; test_contract_address = 7 }

unused_room : (n i : ℕ) → or_zero (get_elem? (replicate n 5) i) 0 < 6
unused_room zero i = omega arith
unused_room (suc n) zero = omega arith
unused_room (suc n) (suc i) = unused_room n i

abbrev filling :
    Pipeline (Block ℕ ℕ) (BlockCreationParams ℕ ℕ) Globals (Submission (List BlockCreationStats) ℕ)
filling =
    final
      (stress_parts engine keep_all no_options foreign_chain telling_wallet erc20_cfg 0 (λ n. []))
      late_blocks unused at_genesis schedule

stress_nonces_example : IsIncreasing (uses_of signer filling.submitted)
stress_nonces_example =
    stress_nonces engine keep_all no_options foreign_chain telling_wallet telling erc20_cfg 0
      (λ n. []) (λ n. tt) late_blocks unused at_genesis schedule (omega arith) (omega arith) refl
      (λ i lt. omega (arith, unused_room 10 i)) chain_foreign

-- Four transfers in each of the two blocks.
eight_transfers :
    uses_of signer filling.submitted
    ≡ (0, 5) ∷ (0, 6) ∷ (0, 7) ∷ (0, 8) ∷ (0, 9) ∷ (0, 10) ∷ (0, 11) ∷ (0, 12) ∷ []
unfolding run init_pipeline stress_parts add_block request_payload fetch_payload import_payload
    finish stress_test all_finished load_batch fetch marshal_all block_stats stress_received
    signed_by deposit_txns modify_transactions fill pack_it_up pack_erc20_transfer erc20_loop
    last_tx
eight_transfers = refl
