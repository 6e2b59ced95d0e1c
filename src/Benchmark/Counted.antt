-- ===== src/Benchmark/Counted.antt =====
-- How many transactions the records of packages/replayor/benchmark.go count, whatever the strategy.
use replayor.Prelude.{
  ℕ, ◌≡◌, refl, ◌∙◌, ap, sym, List, [], ◌∷◌, ◌++◌, map, append_assoc, append-nil, length,
}
use mathlib.Core.List.{map-append}
use replayor.Exec.{Outcome, done, each, >>=-eq-done}
use replayor.Strategies.{BlockCreationParams, Strategy}
use replayor.Stats.{BlockCreationStats}
use replayor.Stats.Recorder.{StoredStats, record_block_stats}
use replayor.Benchmark.Enrich.{Options, enrich}
use replayor.Benchmark.Enrich.Kept.{enrich-IsOf}
use replayor.Benchmark.AddBlock.{
  Engine, Submission, Requested, Fetched, Imported, block_stats, add_block,
}
use replayor.Benchmark.AddBlock.Accepted.{add_block-IsAccepted}

abbrev pub txn_counts : List BlockCreationStats → List ℕ
txn_counts stats = map (λ (x : BlockCreationStats). x.txn_count) stats

abbrev pub sizes : {Tx Withdrawals : Type 0} → List (BlockCreationParams Tx Withdrawals) → List ℕ
sizes xs = map (λ x. length x.transactions) xs

module _ {Tx Withdrawals World Kept : Type 0} (engine : Engine Tx Withdrawals World)
    (strategy : Strategy Tx Withdrawals Kept) (options : Options) where
  txn_count-block_stats :
      (x : BlockCreationParams Tx Withdrawals) (r : Requested) (f : Fetched) (i : Imported)
      → (block_stats engine record_block_stats strategy options x r f i).txn_count
        ≡ length x.transactions
  unfolding block_stats
  txn_count-block_stats x r f i = refl

  -- One block adds one record, of as many transactions as it has.
  counted_one :
      (x : BlockCreationParams Tx Withdrawals) (s s' : Submission StoredStats World)
      → add_block engine record_block_stats strategy options x s ≡ (done tt, s')
      → txn_counts s'.recorder.stats ≡ txn_counts s.recorder.stats ++ length x.transactions ∷ []
  unfolding record_block_stats
  counted_one x s s' h =
      let (r, f, i, accepted) =
        add_block-IsAccepted engine record_block_stats strategy options x s s' h in
      let made : BlockCreationStats =
        block_stats engine record_block_stats strategy options x r f i in
      let e : (enrich (engine.dest_node s'.world) options made).txn_count ≡ length x.transactions =
        (enrich-IsOf (engine.dest_node s'.world) options made).1 ∙ txn_count-block_stats x r f i in
      ap (λ (t : StoredStats). txn_counts t.stats) accepted.5
      ∙ map-append (λ (y : BlockCreationStats). y.txn_count) s.recorder.stats _
      ∙ ap (λ n. txn_counts s.recorder.stats ++ n ∷ []) e

  counted_each :
      (xs : List (BlockCreationParams Tx Withdrawals)) (s s' : Submission StoredStats World)
      → each (add_block engine record_block_stats strategy options) xs s ≡ (done tt, s')
      → txn_counts s'.recorder.stats ≡ txn_counts s.recorder.stats ++ sizes xs
  unfolding each
  counted_each [] s s' h =
      let e : s ≡ s' = ap (λ (r : Outcome (Unit {0}) × Submission StoredStats World). r.1) h in
      ap (λ (t : Submission StoredStats World). txn_counts t.recorder.stats) (sym e)
      ∙ sym (append-nil (txn_counts s.recorder.stats))
  counted_each (x ∷ xs) s s' h =
      let (_, t, first, rest) =
        >>=-eq-done (add_block engine record_block_stats strategy options x) _ s h in
      counted_each xs t s' rest ∙ (rw (counted_one x s t first, append_assoc) refl)

  -- From an empty recorder on, there is one record for each block, of its transactions.
  pub counted_all :
      (xs : List (BlockCreationParams Tx Withdrawals)) (s s' : Submission StoredStats World)
      → s.recorder.stats ≡ []
      → each (add_block engine record_block_stats strategy options) xs s ≡ (done tt, s')
      → txn_counts s'.recorder.stats ≡ sizes xs
  counted_all xs s s' empty h = counted_each xs s s' h ∙ (rw empty refl)
