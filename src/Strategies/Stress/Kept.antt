-- ===== src/Strategies/Stress/Kept.antt =====
-- The transactions of a block that `modifyTransactions` of packages/strategies/stress.go keeps.
use replayor.Prelude.{
  ℕ, ◌==◌, if◌then◌else◌, ◌+◌, ◌≤◌, ◌<◌, arith, ◌≡◌, sym, some, inl, inr, Bool-cases, List, [], ◌∷◌,
  ◌++◌, length, add64, sub64, u64_mod, Bool, true, false,
}
use replayor.Exec.{done, Exec, pure, >>=-eq-done}
use replayor.Chain.{Block}
use replayor.Config.{ReplayorConfig}
use replayor.Strategies.Signing.{
  num_addresses, prepare_deploy_contract, DepositTx, Wallet, Globals, deposit_txns, user_txns,
  prepare_deposit,
}
use replayor.Strategies.Packing.{Draw}
use replayor.Strategies.Stress.{or_panic, deploy_with, deploy_txns, fund, modify_transactions}

-- What is not deployed adds nothing.
not_first :
    {Tx : Type 0} (t : Bool) (m : Exec Globals (List Tx)) (g g' : Globals) (deployed : List Tx)
    → t ≡ false
    → (if t then m else pure []) g ≡ (done deployed, g')
    → deployed ≡ []
not_first true m g g' deployed e h = cc
not_first false m g g' deployed e h = cc

module _ {Tx : Type 0} (wallet : Wallet Tx) where
  -- The deposit that gives an account its funds.
  abbrev pub funding : ℕ → ℕ → DepositTx
  funding hash i = record {
    source_hash = wallet.user_deposit_hash hash 10_000;
    from = wallet.addresses i;
    to = some (wallet.addresses i);
    mint = 100_000_000_000_000_000_000_000_000;
    value = 100_000_000_000_000_000_000_000_000;
    gas = 21_000;
  }

  pub prepare_deposit-eq :
      (start_block_num hash n : ℕ) (g g' : Globals) (tx : Tx)
      → prepare_deposit wallet start_block_num hash n g ≡ (done tx, g')
      → (sub64 (sub64 n start_block_num) 1 < num_addresses)
        × (wallet.new_deposit (funding hash (sub64 (sub64 n start_block_num) 1)) ≡ tx)
  unfolding prepare_deposit
  prepare_deposit-eq start_block_num hash n g g' tx h = (ground arith, ground arith)

  -- The account of a block is the number of blocks after the first one that follows the start block.
  account_of :
      (start_block_num n : ℕ)
      → start_block_num < u64_mod
      → n < u64_mod
      → sub64 (sub64 n start_block_num) 1 < num_addresses
      → n ≡ add64 start_block_num (sub64 (sub64 n start_block_num) 1 + 1)
  account_of start_block_num n hs hn lt = omega arith

  -- A list of transactions is its deposits and its other transactions, shuffled.
  pub data Split : List Tx → List Tx → List Tx → Type 0 where
    empty : Split [] [] []
    split_deposit :
        (tx : Tx) {deps users txs : List Tx}
        → wallet.is_deposit_tx tx ≡ true
        → Split deps users txs
        → Split (tx ∷ deps) users (tx ∷ txs)
    split_user :
        (tx : Tx) {deps users txs : List Tx}
        → wallet.is_deposit_tx tx ≡ false
        → Split deps users txs
        → Split deps (tx ∷ users) (tx ∷ txs)

  -- `splitTxs` makes that of it.
  split_lem : (txs : List Tx) → Split (deposit_txns wallet txs) (user_txns wallet txs) txs
  unfolding deposit_txns user_txns
  split_lem [] = empty
  split_lem (tx ∷ txs) = elim (Bool-cases (wallet.is_deposit_tx tx)) [
    | inl dep ↦ simp dep (split_deposit tx dep (split_lem txs))
    | inr other ↦ simp other (split_user tx other (split_lem txs))
  ]

  first_only :
      (start_block_num n i : ℕ)
      → start_block_num < u64_mod
      → i < num_addresses
      → n ≡ add64 start_block_num (i + 1)
      → 0 < i
      → (n == add64 start_block_num 1) ≡ false
  first_only start_block_num n i hs lt e later = ground arith

  -- All transactions of a block: its deposits first, in their order, then the funding of the account
  -- whose turn it is, then, for the first account, at most one deployment, and then the others, in
  -- their order.
  abbrev pub IsKept : ℕ → ℕ → List Tx → List Tx → Type 0
  IsKept start_block_num n txs out =
      (i : ℕ) × (hash : ℕ) × (deps : List Tx) × (deployed : List Tx) × (users : List Tx) × (i
        < num_addresses)
      × (n ≡ add64 start_block_num (i + 1))
      × Split deps users txs
      × (out ≡ (deps ++ wallet.new_deposit (funding hash i) ∷ []) ++ (deployed ++ users))
      × ((length deployed ≤ 1) × (0 < i → deployed ≡ []))

module _ {Tx Withdrawals : Type 0} (wallet : Wallet Tx) (cfg : ReplayorConfig) (start_block_num : ℕ)
    (draws : ℕ → List Draw) where
  deploy_with-length :
      (b : Block Tx Withdrawals) (code : List ℕ) (g g' : Globals) (out : List Tx)
      → deploy_with wallet cfg start_block_num draws b code g ≡ (done out, g')
      → length out ≤ 1
  unfolding deploy_with
  deploy_with-length b code g g' out h =
      let (signed, g₁, p, h₁) = >>=-eq-done (prepare_deploy_contract wallet b code) _ g h in
      let (tx, g₂, q, h₂) = >>=-eq-done (or_panic signed) _ g₁ h₁ in
      let same : tx ∷ [] ≡ out = cc in rw (sym same) (omega arith)

  deploy_txns-length :
      (b : Block Tx Withdrawals) (g g' : Globals) (out : List Tx)
      → deploy_txns wallet cfg start_block_num draws b g ≡ (done out, g')
      → length out ≤ 1
  unfolding deploy_txns
  deploy_txns-length b g g' out h = ground (
    arith,
    deploy_with-length b wallet.erc20_bytecode g g' out,
    deploy_with-length b wallet.precompile_targeter_bytecode g g' out,
    deploy_with-length b wallet.storage_stressor_bytecode g g' out,
  )

  module _ (start_word : start_block_num < u64_mod) where
    fund-IsKept :
        (b : Block Tx Withdrawals) (hash : ℕ) (txs out : List Tx) (g g' : Globals)
        → b.number < u64_mod
        → fund wallet cfg start_block_num draws b hash txs g ≡ (done out, g')
        → IsKept wallet start_block_num b.number txs out
    unfolding fund
    fund-IsKept b hash txs out g g' word h =
        let i = sub64 (sub64 b.number start_block_num) 1 in
        let (tx, g₁, p, h₁) =
          >>=-eq-done (prepare_deposit wallet start_block_num hash b.number) _ g h in
        let (lt, deposit) = prepare_deposit-eq wallet start_block_num hash b.number g g₁ tx p in
        let deploying : Exec Globals (List Tx) =
          if b.number == add64 start_block_num 1
          then deploy_txns wallet cfg start_block_num draws b
          else pure [] in
        let (deployed, g₂, q, h₂) = >>=-eq-done deploying _ g₁ h₁ in
        let made : (deposit_txns wallet txs ++ wallet.new_deposit (funding wallet hash i) ∷ [])
              ++ (deployed ++ user_txns wallet txs)
            ≡ out =
          cc in
        let few : length deployed ≤ 1 = ground (arith, deploy_txns-length b g₁ g₂ deployed) in
        let turn = account_of wallet start_block_num b.number start_word word lt in
        (
          i,
          hash,
          deposit_txns wallet txs,
          deployed,
          user_txns wallet txs,
          lt,
          turn,
          split_lem wallet txs,
          sym made,
          (
            few,
            λ later.
                not_first (b.number == add64 start_block_num 1)
                  (deploy_txns wallet cfg start_block_num draws b) g₁ g₂ deployed
                  (first_only wallet start_block_num b.number i start_word lt turn later) q,
          ),
        )

    -- For a start block number that is a `uint64`, and a block before the eleventh after the start
    -- block for which `modifyTransactions` returns: the block is one of the ten that follow the start
    -- block, and keeps all its transactions, each of which is a deposit or not. Its deposits come first,
    -- in order, then the deposit that funds the account whose turn it is, then, in the first of these blocks alone, at most one
    -- deployment, and then the others, in order.
    pub modify_transactions-IsKept :
        (b : Block Tx Withdrawals) (txs out : List Tx) (g g' : Globals)
        → b.number < add64 start_block_num 11
        → modify_transactions wallet cfg start_block_num draws b txs g ≡ (done out, g')
        → IsKept wallet start_block_num b.number txs out
    unfolding modify_transactions
    modify_transactions-IsKept b [] out g g' early h = cc
    modify_transactions-IsKept b (tx ∷ txs) out g g' early h =
        let (hash, g₁, p, h₁) =
          >>=-eq-done (or_panic (wallet.l1_block_hash b.time (wallet.data_of tx))) _ g h in
        fund-IsKept b hash (tx ∷ txs) out g₁ g' (omega arith) (ground arith)
