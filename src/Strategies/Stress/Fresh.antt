-- ===== src/Strategies/Stress/Fresh.antt =====
-- The nonces that `modifyTransactions` of packages/strategies/stress.go uses for a block.
use replayor.Prelude.{
  ℕ, ◌+◌, ◌<◌, ◌≡◌, refl, sym, ap, ◌∙◌, inl, inr, none, some, Option, List, [], ◌∷◌, ◌++◌, All,
  arith, append-nil, length, u64_mod, add64, sub64, ltb, ◌==◌, str_eq, if◌then◌else◌, if_keeps,
  Bool-cases, get_elem?, Option-cases,
}
use replayor.Exec.{Exec, Outcome, done, Result, ok, err, pure, >>=-eq-done}
use replayor.Chain.{Block}
use replayor.Config.{ReplayorConfig}
use replayor.Strategies.Signing.{
  DynamicFeeTx, Wallet, Globals, num_addresses, nonce_at, bump_nonce, prepare_deposit,
  create_signed_tx, keep_contract_address, prepare_deploy_contract, deposit_txns, user_txns,
}
use replayor.Strategies.Nonces.{
  Use, Fresh, Fresh-same, Fresh-eq, Fresh-refl, Fresh-more, Fresh-trans, bump-Fresh, use-Fresh,
  Signs, signed_by, signed_by-append, signed_by-one,
}
use replayor.Strategies.Packing.{
  Draw, last_tx, pack_erc20_transfer, pack_eth_transfer, pack_storage_stressor,
  pack_precompile_targeter,
}
use replayor.Strategies.Packing.Fresh.{
  AreAccounts, pack_erc20_transfer-Fresh, pack_eth_transfer-Fresh, pack_storage_stressor-Fresh,
  pack_precompile_targeter-Fresh,
}
use replayor.Strategies.Stress.{
  or_panic, deref, looped, pack_it_up, deploy_with, deploy_txns, fund, fill, modify_transactions,
}
use replayor.Strategies.Stress.Bounds.{looped-done}
use replayor.Strategies.Stress.Kept.{funding, prepare_deposit-eq}

-- `panic(err)` changes nothing.
or_panic-same :
    {A : Type 0} (r : Result A) (a : A) (g g' : Globals) → or_panic r g ≡ (done a, g') → g' ≡ g
or_panic-same (ok b) a g g' h = ground arith
or_panic-same (err e) a g g' h = cc

deref-same :
    {A : Type 0} (o : Option A) (a : A) (g g' : Globals) → deref o g ≡ (done a, g') → g' ≡ g
deref-same (some b) a g g' h = ground arith
deref-same none a g g' h = cc

module _ {Tx : Type 0} (wallet : Wallet Tx) (signs : Signs wallet) where
  abbrev uses_of : List Tx → List Use
  uses_of = signed_by signs.signed

  -- No transaction of a list is signed by the test's accounts.
  abbrev pub AreForeign : List Tx → Type 0
  AreForeign txs = All (λ tx. signs.signed tx ≡ none) txs

  uses_of-deposits : (txs : List Tx) → AreForeign txs → uses_of (deposit_txns wallet txs) ≡ []
  unfolding deposit_txns signed_by
  uses_of-deposits [] h = refl
  uses_of-deposits (tx ∷ txs) h = ground (arith, uses_of-deposits txs h.1)

  uses_of-users : (txs : List Tx) → AreForeign txs → uses_of (user_txns wallet txs) ≡ []
  unfolding user_txns signed_by
  uses_of-users [] h = refl
  uses_of-users (tx ∷ txs) h = ground (arith, uses_of-users txs h.1)

  prepare_deposit-Fresh :
      (start hash n : ℕ) (g g' : Globals) (tx : Tx)
      → length g.nonces ≡ num_addresses
      → ((i : ℕ) → i < num_addresses → nonce_at i g + 1 < u64_mod)
      → prepare_deposit wallet start hash n g ≡ (done tx, g')
      → (signs.signed tx ≡ none) × Fresh g 1 [] g'
  unfolding prepare_deposit
  prepare_deposit-Fresh start hash n g g' tx size room h =
      let i = sub64 (sub64 n start) 1 in
      elim (Bool-cases (ltb i num_addresses)) [
        | inr out ↦ ground arith
        | inl inside ↦
            let (lt, made) = prepare_deposit-eq wallet start hash n g g' tx h in
            let moved : g' ≡ bump_nonce i g = ground arith in
            (
              rw (← made) (signs.deposit (funding wallet hash i)),
              rw moved
                  (bump-Fresh i (Fresh-refl g) (omega (arith, size)) (omega (arith, room i lt))),
            )
      ]

  -- The deployment uses the next nonce of the first account.
  create_signed_tx-Fresh :
      (i : ℕ) (to : Option ℕ) (value gas tip fee : ℕ) (code : List ℕ) (g g' : Globals) (tx : Tx)
      → i < num_addresses
      → length g.nonces ≡ num_addresses
      → nonce_at i g + 1 < u64_mod
      → create_signed_tx wallet i to value gas tip fee code g ≡ (done (ok tx), g')
      → Fresh g 1 (uses_of (tx ∷ [])) g'
  unfolding create_signed_tx
  create_signed_tx-Fresh i to value gas tip fee code g g' tx lt size room h =
      let t : DynamicFeeTx = record {
        to = to;
        nonce = nonce_at i g;
        value = value;
        gas = gas;
        gas_tip_cap = tip;
        gas_fee_cap = fee;
        tx_data = code;
      } in
      let moved : g' ≡ bump_nonce i g = ground arith in
      let signed : wallet.sign_tx t i ≡ ok tx = ground arith in
      let one = signed_by-one signs.signed tx (i, nonce_at i g) (signs.sign t i tx signed) in
      rw (moved, one) (use-Fresh i (Fresh-refl g) (omega (arith, size)) (omega (arith, room)))

  kept_address-same :
      (r : Result Tx) (tx : Tx) (g g' : Globals)
      → keep_contract_address wallet r g ≡ (done (ok tx), g')
      → (r ≡ ok tx) × (g'.nonces ≡ g.nonces)
  unfolding keep_contract_address
  kept_address-same (err e) tx g g' h = ground arith
  kept_address-same (ok made) tx g g' h =
      (ground arith, sym (ap (λ (o : Outcome (Result Tx) × Globals). o.1.nonces) h))

  or_panic-ok :
      (r : Result Tx) (tx : Tx) (g g' : Globals) → or_panic r g ≡ (done tx, g') → r ≡ ok tx
  or_panic-ok (ok made) tx g g' h = ground arith
  or_panic-ok (err e) tx g g' h = cc

  module _ {Withdrawals : Type 0} (b : Block Tx Withdrawals) where
    prepare_deploy_contract-Fresh :
        (code : List ℕ) (g g' : Globals) (tx : Tx)
        → length g.nonces ≡ num_addresses
        → nonce_at 0 g + 1 < u64_mod
        → prepare_deploy_contract wallet b code g ≡ (done (ok tx), g')
        → Fresh g 1 (uses_of (tx ∷ [])) g'
    unfolding prepare_deploy_contract
    prepare_deploy_contract-Fresh code g g' tx size room h =
        elim (Option-cases (get_elem? b.transactions 1)) [
          | inl missing ↦ ground arith
          | inr (txn, found) ↦
              let creating : Exec Globals (Result Tx) =
                create_signed_tx wallet 0 none 0 2_000_000 (wallet.gas_tip_cap txn) 999_999_999_999
                  code in
              let (r, g₁, p, h₁) =
                >>=-eq-done creating (keep_contract_address wallet) g {b = ok tx} {s'' = g'}
                  (ground arith) in
              let (made, same) = kept_address-same r tx g₁ g' h₁ in
              Fresh-same same (
                create_signed_tx-Fresh 0 none 0 2_000_000 (wallet.gas_tip_cap txn) 999_999_999_999
                  code g g₁ tx (omega arith) size room (rw made at p))
        ]

module _ {Tx Withdrawals : Type 0} (wallet : Wallet Tx) (signs : Signs wallet)
    (cfg : ReplayorConfig) (start_block_num : ℕ) (draws : ℕ → List Draw)
    (b : Block Tx Withdrawals) where
  deploy_with-Fresh :
      (code : List ℕ) (g g' : Globals) (out : List Tx)
      → length g.nonces ≡ num_addresses
      → nonce_at 0 g + 1 < u64_mod
      → deploy_with wallet cfg start_block_num draws b code g ≡ (done out, g')
      → Fresh g 1 (uses_of wallet signs out) g'
  unfolding deploy_with
  deploy_with-Fresh code g g' out size room h =
      let (signed, g₁, p, h₁) = >>=-eq-done (prepare_deploy_contract wallet b code) _ g h in
      let (tx, g₂, q, h₂) = >>=-eq-done (or_panic signed) _ g₁ h₁ in
      let made : signed ≡ ok tx = or_panic-ok wallet signs signed tx g₁ g₂ q in
      let f = prepare_deploy_contract-Fresh wallet signs b code g g₁ tx size room (rw made at p) in
      let same : g₂ ≡ g₁ = or_panic-same signed tx g₁ g₂ q in
      let out_is : tx ∷ [] ≡ out = cc in
      let end : g₁ ≡ g' = cc in Fresh-eq (ap (uses_of wallet signs) out_is) end f

  -- What a part of a block's transactions uses.
  abbrev Uses : ℕ → Globals → Exec Globals (List Tx) → Type 0
  Uses k g m =
      (out : List Tx) (g' : Globals)
      → m g ≡ (done out, g')
      → Fresh g k (uses_of wallet signs out) g'

  nothing-Uses : (k : ℕ) (g : Globals) → Uses k g (pure [])
  unfolding signed_by
  nothing-Uses k g out g' h =
      let empty : [] ≡ out = cc in
      let same : g ≡ g' = cc in
      Fresh-eq (ap (uses_of wallet signs) empty) same (Fresh-more (omega arith) (Fresh-refl g))

  deploy_txns-Fresh :
      (g : Globals)
      → length g.nonces ≡ num_addresses
      → nonce_at 0 g + 1 < u64_mod
      → Uses 1 g (deploy_txns wallet cfg start_block_num draws b)
  unfolding deploy_txns
  deploy_txns-Fresh g size room =
      let deploys : (code : List ℕ)
          → Uses 1 g (deploy_with wallet cfg start_block_num draws b code) =
        λ code out g' h. deploy_with-Fresh code g g' out size room h in
      let deploy : List ℕ → Exec Globals (List Tx) =
        deploy_with wallet cfg start_block_num draws b in
      let type = cfg.stress_test_type in
      let on_storage : Exec Globals (List Tx) =
        if str_eq type "storage" then deploy wallet.storage_stressor_bytecode else pure [] in
      let on_precompile : Exec Globals (List Tx) =
        if str_eq type "precompile"
        then deploy wallet.precompile_targeter_bytecode
        else on_storage in
      if_keeps (Uses 1 g) (str_eq type "erc20") (deploy wallet.erc20_bytecode) on_precompile
        (deploys wallet.erc20_bytecode)
        (if_keeps (Uses 1 g) (str_eq type "precompile") (deploy wallet.precompile_targeter_bytecode)
          on_storage (deploys wallet.precompile_targeter_bytecode)
          (if_keeps (Uses 1 g) (str_eq type "storage") (deploy wallet.storage_stressor_bytecode)
            (pure []) (deploys wallet.storage_stressor_bytecode) (nothing-Uses 1 g)))

  -- Of one of the first blocks, only the deployment is signed by the test's accounts.
  funded-uses :
      (txs deployed : List Tx) (dep : Tx)
      → AreForeign wallet signs txs
      → signs.signed dep ≡ none
      → uses_of wallet signs deployed
        ≡ uses_of wallet signs
            ((deposit_txns wallet txs ++ dep ∷ []) ++ (deployed ++ user_txns wallet txs))
  unfolding signed_by
  funded-uses txs deployed dep foreign unsigned =
      let s = signs.signed in
      let deposits = deposit_txns wallet txs in
      let users = user_txns wallet txs in
      let one : signed_by s (dep ∷ []) ≡ [] = rw (unsigned, signed_by) refl in
      rw
        (
          signed_by-append s (deposits ++ dep ∷ []) (deployed ++ users),
          signed_by-append s deposits (dep ∷ []),
          signed_by-append s deployed users,
          uses_of-deposits wallet signs txs foreign,
          uses_of-users wallet signs txs foreign,
          one,
          append-nil,
        )
        refl

  module _ (g : Globals) (size : length g.nonces ≡ num_addresses)
      (room : (i : ℕ) → i < num_addresses → nonce_at i g + (cfg.gas_target + 2) < u64_mod) where
    pack_it_up-Fresh :
        AreAccounts wallet cfg (draws b.number)
        → Uses (cfg.gas_target + 1) g (pack_it_up wallet cfg start_block_num draws b)
    unfolding pack_it_up
    pack_it_up-Fresh accounts out g' h =
        let (gas_info, g₁, p, packs) = >>=-eq-done (deref (last_tx b.transactions)) _ g h in
        let same : g₁ ≡ g = deref-same (last_tx b.transactions) gas_info g g₁ p in
        let free : (i : ℕ) → i < num_addresses → nonce_at i g + cfg.gas_target + 1 < u64_mod =
          λ i lt. omega (arith, room i lt) in
        let type = cfg.stress_test_type in
        let on_erc20 : Exec Globals (List Tx) =
          λ s. looped (pack_erc20_transfer wallet cfg gas_info s) s in
        let on_eth : Exec Globals (List Tx) =
          λ s. looped (pack_eth_transfer wallet cfg (draws b.number) gas_info s) s in
        let on_storage : Exec Globals (List Tx) =
          if str_eq type "storage" then pack_storage_stressor wallet cfg gas_info else on_eth in
        let on_precompile : Exec Globals (List Tx) =
          if str_eq type "precompile"
          then pack_precompile_targeter wallet cfg gas_info
          else on_storage in
        let P = Uses (cfg.gas_target + 1) g in
        if_keeps P (str_eq type "erc20") on_erc20 on_precompile
          (λ o s k.
            pack_erc20_transfer-Fresh wallet signs g size cfg gas_info free o s
              (looped-done (pack_erc20_transfer wallet cfg gas_info g) g s o k))
          (if_keeps P (str_eq type "precompile") (pack_precompile_targeter wallet cfg gas_info)
            on_storage (pack_precompile_targeter-Fresh wallet signs g size cfg gas_info free)
            (if_keeps P (str_eq type "storage") (pack_storage_stressor wallet cfg gas_info) on_eth
              (pack_storage_stressor-Fresh wallet signs g size cfg gas_info free)
              (λ o s k.
                pack_eth_transfer-Fresh wallet signs g size cfg gas_info free (draws b.number) o s
                  accounts
                  (looped-done (pack_eth_transfer wallet cfg (draws b.number) gas_info g) g s o
                    k))))
          out g' (rw same at packs)

    fill-Fresh :
        (txs : List Tx)
        → AreForeign wallet signs txs
        → AreAccounts wallet cfg (draws b.number)
        → Uses (cfg.gas_target + 2) g (fill wallet cfg start_block_num draws b txs)
    unfolding fill
    fill-Fresh txs foreign accounts out g' h =
        let (made, g₁, p, h₁) = >>=-eq-done (pack_it_up wallet cfg start_block_num draws b) _ g h in
        let all : deposit_txns wallet txs ++ made ≡ out = cc in
        let end : g₁ ≡ g' = cc in
        let used : uses_of wallet signs made ≡ uses_of wallet signs out =
          rw
            (
              ← all,
              signed_by-append signs.signed (deposit_txns wallet txs) made,
              uses_of-deposits wallet signs txs foreign,
            )
            refl in
        Fresh-eq used end (Fresh-more (omega arith) (pack_it_up-Fresh accounts made g₁ p))

    fund-Fresh :
        (hash : ℕ) (txs : List Tx)
        → AreForeign wallet signs txs
        → Uses (cfg.gas_target + 2) g (fund wallet cfg start_block_num draws b hash txs)
    unfolding fund
    fund-Fresh hash txs foreign out g' h =
        let (dep, g₁, p, h₁) =
          >>=-eq-done (prepare_deposit wallet start_block_num hash b.number) _ g h in
        let (unsigned, f) =
          prepare_deposit-Fresh wallet signs start_block_num hash b.number g g₁ dep size
            (λ i lt. omega (arith, room i lt)) p in
        let now = b.number == add64 start_block_num 1 in
        let deploying : Exec Globals (List Tx) =
          if now then deploy_txns wallet cfg start_block_num draws b else pure [] in
        let (deployed, g₂, q, h₂) = >>=-eq-done deploying _ g₁ h₁ in
        let f' =
          if_keeps (Uses 1 g₁) now (deploy_txns wallet cfg start_block_num draws b) (pure [])
            (deploy_txns-Fresh g₁ (omega (arith, f.size, size))
              (omega (arith, room 0 (omega arith), f.few 0)))
            (nothing-Uses 1 g₁) deployed g₂ q in
        let all : (deposit_txns wallet txs ++ dep ∷ []) ++ (deployed ++ user_txns wallet txs)
            ≡ out =
          cc in
        let end : g₂ ≡ g' = cc in
        Fresh-eq (funded-uses txs deployed dep foreign unsigned ∙ ap (uses_of wallet signs) all) end
          (Fresh-more (omega arith) (Fresh-trans f f'))

    -- A block uses nonces of the test's accounts that follow those of `g`.
    pub modify_transactions-Fresh :
        (txs : List Tx)
        → AreForeign wallet signs txs
        → AreAccounts wallet cfg (draws b.number)
        → Uses (cfg.gas_target + 2) g (modify_transactions wallet cfg start_block_num draws b txs)
    unfolding modify_transactions
    modify_transactions-Fresh [] foreign accounts out g' h = cc
    modify_transactions-Fresh (tx ∷ txs) foreign accounts out g' h =
        let info = wallet.l1_block_hash b.time (wallet.data_of tx) in
        let (hash, g₁, p, h₁) = >>=-eq-done (or_panic info) _ g h in
        let same : g₁ ≡ g = or_panic-same info hash g g₁ p in
        if_keeps (Uses (cfg.gas_target + 2) g) (ltb b.number (add64 start_block_num 11))
          (fund wallet cfg start_block_num draws b hash (tx ∷ txs))
          (fill wallet cfg start_block_num draws b (tx ∷ txs)) (fund-Fresh hash (tx ∷ txs) foreign)
          (fill-Fresh (tx ∷ txs) foreign accounts) out g' (rw same at h₁)
