-- ===== src/Strategies/Packing/Eth.antt =====
-- Which transfers `packEthTransfer` of packages/strategies/stress.go makes, and their nonces.
use mathlib.Core.Path.{subst}
use replayor.Prelude.{
  ℕ, suc, ◌+◌, ◌-◌, ◌*◌, ◌/◌, ◌^◌, ◌≤◌, ◌<◌, ◌≡◌, ◌≢◌, refl, ap, ◌∙◌, Bool, true, false, none, some,
  inl, inr, List, [], ◌∷◌, ◌++◌, All, arith, append_assoc, append-nil, length, length-set,
  get_elem?-set_self, get_elem?-set_ne, u64_mod, add64, ltb, ◌==◌, ==_iff, if◌then◌else◌, or_zero,
  Bool-cases, Option-cases,
}
use replayor.Exec.{ok}
use replayor.Config.{ReplayorConfig}
use replayor.Strategies.Signing.{DynamicFeeTx, Wallet, Globals, num_addresses, nonce_at, bump_nonce}
use replayor.Strategies.Packing.{
  Draw, not_positive, eth_gas, eth_tx, drawn, keep_signed, eth_loop, pack_eth_transfer,
}

-- How many of the transfers are from an account.
abbrev pub count_from : ℕ → List (ℕ × ℕ) → ℕ
count_from i [] = 0
count_from i ((from, to) ∷ pairs) =
    if from == i then suc (count_from i pairs) else count_from i pairs

count_from-le : (i : ℕ) (pairs : List (ℕ × ℕ)) → count_from i pairs ≤ length pairs
count_from-le i [] = omega arith
count_from-le i ((from, to) ∷ pairs) = ground (arith, count_from-le i pairs)

-- `nonces[i]++` on all accounts.
nonce_at-bump :
    (i j : ℕ) (g : Globals)
    → i < length g.nonces
    → nonce_at j (bump_nonce i g) ≡ (if i == j then add64 (nonce_at j g) 1 else nonce_at j g)
nonce_at-bump i j g lt = elim (Bool-cases (i == j)) [
  | inl e ↦
      let same : i ≡ j = (==_iff i j).0 e in
      let here : nonce_at i (bump_nonce i g) ≡ add64 (nonce_at i g) 1 =
        ap (λ o. or_zero o 0) (get_elem?-set_self g.nonces i (add64 (nonce_at i g) 1) lt) in
      rw e (subst (λ k. nonce_at k (bump_nonce i g) ≡ add64 (nonce_at k g) 1) same here)
  | inr e ↦
      let other : i ≢ j = λ s. cc (e, (==_iff i j).1 s) in
      rw e (ap (λ o. or_zero o 0) (get_elem?-set_ne g.nonces i j (add64 (nonce_at i g) 1) other))
]

raise :
    (b : Bool) (now first made : ℕ)
    → now ≡ first + made
    → first + made + 1 < u64_mod
    → (if b then add64 now 1 else now) ≡ first + (if b then suc made else made)
raise b now first made e room = ground arith

-- The accounts' nonces after some transfers.
pub record IsRaised (g : Globals) (made : List (ℕ × ℕ)) (g' : Globals) : Type 0 where
  pub size : length g'.nonces ≡ num_addresses
  pub contract : g'.test_contract_address ≡ g.test_contract_address
  pub nonces : (i : ℕ) → i < num_addresses → nonce_at i g' ≡ nonce_at i g + count_from i made

bump-IsRaised :
    (g g' : Globals) (made : List (ℕ × ℕ)) (from to : ℕ)
    → from < num_addresses
    → ((i : ℕ) → i < num_addresses → nonce_at i g + length made + 1 < u64_mod)
    → IsRaised g made g'
    → IsRaised g ((from, to) ∷ made) (bump_nonce from g')
bump-IsRaised g g' made from to lt room r = record {
  size = simp (length-set, r.size);
  contract = r.contract;
  nonces = λ i below.
      let bumped = nonce_at-bump from i g' (omega (arith, r.size)) in
      let few = count_from-le i made in
      bumped
      ∙ raise (from == i) (nonce_at i g') (nonce_at i g) (count_from i made) (r.nonces i below)
          (omega (arith, room i below));
}

module _ {Tx : Type 0} (wallet : Wallet Tx) (cfg : ReplayorConfig) (gas_info : Tx)
    (sign : DynamicFeeTx → ℕ → Tx) where
  -- The pairs of different accounts among those drawn.
  unfoldable pub useful : List Draw → List (ℕ × ℕ)
  useful [] = []
  useful (draw ∷ draws) = elim (drawn wallet cfg draw) [
    | none ↦ useful draws
    | some pair ↦ pair ∷ useful draws
  ]

  -- The transfers between pairs of accounts: each has the nonce that its sender had at first, and one
  -- more for each earlier transfer from the sender.
  unfoldable pub transfers : Globals → List (ℕ × ℕ) → List (ℕ × ℕ) → List Tx
  transfers g earlier [] = []
  transfers g earlier ((from, to) ∷ pairs) =
      sign
        (eth_tx wallet cfg gas_info (wallet.addresses to)
          (nonce_at from g + count_from from earlier))
        from
      ∷ transfers g ((from, to) ∷ earlier) pairs

  module _ (signs : (t : DynamicFeeTx) (i : ℕ) → wallet.sign_tx t i ≡ ok (sign t i))
      (g : Globals) where
    -- What the loop leaves, that stands before `pairs` and has made `earlier`.
    abbrev Fills : List Draw → ℕ → List (ℕ × ℕ) → List (ℕ × ℕ) → List Tx → Globals → Type 0
    Fills draws remaining earlier pairs result g' =
        (g'' : Globals) × (earlier' : List (ℕ × ℕ)) × (eth_loop wallet cfg draws gas_info remaining
            (result, g')
          ≡ some (result ++ transfers g earlier pairs, g''))
        × IsRaised g earlier' g''
        × ((i : ℕ) → count_from i earlier' ≡ count_from i earlier + count_from i pairs)

    eth_loop-Fills :
        (draws : List Draw) (remaining : ℕ) (earlier pairs rest : List (ℕ × ℕ)) (result : List Tx)
        (g' : Globals)
        → pairs ++ rest ≡ useful draws
        → length pairs * eth_gas ≤ remaining
        → remaining < (length pairs + 1) * eth_gas
        → All (λ pair. pair.0 < num_addresses) pairs
        → ((i : ℕ) → i < num_addresses → nonce_at i g + length earlier + length pairs < u64_mod)
        → IsRaised g earlier g'
        → Fills draws remaining earlier pairs result g'
    unfolding eth_loop useful transfers keep_signed
    eth_loop-Fills [] remaining earlier [] rest result g' e lo hi below room r =
        let small : ltb remaining eth_gas ≡ true = ground arith in
        (g', earlier, ground (arith, append-nil result), r, λ i. omega arith)
    eth_loop-Fills [] remaining earlier (pair ∷ pairs) rest result g' e lo hi below room r = cc
    eth_loop-Fills (draw ∷ draws) remaining earlier [] rest result g' e lo hi below room r =
        let small : ltb remaining eth_gas ≡ true = ground arith in
        (g', earlier, ground (arith, append-nil result), r, λ i. omega arith)
    eth_loop-Fills (draw ∷ draws) remaining earlier ((from, to) ∷ pairs) rest result g' e lo hi
          below room r =
        let large : ltb remaining eth_gas ≡ false = ground arith in
        elim (Option-cases (drawn wallet cfg draw)) [
          | inl wasted ↦
              let (g'', earlier', eq, r', counts) =
                eth_loop-Fills draws remaining earlier ((from, to) ∷ pairs) rest result g'
                  (ground arith) lo hi below room r in
              (g'', earlier', ground (arith, eq), r', counts)
          | inr (pair, used) ↦
              let same : pair ≡ (from, to) = ground arith in
              let raised =
                bump-IsRaised g g' earlier from to below.0 (λ i lt. omega (arith, room i lt)) r in
              let (g'', earlier', eq, r', counts) =
                eth_loop-Fills draws (remaining - eth_gas) ((from, to) ∷ earlier) pairs rest
                  (result
                    ++ sign
                        (eth_tx wallet cfg gas_info (wallet.addresses to)
                          (nonce_at from g + count_from from earlier))
                        from
                      ∷ [])
                  (bump_nonce from g') (ground arith) (omega arith) (omega arith) below.1
                  (λ i lt. omega (arith, room i lt)) raised in
              (
                g'',
                earlier',
                ground (
                  arith,
                  r.nonces from below.0,
                  signs
                      (eth_tx wallet cfg gas_info (wallet.addresses to)
                        (nonce_at from g + count_from from earlier))
                      from,
                  rw append_assoc at eq,
                ),
                r',
                λ i. ground (arith, counts i),
              )
        ]

    -- Where every transfer can be signed, the gas target is positive as an `int64`, there are ten
    -- accounts, enough pairs of different accounts are drawn, of which none is out of range, and no
    -- nonce wraps: the loop ends, and the block is filled with as many transfers as fit into the gas
    -- target, one for each of the first pairs drawn that differ, in order; each has the nonce that its
    -- sender had at first and one more for each earlier transfer from the sender; and each account's
    -- nonce is raised by the number of its transfers.
    pub pack_eth_transfer_lem :
        (draws : List Draw) (pairs rest : List (ℕ × ℕ))
        → pairs ++ rest ≡ useful draws
        → length pairs ≡ cfg.gas_target / eth_gas
        → 0 < cfg.gas_target
        → cfg.gas_target < 2 ^ 63
        → All (λ pair. pair.0 < num_addresses) pairs
        → length g.nonces ≡ num_addresses
        → ((i : ℕ) → i < num_addresses → nonce_at i g + length pairs < u64_mod)
        → (g' : Globals) × (pack_eth_transfer wallet cfg draws gas_info g
            ≡ some (transfers g [] pairs, g'))
          × IsRaised g pairs g'
    unfolding pack_eth_transfer
    pack_eth_transfer_lem draws pairs rest drawn_first fits positive small below size room =
        let start : IsRaised g [] g = record {
          size = size;
          contract = refl;
          nonces = λ i lt. omega arith;
        } in
        let (g', made, eq, r, counts) =
          eth_loop-Fills draws cfg.gas_target [] pairs rest [] g drawn_first (omega arith)
            (omega arith) below (λ i lt. omega (arith, room i lt)) start in
        let target : not_positive cfg.gas_target ≡ false = ground arith in
        (
          g',
          rw target eq,
          record {
            size = r.size;
            contract = r.contract;
            nonces = λ i lt. omega (arith, r.nonces i lt, counts i);
          },
        )
