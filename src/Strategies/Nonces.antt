-- ===== src/Strategies/Nonces.antt =====
-- The nonces that packages/strategies/stress.go uses: each account's go up with every transaction.
use mathlib.Core.Path.{subst}
use replayor.Prelude.{
  ℕ, ◌+◌, ◌≤◌, ◌<◌, ◌≡◌, ◌≢◌, refl, ap, ◌∙◌, get_elem?, Option, none, some, inl, inr, List, [], ◌∷◌,
  ◌++◌, All, All-append, arith, length, length-set, get_elem?-set_self, get_elem?-set_ne, u64_mod,
  add64, ◌==◌, ==_iff, if◌then◌else◌, or_zero, Bool-cases, Option-cases,
}
use replayor.Exec.{ok}
use replayor.Strategies.Signing.{DynamicFeeTx, DepositTx, Wallet, Globals, nonce_at, bump_nonce}

-- `nonces[i]++` on all accounts.
pub nonce_at-bump :
    (i j : ℕ) (g : Globals)
    → i < length g.nonces
    → nonce_at j (bump_nonce i g) ≡ (if i == j then add64 (nonce_at j g) 1 else nonce_at j g)
nonce_at-bump i j g lt = elim (Bool-cases (i == j)) [
  | inl e ↦
      let same : i ≡ j = (==_iff i j).0 e in
      let here : nonce_at i (bump_nonce i g) ≡ add64 (nonce_at i g) 1 =
        ap (λ o. or_zero o 0) (get_elem?-set_self g.nonces i (add64 (nonce_at i g) 1) lt) in
      rw e (subst (λ k. nonce_at k (bump_nonce i g) ≡ add64 (nonce_at k g) 1) same here)
  | inr e ↦
      let other : i ≢ j = λ s. cc (e, (==_iff i j).1 s) in
      rw e (ap (λ o. or_zero o 0) (get_elem?-set_ne g.nonces i j (add64 (nonce_at i g) 1) other))
]

-- An account and a nonce.
abbrev pub Use : Type 0
Use = ℕ × ℕ

-- Of one account, a later nonce is greater.
abbrev pub IsIncreasing : List Use → Type 0
IsIncreasing [] = Unit
IsIncreasing ((i, n) ∷ uses) = All (λ (u : Use). u.0 ≡ i → n < u.1) uses × IsIncreasing uses

pub All-weaken {ℓ κ} :
    {A : Type ℓ} (P Q : A → Type κ) → ((x : A) → P x → Q x) → (xs : List A) → All P xs → All Q xs
All-weaken P Q f [] h = tt
All-weaken P Q f (x ∷ xs) h = (f x h.0, All-weaken P Q f xs h.1)

IsIncreasing-append :
    (us vs : List Use)
    → IsIncreasing us
    → IsIncreasing vs
    → All (λ (u : Use). All (λ (v : Use). v.0 ≡ u.0 → u.1 < v.1) vs) us
    → IsIncreasing (us ++ vs)
IsIncreasing-append [] vs h k cross = k
IsIncreasing-append ((i, n) ∷ us) vs h k cross = (
  All-append (λ (u : Use). u.0 ≡ i → n < u.1) us vs h.0 cross.0,
  IsIncreasing-append us vs h.1 k cross.1,
)

-- From the nonces of `g` on, `uses` have led to those of `g'`, in at most `steps` steps.
pub record Fresh (g : Globals) (steps : ℕ) (uses : List Use) (g' : Globals) : Type 0 where
  pub size : length g'.nonces ≡ length g.nonces
  pub grown : (i : ℕ) → nonce_at i g ≤ nonce_at i g'
  pub few : (i : ℕ) → nonce_at i g' ≤ nonce_at i g + steps
  pub within : All (λ (u : Use). (nonce_at u.0 g ≤ u.1) × (u.1 < nonce_at u.0 g')) uses
  pub increasing : IsIncreasing uses

pub Fresh-refl : (g : Globals) → Fresh g 0 [] g
Fresh-refl g = record {
  size = refl;
  grown = λ i. omega arith;
  few = λ i. omega arith;
  within = tt;
  increasing = tt;
}

pub Fresh-more :
    {g g' : Globals} {k m : ℕ} {uses : List Use} → k ≤ m → Fresh g k uses g' → Fresh g m uses g'
Fresh-more le f = record {
  size = f.size;
  grown = f.grown;
  few = λ i. omega (arith, f.few i);
  within = f.within;
  increasing = f.increasing;
}

-- Only the nonces matter.
pub Fresh-same :
    {g g' g'' : Globals} {k : ℕ} {uses : List Use}
    → g''.nonces ≡ g'.nonces
    → Fresh g k uses g'
    → Fresh g k uses g''
Fresh-same {g'} {g''} {uses} e f =
    let same : (i : ℕ) → nonce_at i g'' ≡ nonce_at i g' =
      λ i. ap (λ ns. or_zero (get_elem? ns i) 0) e in
    record {
      size = ap length e ∙ f.size;
      grown = λ i. omega (arith, f.grown i, same i);
      few = λ i. omega (arith, f.few i, same i);
      within = All-weaken _ _ (λ u w. omega (arith, w.0, w.1, same u.0)) uses f.within;
      increasing = f.increasing;
    }

pub Fresh-eq :
    {g g' g'' : Globals} {k : ℕ} {us vs : List Use}
    → us ≡ vs
    → g' ≡ g''
    → Fresh g k us g'
    → Fresh g k vs g''
Fresh-eq {g} {g''} {k} {us} e e' f =
    subst (λ vs. Fresh g k vs g'') e (subst (λ h. Fresh g k us h) e' f)

pub Fresh-trans :
    {g g' g'' : Globals} {k m : ℕ} {us vs : List Use}
    → Fresh g k us g'
    → Fresh g' m vs g''
    → Fresh g (k + m) (us ++ vs) g''
Fresh-trans {g'} {us} {vs} f h = record {
  size = omega (arith, f.size, h.size);
  grown = λ i. omega (arith, f.grown i, h.grown i);
  few = λ i. omega (arith, f.few i, h.few i);
  within =
      All-append _ us vs (All-weaken _ _ (λ u w. omega (arith, w.0, w.1, h.grown u.0)) us f.within)
        (All-weaken _ _ (λ v w. omega (arith, w.0, w.1, f.grown v.0)) vs h.within);
  increasing = IsIncreasing-append us vs f.increasing h.increasing (
      All-weaken _ _
        (λ u w.
          All-weaken _ _ (λ v w' same. omega (arith, w.1, w'.0, ap (λ i. nonce_at i g') same)) vs
            h.within)
        us f.within);
}

-- `nonces[i]++` without a transaction, and with one of the nonce before.
module _ {g g' : Globals} {k : ℕ} {uses : List Use} (i : ℕ) (f : Fresh g k uses g')
    (account : i < length g.nonces) (room : nonce_at i g + k + 1 < u64_mod) where
  nonce_at-raised :
      (j : ℕ) → nonce_at j (bump_nonce i g') ≡ nonce_at j g' + (if i == j then 1 else 0)
  nonce_at-raised j =
      ground (arith, nonce_at-bump i j g' (omega (arith, f.size)), ==_iff i j, f.few i, f.few j)

  pub bump-Fresh : Fresh g (k + 1) uses (bump_nonce i g')
  bump-Fresh = record {
    size = omega (arith, f.size, length-set g'.nonces i (add64 (nonce_at i g') 1));
    grown = λ j. ground (arith, f.grown j, nonce_at-raised j);
    few = λ j. ground (arith, f.few j, nonce_at-raised j);
    within = All-weaken _ _ (λ u w. (w.0, ground (arith, w.1, nonce_at-raised u.0))) uses f.within;
    increasing = f.increasing;
  }

  pub use-Fresh : Fresh g (k + 1) (uses ++ (i, nonce_at i g') ∷ []) (bump_nonce i g')
  use-Fresh = record {
    size = bump-Fresh.size;
    grown = bump-Fresh.grown;
    few = bump-Fresh.few;
    within =
        All-append _ uses ((i, nonce_at i g') ∷ []) bump-Fresh.within
          ((f.grown i, ground (arith, ==_iff i i, nonce_at-raised i)), tt);
    increasing =
        IsIncreasing-append uses ((i, nonce_at i g') ∷ []) f.increasing (tt, tt)
          (All-weaken _ _ (λ u w. (λ same. omega (arith, w.1, ap (λ j. nonce_at j g') same), tt))
            uses f.within);
  }

-- The transactions that the test's accounts signed, by account and nonce. A signed transaction is
-- one of the account and the nonce that it was made with; a deposit is signed by none.
pub record Signs {Tx : Type 0} (wallet : Wallet Tx) : Type 0 where
  pub signed : Tx → Option Use
  pub sign :
      (t : DynamicFeeTx) (i : ℕ) (tx : Tx)
      → wallet.sign_tx t i ≡ ok tx
      → signed tx ≡ some (i, t.nonce)
  pub deposit : (d : DepositTx) → signed (wallet.new_deposit d) ≡ none

module _ {Tx : Type 0} (signed : Tx → Option Use) where
  unfoldable pub signed_by : List Tx → List Use
  signed_by [] = []
  signed_by (tx ∷ txs) =
      let rest = signed_by txs in elim (signed tx) [ none ↦ rest | some use_of ↦ use_of ∷ rest ]

  pub signed_by-append : (xs ys : List Tx) → signed_by (xs ++ ys) ≡ signed_by xs ++ signed_by ys
  unfolding signed_by
  signed_by-append [] ys = refl
  signed_by-append (x ∷ xs) ys = elim (Option-cases (signed x)) [
    | inl e ↦ rw (e, signed_by) (signed_by-append xs ys)
    | inr (u, e) ↦ rw (e, signed_by) (ap (λ us. u ∷ us) (signed_by-append xs ys))
  ]

  pub signed_by-one : (tx : Tx) (u : Use) → signed tx ≡ some u → signed_by (tx ∷ []) ≡ u ∷ []
  unfolding signed_by
  signed_by-one tx u e = rw (e, signed_by) refl
