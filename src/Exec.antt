-- ===== src/Exec.antt =====
-- Go code that mutates shared state and may end the process: by `panic`, or by the logger's `Crit`,
-- which logs and exits. What was written before stays written, so the state comes back either way.
use replayor.Prelude.{◌≡◌, refl, ◌∙◌, ap, ◌⊎◌, inl, inr, String, List, [], ◌∷◌, ◌++◌}

-- Why a call did not return.
pub data Stop : Type 0 where
  panic : Stop
  crit : Stop

pub data Outcome {ℓ} (A : Type ℓ) : Type ℓ where
  done : A → Outcome A
  stopped : Stop → Outcome A

abbrev pub Exec {ℓ} : Type ℓ → Type ℓ → Type ℓ
Exec S A = S → Outcome A × S

module _ {ℓ} {S A B : Type ℓ} where
  abbrev pub continue : Outcome A → (A → Exec S B) → Exec S B
  continue (done a) f s = f a s
  continue (stopped c) f s = (stopped c, s)

  infixl 5 ◌>>=◌
  abbrev pub ◌>>=◌ : Exec S A → (A → Exec S B) → Exec S B
  ◌>>=◌ m f s = let (r, s') = m s in continue r f s'

infixl 5 ◌>>◌
abbrev pub ◌>>◌ {ℓ} : {S A B : Type ℓ} → Exec S A → Exec S B → Exec S B
m >> k = m >>= λ _. k

module _ {ℓ} {S A : Type ℓ} where
  abbrev pub pure : A → Exec S A
  pure a s = (done a, s)

  abbrev pub stop : Stop → Exec S A
  stop c s = (stopped c, s)

  abbrev pub gets : (S → A) → Exec S A
  gets f s = (done (f s), s)

-- Go's pair of a value and an error, of which a caller reads one.
pub data Result {ℓ} (A : Type ℓ) : Type ℓ where
  ok : A → Result A
  err : String → Result A

-- A call that is done went through its first part.
pub >>=-eq-done {ℓ} :
    {S A B : Type ℓ} (m : Exec S A) (f : A → Exec S B) (s : S) {b : B} {s'' : S}
    → (m >>= f) s ≡ (done b, s'')
    → (a : A) × (s' : S) × (m s ≡ (done a, s')) × (f a s' ≡ (done b, s''))
>>=-eq-done {S} {A} {B} m f s {b} {s''} h = go (m s) refl h
  where
    go :
        (r : Outcome A × S)
        → m s ≡ r
        → continue r.0 f r.1 ≡ (done b, s'')
        → (a : A) × (s' : S) × (m s ≡ (done a, s')) × (f a s' ≡ (done b, s''))
    go (done a, s') e k = (a, s', e, k)
    go (stopped c, s') e k = cc

-- `for _, x := range xs { f(x) }`
module _ {ℓ} {S X : Type ℓ} (f : X → Exec S (Unit {ℓ})) where
  unfoldable pub each : List X → Exec S (Unit {ℓ})
  each [] = pure tt
  each (x ∷ xs) = f x >> each xs

  -- A loop that is done, and one more turn that is.
  pub each-snoc :
      (xs : List X) (x : X) (s s' s'' : S)
      → each xs s ≡ (done tt, s')
      → f x s' ≡ (done tt, s'')
      → each (xs ++ x ∷ []) s ≡ (done tt, s'')
  unfolding each
  each-snoc [] x s s' s'' h k =
      let e : s ≡ s' = ap (λ (r : Outcome (Unit {ℓ}) × S). r.1) h in rw (e, k) refl
  each-snoc (y ∷ ys) x s s' s'' h k =
      let (_, t, e, rest) = >>=-eq-done (f y) (λ _. each ys) s h in
      rw e (each-snoc ys x t s' s'' rest k)

  pub each-append-inv :
      (xs ys : List X) (s s'' : S)
      → each (xs ++ ys) s ≡ (done tt, s'')
      → (s' : S) × (each xs s ≡ (done tt, s')) × (each ys s' ≡ (done tt, s''))
  unfolding each
  each-append-inv [] ys s s'' h = (s, refl, h)
  each-append-inv (x ∷ xs) ys s s'' h =
      let (_, t, e, rest) = >>=-eq-done (f x) (λ _. each (xs ++ ys)) s h in
      let (s', first, last) = each-append-inv xs ys t s'' rest in (s', rw e first, last)

pub Result-cases {ℓ} :
    {A : Type ℓ} (r : Result A) → ((a : A) × (r ≡ ok a)) ⊎ ((e : String) × (r ≡ err e))
Result-cases (ok a) = inl (a, refl)
Result-cases (err e) = inr (e, refl)

module _ {ℓ} {S X : Type ℓ} (f : X → Exec S (Unit {ℓ})) where
  -- A loop of one turn.
  pub each-one : (x : X) (s s' : S) → each f (x ∷ []) s ≡ (done tt, s') → f x s ≡ (done tt, s')
  unfolding each
  each-one x s s' h = let (_, t, p, rest) = >>=-eq-done (f x) (λ _. pure tt) s h in p ∙ rest
