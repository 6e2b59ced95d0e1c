-- ===== src/Prelude/Lists.antt =====
-- Lists measured and indexed by the native numbers, under the library's names.
use Prim.Native.Nat.{ℕ, zero, suc, ◌+◌, ◌≤◌, ◌<◌}
use mathlib.Core.Path.{◌≡◌, refl, ap}
use mathlib.Core.Logic.{◌≢◌}
use mathlib.Core.List.{List, [], ◌∷◌, ◌++◌, map}
use mathlib.Core.Option.{Option, none, some}
use native.Mathlib.Omega.{arith}

module _ {ℓ} {A : Type ℓ} where
  abbrev pub length : List A → ℕ
  length [] = 0
  length (x ∷ xs) = suc (length xs)

  abbrev pub get_elem? : List A → ℕ → Option A
  get_elem? [] i = none
  get_elem? (x ∷ xs) zero = some x
  get_elem? (x ∷ xs) (suc i) = get_elem? xs i

  -- A write out of bounds changes nothing.
  abbrev pub set : List A → ℕ → A → List A
  set [] i v = []
  set (x ∷ xs) zero v = v ∷ xs
  set (x ∷ xs) (suc i) v = x ∷ set xs i v

  abbrev pub replicate : ℕ → A → List A
  replicate zero a = []
  replicate (suc n) a = a ∷ replicate n a

  pub length-append : (xs ys : List A) → length (xs ++ ys) ≡ length xs + length ys
  length-append [] ys = omega arith
  length-append (x ∷ xs) ys = omega (arith, length-append xs ys)

  pub length-set : (xs : List A) (i : ℕ) (v : A) → length (set xs i v) ≡ length xs
  length-set [] i v = refl
  length-set (x ∷ xs) zero v = refl
  length-set (x ∷ xs) (suc i) v = ap suc (length-set xs i v)

  pub length-replicate : (n : ℕ) (a : A) → length (replicate n a) ≡ n
  length-replicate zero a = refl
  length-replicate (suc n) a = ap suc (length-replicate n a)

-- The numbers `first`, `first + 1`, … , `n` of them.
abbrev pub count_up : ℕ → ℕ → List ℕ
count_up first zero = []
count_up first (suc n) = first ∷ count_up (first + 1) n

-- `All P xs` is a tuple of proofs, one for each item.
abbrev pub All {ℓ κ} : {A : Type ℓ} → (A → Type κ) → List A → Type κ
All P [] = Unit
All P (x ∷ xs) = P x × All P xs

pub All-append {ℓ κ} :
    {A : Type ℓ} (P : A → Type κ) (xs ys : List A) → All P xs → All P ys → All P (xs ++ ys)
All-append P [] ys hx hy = hy
All-append P (x ∷ xs) ys hx hy = (hx.0, All-append P xs ys hx.1 hy)

pub All-prefix {ℓ κ} : {A : Type ℓ} (P : A → Type κ) (xs ys : List A) → All P (xs ++ ys) → All P xs
All-prefix P [] ys h = tt
All-prefix P (x ∷ xs) ys h = (h.0, All-prefix P xs ys h.1)

pub All-always {ℓ κ} : {A : Type ℓ} (P : A → Type κ) → ((x : A) → P x) → (xs : List A) → All P xs
All-always P f [] = tt
All-always P f (x ∷ xs) = (f x, All-always P f xs)

module _ {ℓ} {A : Type ℓ} where
  pub get_elem?-set_self :
      (xs : List A) (i : ℕ) (v : A) → i < length xs → get_elem? (set xs i v) i ≡ some v
  get_elem?-set_self [] i v h = elim h [ ]
  get_elem?-set_self (x ∷ xs) zero v h = refl
  get_elem?-set_self (x ∷ xs) (suc i) v h = get_elem?-set_self xs i v (omega arith)

  pub get_elem?-set_ne :
      (xs : List A) (i j : ℕ) (v : A) → i ≢ j → get_elem? (set xs i v) j ≡ get_elem? xs j
  get_elem?-set_ne [] i j v h = refl
  get_elem?-set_ne (x ∷ xs) zero zero v h = absurd (h refl)
  get_elem?-set_ne (x ∷ xs) zero (suc j) v h = refl
  get_elem?-set_ne (x ∷ xs) (suc i) zero v h = refl
  get_elem?-set_ne (x ∷ xs) (suc i) (suc j) v h = get_elem?-set_ne xs i j v (λ e. h (ap suc e))

  -- Two lists with the same items at the same places are equal.
  pub eq_of_get_elem? :
      (xs ys : List A)
      → length xs ≡ length ys
      → ((i : ℕ) → i < length ys → get_elem? xs i ≡ get_elem? ys i)
      → xs ≡ ys
  eq_of_get_elem? [] [] e h = refl
  eq_of_get_elem? [] (y ∷ ys) e h = absurd (omega arith)
  eq_of_get_elem? (x ∷ xs) [] e h = absurd (omega arith)
  eq_of_get_elem? (x ∷ xs) (y ∷ ys) e h =
      cc (h 0 (omega arith), eq_of_get_elem? xs ys (omega arith) (λ i lt. h (suc i) (omega arith)))

  pub length-map {κ} : {B : Type κ} (f : A → B) (xs : List A) → length (map f xs) ≡ length xs
  length-map f [] = refl
  length-map f (x ∷ xs) = ap suc (length-map f xs)

module _ {ℓ} {A : Type ℓ} (f : ℕ → A) where
  pub length-map-count_up : (s n : ℕ) → length (map f (count_up s n)) ≡ n
  length-map-count_up s zero = refl
  length-map-count_up s (suc n) = ap suc (length-map-count_up (s + 1) n)

  pub get_elem?-map-count_up :
      (s n i : ℕ) → i < n → get_elem? (map f (count_up s n)) i ≡ some (f (s + i))
  get_elem?-map-count_up s zero i h = elim h [ ]
  get_elem?-map-count_up s (suc n) zero h = let e : s + 0 ≡ s = omega arith in rw e refl
  get_elem?-map-count_up s (suc n) (suc i) h =
      let e : s + 1 + i ≡ s + suc i = omega arith in
      rw (← e) (get_elem?-map-count_up (s + 1) n i (omega arith))

  pub map-count_up-append :
      (s n m : ℕ) → map f (count_up s (n + m)) ≡ map f (count_up s n) ++ map f (count_up (s + n) m)
  map-count_up-append s zero m =
      let e : 0 + m ≡ m = omega arith in let e' : s + 0 ≡ s = omega arith in rw (e, e') refl
  map-count_up-append s (suc n) m =
      let e : suc n + m ≡ suc (n + m) = omega arith in
      let e' : s + suc n ≡ s + 1 + n = omega arith in
      rw (e, e') (ap (λ xs. f s ∷ xs) (map-count_up-append (s + 1) n m))

-- A first part of consecutive numbers is consecutive numbers.
pub count_up_prefix :
    (s n : ℕ) (xs ys : List ℕ)
    → xs ++ ys ≡ count_up s n
    → (xs ≡ count_up s (length xs)) × (length xs ≤ n)
count_up_prefix s n [] ys h = (refl, omega arith)
count_up_prefix s zero (x ∷ xs) ys h = cc
count_up_prefix s (suc n) (x ∷ xs) ys h =
    let (e, le) = count_up_prefix (s + 1) n xs ys (ground arith) in (cc (e, h), omega arith)

pub map-count_up_prefix {ℓ} :
    {A : Type ℓ} (f : ℕ → A) (s n : ℕ) (xs ys : List A)
    → xs ++ ys ≡ map f (count_up s n)
    → (xs ≡ map f (count_up s (length xs))) × (length xs ≤ n)
map-count_up_prefix f s n [] ys h = (refl, omega arith)
map-count_up_prefix f s zero (x ∷ xs) ys h = cc
map-count_up_prefix f s (suc n) (x ∷ xs) ys h =
    let (e, le) = map-count_up_prefix f (s + 1) n xs ys (ground arith) in (cc (e, h), omega arith)

pub length-count_up : (s n : ℕ) → length (count_up s n) ≡ n
length-count_up s zero = refl
length-count_up s (suc n) = ap suc (length-count_up (s + 1) n)

pub count_up-append : (s n m : ℕ) → count_up s (n + m) ≡ count_up s n ++ count_up (s + n) m
count_up-append s zero m =
    let e : 0 + m ≡ m = omega arith in let e' : s + 0 ≡ s = omega arith in rw (e, e') refl
count_up-append s (suc n) m =
    let e : suc n + m ≡ suc (n + m) = omega arith in
    let e' : s + suc n ≡ s + 1 + n = omega arith in
    rw (e, e') (ap (λ xs. s ∷ xs) (count_up-append (s + 1) n m))

-- Consecutive numbers that do not pass a bound.
pub count_up_bound : (s n last : ℕ) → All (λ x. x ≤ last) (count_up s n) → 0 < n → s + n ≤ last + 1
count_up_bound s zero last h lt = absurd (omega arith)
count_up_bound s (suc zero) last h lt = omega arith
count_up_bound s (suc (suc n)) last h lt = omega (arith, count_up_bound (s + 1) (suc n) last h.1)

pub All-map {ℓ κ} :
    {A B : Type ℓ} (P : B → Type κ) (f : A → B) (xs : List A)
    → All (λ x. P (f x)) xs
    → All P (map f xs)
All-map P f [] h = tt
All-map P f (x ∷ xs) h = (h.0, All-map P f xs h.1)

-- Two ways to cut a list after as many items are one.
pub append_cut {ℓ} :
    {A : Type ℓ} (xs ys xs' ys' : List A)
    → xs ++ ys ≡ xs' ++ ys'
    → length xs ≡ length xs'
    → xs ≡ xs'
append_cut [] ys [] ys' h e = refl
append_cut [] ys (x' ∷ xs') ys' h e = absurd (omega arith)
append_cut (x ∷ xs) ys [] ys' h e = absurd (omega arith)
append_cut (x ∷ xs) ys (x' ∷ xs') ys' h e =
    cc (h, append_cut xs ys xs' ys' (ground arith) (omega arith))

-- The item after some of consecutive numbers.
pub count_up_next :
    (s n : ℕ) (xs : List ℕ) (y : ℕ) (ys : List ℕ) → xs ++ y ∷ ys ≡ count_up s n → y ≡ s + length xs
count_up_next s zero [] y ys h = cc
count_up_next s (suc n) [] y ys h = ground arith
count_up_next s zero (x ∷ xs) y ys h = cc
count_up_next s (suc n) (x ∷ xs) y ys h =
    omega (arith, count_up_next (s + 1) n xs y ys (ground arith))

-- `copy` into an array of `n` bytes that starts as zeros.
pub take_padded : ℕ → List ℕ → List ℕ
take_padded zero xs = []
take_padded (suc n) [] = 0 ∷ take_padded n []
take_padded (suc n) (x ∷ xs) = x ∷ take_padded n xs
