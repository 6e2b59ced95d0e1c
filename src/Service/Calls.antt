-- ===== src/Service/Calls.antt =====
-- How `Start` of packages/replayor/service.go comes to an end: its parts as calls one after the other.
use replayor.Prelude.{◌≡◌, refl, ◌⊎◌, inl, inr, String}

-- How far a part of `Start` came: to a value, to an error that it returns, to the end of the process
-- by a panic or `Crit`, or not to an end yet, since the turns of a `Run` are over before it returns.
pub data Phase (A : Type 0) : Type 0 where
  reached : A → Phase A
  failed : String → Phase A
  process_ended : Phase A
  still_running : Phase A

abbrev pub Starting : Type 0 → Type 0 → Type 0
Starting S A = S → Phase A × S

module _ {S A B : Type 0} where
  abbrev pub continue : Phase A → (A → Starting S B) → Starting S B
  continue (reached a) f s = f a s
  continue (failed e) f s = (failed e, s)
  continue process_ended f s = (process_ended, s)
  continue still_running f s = (still_running, s)

  infixl 5 ◌>>=◌
  abbrev pub ◌>>=◌ : Starting S A → (A → Starting S B) → Starting S B
  ◌>>=◌ m f s = let (r, s') = m s in continue r f s'

infixl 5 ◌>>◌
abbrev pub ◌>>◌ : {S A B : Type 0} → Starting S A → Starting S B → Starting S B
m >> k = m >>= λ _. k

-- Parts of `Start` that came to a value went through the first one.
pub >>=-eq-reached :
    {S A B : Type 0} (m : Starting S A) (f : A → Starting S B) (s : S) {b : B} {s'' : S}
    → (m >>= f) s ≡ (reached b, s'')
    → (a : A) × (s' : S) × (m s ≡ (reached a, s')) × (f a s' ≡ (reached b, s''))
>>=-eq-reached {S} {A} {B} m f s {b} {s''} h = go (m s) refl h
  where
    go :
        (r : Phase A × S)
        → m s ≡ r
        → continue r.0 f r.1 ≡ (reached b, s'')
        → (a : A) × (s' : S) × (m s ≡ (reached a, s')) × (f a s' ≡ (reached b, s''))
    go (reached a, s') e k = (a, s', e, k)
    go (failed e', s') e k = cc
    go (process_ended, s') e k = cc
    go (still_running, s') e k = cc

-- An error comes from one of the parts.
pub >>=-eq-failed :
    {S A B : Type 0} (m : Starting S A) (f : A → Starting S B) (s : S) {e : String} {s'' : S}
    → (m >>= f) s ≡ (failed e, s'')
    → (m s ≡ (failed e, s''))
      ⊎ ((a : A) × (s' : S) × (m s ≡ (reached a, s')) × (f a s' ≡ (failed e, s'')))
>>=-eq-failed {S} {A} {B} m f s {e} {s''} h = go (m s) refl h
  where
    go :
        (r : Phase A × S)
        → m s ≡ r
        → continue r.0 f r.1 ≡ (failed e, s'')
        → (m s ≡ (failed e, s''))
          ⊎ ((a : A) × (s' : S) × (m s ≡ (reached a, s')) × (f a s' ≡ (failed e, s'')))
    go (reached a, s') same k = inr (a, s', same, k)
    go (failed e', s') same k = inl cc
    go (process_ended, s') same k = cc
    go (still_running, s') same k = cc

-- What every part keeps, whatever its end, their sequence keeps.
pub record Keeps {S A : Type 0} (P : S → Type 0) (m : Starting S A) : Type 0 where
  pub keeps : (s : S) → P s → P (m s).1

pub Keeps->>= :
    {S A B : Type 0} (P : S → Type 0) (m : Starting S A) (f : A → Starting S B)
    → Keeps P m
    → ((a : A) → Keeps P (f a))
    → Keeps P (m >>= f)
Keeps->>= {S} {A} {B} P m f h k = record { keeps = λ s p. go (m s) (h.keeps s p) }
  where
    go : (r : Phase A × S) → P r.1 → P (continue r.0 f r.1).1
    go (reached a, s') q = (k a).keeps s' q
    go (failed e, s') q = q
    go (process_ended, s') q = q
    go (still_running, s') q = q
