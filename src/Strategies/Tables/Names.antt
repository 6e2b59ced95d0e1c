-- ===== src/Strategies/Tables/Names.antt =====
-- The names that `GetValidPrecompileNames` of packages/precompiles/precompiles.go and
-- `GetValidStorageStressorNames` of packages/storage_stressor/storage_stressor.go list.
use mathlib.Core.Logic.Or
use mathlib.Core.List.{Mem, mem-cons_self, mem-cons_of_mem, not-mem-nil, eq-or-mem_of_mem-cons}
use replayor.Prelude.{
  ℕ, ◌≡◌, ◌↔◌, String, Bool, true, false, Option, none, some, List, [], ◌∷◌, Dict, lookup, str_eq,
  eq_iff, arith, Bool-cases, inl, inr,
}
use replayor.Prelude.Ascending.{sort_strings, join}

-- `names` are the keys of the map in the order in which `range` gives them.
unfoldable pub valid_names : List String → String
unfolding sort_strings join
valid_names names = join (sort_strings names) ", "

unfoldable pub keys : Dict (List ℕ) → List String
keys [] = []
keys ((name, signature) ∷ others) = name ∷ keys others

-- What both functions answer, each about its own map.
unfoldable pub get_valid_names : Dict (List ℕ) → String
unfolding valid_names keys
get_valid_names signatures = valid_names (keys signatures)

abbrev pub is_found : Option (List ℕ) → Bool
is_found (some signature) = true
is_found none = false

Mem-keys→ :
    (name : String) (m : Dict (List ℕ)) → Mem name (keys m) → is_found (lookup name m) ≡ true
unfolding keys lookup
Mem-keys→ name [] h = absurd (not-mem-nil h)
Mem-keys→ name ((key, signature) ∷ m) h =
    let P = is_found (lookup name ((key, signature) ∷ m)) ≡ true in
    let prop : IsProp P = hlevel in
    Or.elim prop (eq-or-mem_of_mem-cons h) (λ (e : name ≡ key). ground (arith, eq_iff name key))
      (λ (later : Mem name (keys m)). ground (arith, Mem-keys→ name m later))

Mem-keys← :
    (name : String) (m : Dict (List ℕ)) → is_found (lookup name m) ≡ true → Mem name (keys m)
unfolding keys lookup
Mem-keys← name [] h = cc
Mem-keys← name ((key, signature) ∷ m) h = elim (Bool-cases (str_eq name key)) [
  | inl e ↦ let same : name ≡ key = (eq_iff name key).0 e in rw same mem-cons_self
  | inr e ↦ mem-cons_of_mem key (Mem-keys← name m (rw e at h))
]

pub Mem-keys :
    (name : String) (m : Dict (List ℕ)) → Mem name (keys m) ↔ (is_found (lookup name m) ≡ true)
Mem-keys name m = (Mem-keys→ name m, Mem-keys← name m)
