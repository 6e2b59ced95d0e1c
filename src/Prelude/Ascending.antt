-- ===== src/Prelude/Ascending.antt =====
-- Go's `sort.Strings`, by insertion: the order is that of the code points, which UTF-8's bytes have
-- too. And `strings.Join`.
use Prim.Native.Char.{code}
use Prim.Native.String.{String, ◌++◌ as str_append}
use Prim.Native.Nat.{ℕ}
use mathlib.Core.Path.{◌≡◌, refl, ap₂}
use mathlib.Core.Logic.{inl, inr}
use mathlib.Core.Bool.{Bool, true, false}
use mathlib.Core.HLevel.{prop→set}
use mathlib.Core.List.{List, [], ◌∷◌, foldr, Perm, Pairwise, not-mem-nil, forall_mem-cons}
use mathlib.Core.List.Perm
use native.Mathlib.Omega.{arith}
use text.Mathlib.TextEquality.{codes_equal, IsScalar-prop}
use replayor.Prelude.Tests.{ltb, ◌==◌, if◌then◌else◌, Bool-cases}

-- `s <= t`
unfoldable pub str_leb : String → String → Bool
str_leb String.[] t = true
str_leb (String.◌∷◌ c s) String.[] = false
str_leb (String.◌∷◌ c s) (String.◌∷◌ d t) =
    let rest = str_leb s t in
    if ltb (code c) (code d) then true else if code c == code d then rest else false

str_leb_total : (s t : String) → str_leb s t ≡ false → str_leb t s ≡ true
unfolding str_leb
str_leb_total String.[] t h = ground arith
str_leb_total (String.◌∷◌ c s) String.[] h = refl
str_leb_total (String.◌∷◌ c s) (String.◌∷◌ d t) h = ground (arith, str_leb_total s t)

str_leb_trans : (s t u : String) → str_leb s t ≡ true → str_leb t u ≡ true → str_leb s u ≡ true
unfolding str_leb
str_leb_trans String.[] t u h k = refl
str_leb_trans (String.◌∷◌ c s) String.[] u h k = ground arith
str_leb_trans (String.◌∷◌ c s) (String.◌∷◌ d t) String.[] h k = ground arith
str_leb_trans (String.◌∷◌ c s) (String.◌∷◌ d t) (String.◌∷◌ e u) h k =
    ground (arith, str_leb_trans s t u)

str_leb_antisymm : (s t : String) → str_leb s t ≡ true → str_leb t s ≡ true → s ≡ t
unfolding str_leb
str_leb_antisymm String.[] String.[] h k = refl
str_leb_antisymm String.[] (String.◌∷◌ d t) h k = ground arith
str_leb_antisymm (String.◌∷◌ c s) String.[] h k = ground arith
str_leb_antisymm (String.◌∷◌ c s) (String.◌∷◌ d t) h k =
    let same : code c ≡ code d = ground arith in
    ap₂ String.◌∷◌ (codes_equal c d (ground arith))
      (str_leb_antisymm s t (ground arith) (ground arith))

-- The name goes before the first one that it does not come after.
unfoldable pub place : String → List String → List String
unfolding str_leb
place name [] = name ∷ []
place name (other ∷ others) =
    let later = place name others in
    if str_leb name other then name ∷ other ∷ others else other ∷ later

unfoldable pub sort_strings : List String → List String
unfolding place
sort_strings names = foldr place [] names

place_comm : (s t : String) (l : List String) → place s (place t l) ≡ place t (place s l)
unfolding place
place_comm s t [] = ground (arith, str_leb_total s t, str_leb_antisymm s t)
place_comm s t (u ∷ l) = ground (
  arith,
  place_comm s t l,
  str_leb_total s t,
  str_leb_antisymm s t,
  str_leb_trans s t u,
  str_leb_trans t s u,
)

unfoldable pub join : List String → String → String
join [] sep = ""
join (name ∷ []) sep = name
join (name ∷ next ∷ names) sep = str_append name (str_append sep (join (next ∷ names) sep))

names_set : IsSet (List String)
names_set = hlevel (λ (n : ℕ). prop→set (IsScalar-prop n))

-- The sorted names do not depend on the order in which they come.
pub sort_strings-eq_of_Perm : {l l' : List String} → Perm l l' → sort_strings l ≡ sort_strings l'
unfolding sort_strings
sort_strings-eq_of_Perm p = Perm.foldr-eq names_set place place_comm p []

place-Perm : (s : String) (l : List String) → Perm (place s l) (s ∷ l)
unfolding place
place-Perm s [] = Perm.rfl
place-Perm s (t ∷ l) = elim (Bool-cases (str_leb s t)) [
  | inl first ↦ rw first Perm.rfl
  | inr later ↦ rw later (Perm.trans (Perm.cons t (place-Perm s l)) (Perm.swap s t l))
]

pub sort_strings-Perm : (l : List String) → Perm (sort_strings l) l
unfolding sort_strings
sort_strings-Perm [] = Perm.rfl
sort_strings-Perm (s ∷ l) =
    Perm.trans (place-Perm s (sort_strings l)) (Perm.cons s (sort_strings-Perm l))

-- Every name comes before those after it.
abbrev pub IsAscending : List String → Type 0
IsAscending = Pairwise λ s t. str_leb s t ≡ true

place-IsAscending : (s : String) (l : List String) → IsAscending l → IsAscending (place s l)
unfolding place
place-IsAscending s [] h = Pairwise.cons (λ t m. absurd (not-mem-nil m)) Pairwise.nil
place-IsAscending s (t ∷ l) (Pairwise.cons below h) = elim (Bool-cases (str_leb s t)) [
  | inl first ↦ rw first (
      Pairwise.cons
        ((forall_mem-cons (hlevel)).1 (first, λ u m. str_leb_trans s t u first (below u m)))
        (Pairwise.cons below h))
  | inr later ↦ rw later (
      Pairwise.cons
        (λ u m.
          (forall_mem-cons (hlevel)).1 (str_leb_total s t later, below) u
            ((Perm.mem_iff (place-Perm s l)).0 m))
        (place-IsAscending s l h))
]

pub sort_strings-IsAscending : (l : List String) → IsAscending (sort_strings l)
unfolding sort_strings
sort_strings-IsAscending [] = Pairwise.nil
sort_strings-IsAscending (s ∷ l) = place-IsAscending s (sort_strings l) (sort_strings-IsAscending l)
