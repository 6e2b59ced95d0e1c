-- ===== src/Trace/Slots.antt =====
-- The accounts and slots that the traces of packages/replayor/trace.go name, and what merging them
-- keeps.
use replayor.Prelude.{
  ◌≡◌, refl, String, Bool, true, false, ◌||◌, ◌&&◌, List, [], ◌∷◌, arith, str_eq, eq_iff, Dict,
  lookup, insert, or_zero, none, some, Option, All, Bool-cases, inl, inr,
}
use replayor.Trace.Storage.{
  StorageAccountState, Accounts, StorageTrace, empty_state, merge_slots, merge_accounts,
  merge_traces, slot_in,
}

module _ {ℓ} {V : Type ℓ} where
  -- Whether a map has a key.
  abbrev pub has : String → Dict V → Bool
  has k [] = false
  has k ((j, v) ∷ m) = str_eq j k || has k m

  -- No key twice, as in every map of Go.
  abbrev pub IsDict : Dict V → Type 0
  IsDict [] = Unit
  IsDict ((k, v) ∷ m) = (has k m ≡ false) × IsDict m

  abbrev pub is_some : Option V → Bool
  is_some none = false
  is_some (some v) = true

  pub has-lookup : (k : String) (m : Dict V) → is_some (lookup k m) ≡ has k m
  unfolding lookup
  has-lookup k [] = refl
  has-lookup k ((j, v) ∷ m) = ground (arith, has-lookup k m, eq_iff k j, eq_iff j k)

  pub has-insert :
      (k j : String) (v : V) (m : Dict V) → has j (insert k v m) ≡ (str_eq k j || has j m)
  unfolding insert
  has-insert k j v [] = refl
  has-insert k j v ((i, w) ∷ m) = ground (arith, has-insert k j v m, eq_iff k i)

  pub insert-IsDict : (k : String) (v : V) (m : Dict V) → IsDict m → IsDict (insert k v m)
  unfolding insert
  insert-IsDict k v [] h = ground arith
  insert-IsDict k v ((i, w) ∷ m) h =
      ground (arith, insert-IsDict k v m h.1, has-insert k i v m, eq_iff k i, eq_iff i k)

-- Whether accounts name a slot of an account.
abbrev pub named : String → String → Accounts → Bool
named a k [] = false
named a k ((b, state) ∷ accounts) = (str_eq b a && has k state.storage) || named a k accounts

-- Whether some trace of a block names it.
abbrev pub touched : String → String → List StorageTrace → Bool
touched a k [] = false
touched a k (trace ∷ traces) = (named a k trace.pre || named a k trace.post) || touched a k traces

has-merge_slots :
    (k : String) (slots merged : Dict String)
    → has k (merge_slots slots merged) ≡ (has k slots || has k merged)
unfolding merge_slots
has-merge_slots k [] merged = refl
has-merge_slots k ((slot, value) ∷ slots) merged =
    ground
      (arith, has-merge_slots k slots (insert slot value merged), has-insert slot k value merged)

merge_slots-IsDict :
    (slots merged : Dict String) → IsDict merged → IsDict (merge_slots slots merged)
unfolding merge_slots
merge_slots-IsDict [] merged h = h
merge_slots-IsDict ((slot, value) ∷ slots) merged h =
    merge_slots-IsDict slots (insert slot value merged) (insert-IsDict slot value merged h)

named-insert :
    (a k b : String) (slots : Dict String) (new : StorageAccountState) (m : Accounts)
    → has k new.storage ≡ (has k slots || has k (or_zero (lookup b m) empty_state).storage)
    → named a k (insert b new m) ≡ ((str_eq b a && has k slots) || named a k m)
unfolding insert lookup
named-insert a k b slots new [] h = ground arith
named-insert a k b slots new ((c, state) ∷ m) h =
    ground (arith, named-insert a k b slots new m, eq_iff b c)

named-merge_accounts :
    (a k : String) (accounts merged : Accounts)
    → named a k (merge_accounts accounts merged) ≡ (named a k accounts || named a k merged)
unfolding merge_accounts
named-merge_accounts a k [] merged = refl
named-merge_accounts a k ((b, state) ∷ accounts) merged =
    let old : StorageAccountState = or_zero (lookup b merged) empty_state in
    let new : StorageAccountState = record old {
      storage = merge_slots state.storage old.storage;
    } in
    ground (
      arith,
      named-merge_accounts a k accounts (insert b new merged),
      named-insert a k b state.storage new merged (has-merge_slots k state.storage old.storage),
    )

-- Merging names what either side names.
pub named-merge_traces :
    (a k : String) (traces : List StorageTrace) (pre post : Accounts)
    → let m = merge_traces traces (pre, post) in
      (named a k m.0 || named a k m.1) ≡ (touched a k traces || (named a k pre || named a k post))
unfolding merge_traces
named-merge_traces a k [] pre post = refl
named-merge_traces a k (trace ∷ traces) pre post = ground (
  arith,
  named-merge_traces a k traces (merge_accounts trace.pre pre) (merge_accounts trace.post post),
  named-merge_accounts a k trace.pre pre,
  named-merge_accounts a k trace.post post,
)

-- Maps of maps, none with a key twice.
abbrev pub AreDicts : Accounts → Type 0
AreDicts accounts = IsDict accounts × All (λ e. IsDict e.1.storage) accounts

All-insert :
    (P : StorageAccountState → Type 0) (b : String) (new : StorageAccountState) (m : Accounts)
    → P new
    → All (λ e. P e.1) m
    → All (λ e. P e.1) (insert b new m)
unfolding insert
All-insert P b new [] p h = (p, tt)
All-insert P b new ((c, state) ∷ m) p h = elim (Bool-cases (str_eq b c)) [
  | inl e ↦ rw (e, insert) (p, h.1)
  | inr e ↦ rw (e, insert) (h.0, All-insert P b new m p h.1)
]

found-IsDict :
    (b : String) (m : Accounts)
    → All (λ e. IsDict e.1.storage) m
    → IsDict (or_zero (lookup b m) empty_state).storage
unfolding lookup
found-IsDict b [] h = tt
found-IsDict b ((c, state) ∷ m) h = elim (Bool-cases (str_eq b c)) [
  | inl e ↦ rw (e, lookup) h.0
  | inr e ↦ rw (e, lookup) (found-IsDict b m h.1)
]

merge_accounts-AreDicts :
    (accounts merged : Accounts) → AreDicts merged → AreDicts (merge_accounts accounts merged)
unfolding merge_accounts
merge_accounts-AreDicts [] merged h = h
merge_accounts-AreDicts ((b, state) ∷ accounts) merged h =
    let old : StorageAccountState = or_zero (lookup b merged) empty_state in
    let new : StorageAccountState = record old {
      storage = merge_slots state.storage old.storage;
    } in
    merge_accounts-AreDicts accounts (insert b new merged) (
      insert-IsDict b new merged h.0,
      All-insert (λ s. IsDict s.storage) b new merged
          (merge_slots-IsDict state.storage old.storage (found-IsDict b merged h.1)) h.1,
    )

-- What is merged has no key twice.
pub merge_traces-AreDicts :
    (traces : List StorageTrace) (pre post : Accounts)
    → AreDicts pre
    → AreDicts post
    → let m = merge_traces traces (pre, post) in AreDicts m.0 × AreDicts m.1
unfolding merge_traces
merge_traces-AreDicts [] pre post h k = (h, k)
merge_traces-AreDicts (trace ∷ traces) pre post h k =
    merge_traces-AreDicts traces (merge_accounts trace.pre pre) (merge_accounts trace.post post)
      (merge_accounts-AreDicts trace.pre pre h) (merge_accounts-AreDicts trace.post post k)

pub has-named :
    (a k : String) (accounts : Accounts) → has a accounts ≡ false → named a k accounts ≡ false
has-named a k [] h = refl
has-named a k ((b, state) ∷ accounts) h = ground (arith, has-named a k accounts)

-- In maps without a key twice, a slot is named where it is found.
pub slot_in-named :
    (a k : String) (accounts : Accounts)
    → IsDict accounts
    → is_some (slot_in accounts a k) ≡ named a k accounts
unfolding slot_in lookup
slot_in-named a k [] h = refl
slot_in-named a k ((b, state) ∷ accounts) h = ground (
  arith,
  slot_in-named a k accounts h.1,
  has-lookup k state.storage,
  has-named b k accounts h.0,
  eq_iff a b,
  eq_iff b a,
)
