-- ===== src/Trace/Accounts.antt =====
-- How many accounts and storage tries `recordStorageChanges` of packages/replayor/trace.go counts.
use replayor.Prelude.{
  ◌%◌, ◌≡◌, refl, String, Bool, true, false, ◌||◌, ◌&&◌, not, List, [], ◌∷◌, arith, str_eq, eq_iff,
  Dict, length, u64_mod, if◌then◌else◌, ltb, add64, insert, lookup, or_zero, none, some, Option,
}
use replayor.Exec.{ok}
use replayor.Stats.{BlockCreationStats}
use replayor.Trace.Storage.{
  StorageAccountState, Accounts, StorageTrace, Changes, empty_state, merge_slots, merge_accounts,
  merge_traces, slot_in, count_deleted, deleted_slots, deleted_accounts, written_accounts, changes,
  StorageTracer, traces_loaded, record_storage_changes,
}
use replayor.Trace.Slots.{has, IsDict, is_some, has-insert, insert-IsDict, merge_traces-AreDicts}

abbrev pub is_empty : Dict String → Bool
is_empty [] = true
is_empty (slot ∷ slots) = false

-- Whether accounts name an account with a slot of it.
abbrev pub slotted : String → Accounts → Bool
slotted a [] = false
slotted a ((b, state) ∷ accounts) =
    (str_eq b a && not (is_empty state.storage)) || slotted a accounts

-- Whether some trace names a slot of the account, before or after its transaction.
abbrev pub slot_touched : String → List StorageTrace → Bool
slot_touched a [] = false
slot_touched a (trace ∷ traces) =
    (slotted a trace.pre || slotted a trace.post) || slot_touched a traces

-- Whether some trace has the account in its state after the transaction.
abbrev pub posted : String → List StorageTrace → Bool
posted a [] = false
posted a (trace ∷ traces) = has a trace.post || posted a traces

has-merge_accounts :
    (a : String) (accounts merged : Accounts)
    → has a (merge_accounts accounts merged) ≡ (has a accounts || has a merged)
unfolding merge_accounts
has-merge_accounts a [] merged = refl
has-merge_accounts a ((b, state) ∷ accounts) merged =
    let old : StorageAccountState = or_zero (lookup b merged) empty_state in
    let new : StorageAccountState = record old {
      storage = merge_slots state.storage old.storage;
    } in
    ground (arith, has-merge_accounts a accounts (insert b new merged), has-insert b a new merged)

has-merge_traces :
    (a : String) (traces : List StorageTrace) (pre post : Accounts)
    → has a (merge_traces traces (pre, post)).1 ≡ (posted a traces || has a post)
unfolding merge_traces
has-merge_traces a [] pre post = refl
has-merge_traces a (trace ∷ traces) pre post = ground (
  arith,
  has-merge_traces a traces (merge_accounts trace.pre pre) (merge_accounts trace.post post),
  has-merge_accounts a trace.post post,
)

is_empty-insert : (k v : String) (m : Dict String) → is_empty (insert k v m) ≡ false
unfolding insert
is_empty-insert k v [] = refl
is_empty-insert k v ((j, w) ∷ m) = ground arith

is_empty-merge_slots :
    (slots merged : Dict String)
    → is_empty (merge_slots slots merged) ≡ (is_empty slots && is_empty merged)
unfolding merge_slots
is_empty-merge_slots [] merged = refl
is_empty-merge_slots ((slot, value) ∷ slots) merged = ground (
  arith,
  is_empty-merge_slots slots (insert slot value merged),
  is_empty-insert slot value merged,
)

slotted-insert :
    (a b : String) (slots : Dict String) (new : StorageAccountState) (m : Accounts)
    → is_empty new.storage ≡ (is_empty slots && is_empty (or_zero (lookup b m) empty_state).storage)
    → slotted a (insert b new m) ≡ ((str_eq b a && not (is_empty slots)) || slotted a m)
unfolding insert lookup
slotted-insert a b slots new [] h = ground arith
slotted-insert a b slots new ((c, state) ∷ m) h =
    ground (arith, slotted-insert a b slots new m, eq_iff b c)

slotted-merge_accounts :
    (a : String) (accounts merged : Accounts)
    → slotted a (merge_accounts accounts merged) ≡ (slotted a accounts || slotted a merged)
unfolding merge_accounts
slotted-merge_accounts a [] merged = refl
slotted-merge_accounts a ((b, state) ∷ accounts) merged =
    let old : StorageAccountState = or_zero (lookup b merged) empty_state in
    let new : StorageAccountState = record old {
      storage = merge_slots state.storage old.storage;
    } in
    ground (
      arith,
      slotted-merge_accounts a accounts (insert b new merged),
      slotted-insert a b state.storage new merged (is_empty-merge_slots state.storage old.storage),
    )

slotted-merge_traces :
    (a : String) (traces : List StorageTrace) (pre post : Accounts)
    → let m = merge_traces traces (pre, post) in
      (slotted a m.0 || slotted a m.1)
      ≡ (slot_touched a traces || (slotted a pre || slotted a post))
unfolding merge_traces
slotted-merge_traces a [] pre post = refl
slotted-merge_traces a (trace ∷ traces) pre post = ground (
  arith,
  slotted-merge_traces a traces (merge_accounts trace.pre pre) (merge_accounts trace.post post),
  slotted-merge_accounts a trace.pre pre,
  slotted-merge_accounts a trace.post post,
)

found-filled : (k : String) (m : Dict String) → is_some (lookup k m) ≡ true → is_empty m ≡ false
unfolding lookup
found-filled k [] h = ground arith
found-filled k ((j, v) ∷ m) h = refl

-- A slot that is found is one of the account.
found-slotted :
    (a k : String) (accounts : Accounts)
    → is_some (slot_in accounts a k) ≡ true
    → slotted a accounts ≡ true
unfolding slot_in lookup
found-slotted a k [] h = ground arith
found-slotted a k ((b, state) ∷ accounts) h =
    ground (arith, found-slotted a k accounts, found-filled k state.storage, eq_iff a b, eq_iff b a)

has-count_deleted :
    (o : Option String) (a b : String) (c : Changes)
    → has a (count_deleted o b c).changed_storage_tries
      ≡ ((str_eq b a && not (is_some o)) || has a c.changed_storage_tries)
unfolding count_deleted
has-count_deleted none a b c = ground (arith, has-insert b a true c.changed_storage_tries)
has-count_deleted (some value) a b c = ground arith

-- The tries that the deleted slots mark, with those that `Post` will.
has-deleted_slots :
    (a b : String) (post : Accounts) (slots : Dict String) (c : Changes)
    → (has a (deleted_slots post b slots c).changed_storage_tries || slotted a post)
      ≡ ((str_eq b a && not (is_empty slots)) || (has a c.changed_storage_tries || slotted a post))
unfolding deleted_slots count_deleted
has-deleted_slots a b post [] c = ground arith
has-deleted_slots a b post ((k, v) ∷ slots) c = ground (
  arith,
  has-deleted_slots a b post slots (count_deleted (slot_in post b k) b c),
  has-count_deleted (slot_in post b k) a b c,
  found-slotted b k post,
  eq_iff b a,
)

has-deleted_accounts :
    (a : String) (post accounts : Accounts) (c : Changes)
    → (has a (deleted_accounts post accounts c).changed_storage_tries || slotted a post)
      ≡ (slotted a accounts || (has a c.changed_storage_tries || slotted a post))
unfolding deleted_accounts
has-deleted_accounts a post [] c = refl
has-deleted_accounts a post ((b, state) ∷ accounts) c = ground (
  arith,
  has-deleted_accounts a post accounts (deleted_slots post b state.storage c),
  has-deleted_slots a b post state.storage c,
)

-- One turn of the loop over `Post`.
abbrev written : String → StorageAccountState → Changes → Changes
written b state c = record {
  slots_changed = add64 c.slots_changed (length state.storage % u64_mod);
  changed_storage_tries =
      if ltb 0 (length state.storage)
      then insert b true c.changed_storage_tries
      else c.changed_storage_tries;
}

has-written :
    (a b : String) (state : StorageAccountState) (c : Changes)
    → has a (written b state c).changed_storage_tries
      ≡ ((str_eq b a && not (is_empty state.storage)) || has a c.changed_storage_tries)
has-written a b state c = go state.storage
  where
    go :
        (slots : Dict String)
        → has a (
            if ltb 0 (length slots)
            then insert b true c.changed_storage_tries
            else c.changed_storage_tries)
          ≡ ((str_eq b a && not (is_empty slots)) || has a c.changed_storage_tries)
    go [] = ground arith
    go (slot ∷ slots) = ground (arith, has-insert b a true c.changed_storage_tries)

has-written_accounts :
    (a : String) (accounts : Accounts) (c : Changes)
    → has a (written_accounts accounts c).changed_storage_tries
      ≡ (slotted a accounts || has a c.changed_storage_tries)
unfolding written_accounts
has-written_accounts a [] c = refl
has-written_accounts a ((b, state) ∷ accounts) c =
    ground (arith, has-written_accounts a accounts (written b state c), has-written a b state c)

has-changes :
    (a : String) (pre post : Accounts)
    → has a (changes pre post).changed_storage_tries ≡ (slotted a pre || slotted a post)
unfolding changes
has-changes a pre post =
    let zero_changes : Changes = record { slots_changed = 0; changed_storage_tries = [] } in
    ground (
      arith,
      has-deleted_accounts a post pre zero_changes,
      has-written_accounts a post (deleted_accounts post pre zero_changes),
    )

-- Each trie is marked once.
abbrev HasDict : Changes → Type 0
HasDict c = IsDict c.changed_storage_tries

deleted_slots-HasDict :
    (post : Accounts) (b : String) (slots : Dict String) (c : Changes)
    → HasDict c
    → HasDict (deleted_slots post b slots c)
unfolding deleted_slots count_deleted
deleted_slots-HasDict post b [] c h = h
deleted_slots-HasDict post b ((k, v) ∷ slots) c h =
    deleted_slots-HasDict post b slots (count_deleted (slot_in post b k) b c)
      (ground (arith, insert-IsDict b true c.changed_storage_tries h))

deleted_accounts-HasDict :
    (post accounts : Accounts) (c : Changes)
    → HasDict c
    → HasDict (deleted_accounts post accounts c)
unfolding deleted_accounts
deleted_accounts-HasDict post [] c h = h
deleted_accounts-HasDict post ((b, state) ∷ accounts) c h =
    deleted_accounts-HasDict post accounts (deleted_slots post b state.storage c)
      (deleted_slots-HasDict post b state.storage c h)

written_accounts-HasDict :
    (accounts : Accounts) (c : Changes) → HasDict c → HasDict (written_accounts accounts c)
unfolding written_accounts
written_accounts-HasDict [] c h = h
written_accounts-HasDict ((b, state) ∷ accounts) c h =
    written_accounts-HasDict accounts (written b state c)
      (ground (arith, insert-IsDict b true c.changed_storage_tries h))

changes-HasDict : (pre post : Accounts) → HasDict (changes pre post)
unfolding changes
changes-HasDict pre post =
    let zero_changes : Changes = record { slots_changed = 0; changed_storage_tries = [] } in
    written_accounts-HasDict post (deleted_accounts post pre zero_changes)
      (deleted_accounts-HasDict post pre zero_changes tt)

-- Where the traces of a block are loaded: `AccountsChanged` is the number, modulo 2 ^ 64, of the
-- accounts that some trace has in its state after the transaction, each counted once, and
-- `StorageTriesChanged` that of the accounts of which some trace names a slot, before or after its
-- transaction, each counted once.
pub accounts_changed_lem :
    (tracer : StorageTracer) (s : BlockCreationStats) (traces : List StorageTrace)
    → tracer.retry_traces 3 (tracer.trace_block s.block_hash) ≡ ok traces
    → (accounts : Accounts) × (tries : Dict Bool) × (IsDict accounts × IsDict tries)
      × ((a : String) → has a accounts ≡ posted a traces)
      × ((a : String) → has a tries ≡ slot_touched a traces)
      × ((record_storage_changes tracer s).accounts_changed ≡ length accounts % u64_mod)
      × ((record_storage_changes tracer s).storage_tries_changed ≡ length tries % u64_mod)
unfolding record_storage_changes traces_loaded
accounts_changed_lem tracer s traces loaded =
    let m = merge_traces traces ([], []) in
    let dicts = merge_traces-AreDicts traces [] [] (tt, tt) (tt, tt) in
    (
      m.1,
      (changes m.0 m.1).changed_storage_tries,
      (dicts.1.0, changes-HasDict m.0 m.1),
      λ a. ground (arith, has-merge_traces a traces [] []),
      λ a. ground (arith, has-changes a m.0 m.1, slotted-merge_traces a traces [] []),
      rw loaded refl,
      rw loaded refl,
    )
